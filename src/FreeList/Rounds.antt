-- ===== src/FreeList/Rounds.antt =====
-- The rounds given to a walk are enough: blocks that share no byte are no more than the heap has
-- bytes.
use dynamic_memory_allocator.Base.{
  ℕ, zero, suc, ◌+◌, ◌-◌, ◌%◌, ◌^◌, ◌≤◌, ◌<◌, ◌≡◌, inl, inr, refl, List, [], ◌∷◌, All, All-map,
  length, ◌==◌, if◌then◌else◌, arith, Bool-cases,
}
use dynamic_memory_allocator.Machine.{State, done}
use dynamic_memory_allocator.Memlib.{mem_heapsize}
use dynamic_memory_allocator.FreeList.{rounds}
use dynamic_memory_allocator.FreeList.Chain.{Clear, Spread}
use dynamic_memory_allocator.FreeList.Segregated.{IsArena, Inside}

-- The list without the address `x`.
without : ℕ → List ℕ → List ℕ
without x [] = []
without x (a ∷ xs) = if a == x then without x xs else a ∷ without x xs

module _ (x : ℕ) where
  All-without {ℓ} : (P : ℕ → Type ℓ) (xs : List ℕ) → All P xs → All P (without x xs)
  unfolding without
  All-without P [] h = tt
  All-without P (a ∷ xs) h = elim (Bool-cases (a == x)) [
    | inl e ↦ rw e (All-without P xs h.1)
    | inr e ↦ rw e (h.0, All-without P xs h.1)
  ]

  Spread-without : (xs : List ℕ) → Spread xs → Spread (without x xs)
  unfolding without
  Spread-without [] h = tt
  Spread-without (a ∷ xs) h = elim (Bool-cases (a == x)) [
    | inl e ↦ rw e (Spread-without xs h.1)
    | inr e ↦ rw e (All-without (Clear a) xs h.0, Spread-without xs h.1)
  ]

  length-without-Clear : (xs : List ℕ) → All (Clear x) xs → length (without x xs) ≡ length xs
  unfolding without
  length-without-Clear [] h = refl
  length-without-Clear (a ∷ xs) h = ground (arith, length-without-Clear xs)

  length-without : (xs : List ℕ) → Spread xs → length xs ≤ length (without x xs) + 1
  unfolding without
  length-without [] h = omega arith
  length-without (a ∷ xs) h = elim (Bool-cases (a == x)) [
    | inl e ↦
        rw e (
          let same : a ≡ x = ground arith in
          omega (arith, length-without-Clear xs (rw same at h.0)))
    | inr e ↦ rw e (omega (arith, length-without xs h.1))
  ]

  below_last :
      (lo : ℕ) (xs : List ℕ)
      → All (λ a. (lo ≤ a) × (a < suc x)) xs
      → All (λ a. (lo ≤ a) × (a < x)) (without x xs)
  unfolding without
  below_last lo [] h = tt
  below_last lo (a ∷ xs) h = elim (Bool-cases (a == x)) [
    | inl e ↦ rw e (below_last lo xs h.1)
    | inr e ↦ rw e ((h.0.0, ground arith), below_last lo xs h.1)
  ]

length-le_range :
    (lo n : ℕ) (xs : List ℕ) → Spread xs → All (λ a. (lo ≤ a) × (a < lo + n)) xs → length xs ≤ n
length-le_range lo zero [] s h = omega arith
length-le_range lo zero (a ∷ xs) s h = absurd (omega arith)
length-le_range lo (suc n) xs s h = omega (
  arith,
  length-without (lo + n) xs s,
  length-le_range lo n (without (lo + n) xs) (Spread-without (lo + n) xs s)
      (below_last (lo + n) lo xs (All-map _ _ xs (λ a r. omega arith) h)),
)

-- The rounds that a walk is given, and that they exceed the length of a list of blocks.
pub rounds-heapsize :
    (s : State) → IsArena s → s.heap ≤ s.mem_brk → rounds s ≡ done (suc (s.mem_brk - s.heap)) s
unfolding rounds mem_heapsize
rounds-heapsize s arena ordered =
    let size : (s.mem_brk + 2 ^ 64 - s.heap) % 2 ^ 64 ≡ s.mem_brk - s.heap = omega arith in rw size

pub length-lt-rounds :
    (s : State) (xs : List ℕ) → Spread xs → All (Inside s) xs → length xs < suc (s.mem_brk - s.heap)
length-lt-rounds s xs spread inside = omega (
  arith,
  length-le_range s.heap (s.mem_brk - s.heap) xs spread
      (All-map _ _ xs (λ a r. omega arith) inside),
)
