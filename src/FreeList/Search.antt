-- ===== src/FreeList/Search.antt =====
-- The search of one class for a block that is large enough.
use dynamic_memory_allocator.Base.{
  ℕ, zero, suc, ◌+◌, ◌≤◌, ◌<◌, ◌≡◌, ◌≢◌, ◌⊎◌, refl, inl, inr, List, [], ◌∷◌, All, In, length, arith,
  Bool, true, false, not, ◌&&◌, leb, ltb, ==_ne, Bool-cases,
}
use dynamic_memory_allocator.Machine.{State}
use dynamic_memory_allocator.Machine.Ends.{Ends, ends, Ends-mono}
use dynamic_memory_allocator.Memlib.Word.{word, load-word}
use dynamic_memory_allocator.Block.{
  null, next_offset, extract_size, extract_alloc, get_size, get_alloc,
}
use dynamic_memory_allocator.FreeList.{search_class, after_fit}
use dynamic_memory_allocator.FreeList.Chain.{Chain}
use dynamic_memory_allocator.FreeList.Segregated.{Inside}

abbrev pub size_at : State → ℕ → ℕ
size_at s a = extract_size (word s.bytes a)

abbrev pub alloc_at : State → ℕ → Bool
alloc_at s a = extract_alloc (word s.bytes a)

-- A free block of at least `asize` bytes.
abbrev pub Fits : State → ℕ → ℕ → Type 0
Fits s asize a = (alloc_at s a ≡ false) × (asize ≤ size_at s a)

-- What a search over `xs` that began with `best` answers.
pub data IsAnswer (s : State) (asize best : ℕ) (xs : List ℕ) (r : ℕ) : Type 0 where
  nothing : r ≡ null → best ≡ null → All (λ a. ¬ Fits s asize a) xs → IsAnswer s asize best xs r
  found :
      r ≢ null
      → Fits s asize r
      → (best ≢ null → size_at s r ≤ size_at s best)
      → (r ≡ best) ⊎ In r xs
      → IsAnswer s asize best xs r

module _ (s : State) (asize : ℕ) where
  -- A best block so far.
  abbrev IsBest : ℕ → Type 0
  IsBest best = (best ≡ null) ⊎ ((best ≢ null) × Inside s best × Fits s asize best)

  -- A block that does not fit changes nothing.
  IsAnswer-skip :
      (best a : ℕ) (xs : List ℕ) (r : ℕ)
      → ¬ Fits s asize a
      → IsAnswer s asize best xs r
      → IsAnswer s asize best (a ∷ xs) r
  IsAnswer-skip best a xs r no_fit (nothing e b none_fit) = nothing e b (no_fit, none_fit)
  IsAnswer-skip best a xs r no_fit (found ne fits small (inl e)) = found ne fits small (inl e)
  IsAnswer-skip best a xs r no_fit (found ne fits small (inr m)) = found ne fits small (inr (inr m))

  -- A block that becomes the best.
  IsAnswer-take :
      (best a : ℕ) (xs : List ℕ) (r : ℕ)
      → a ≢ null
      → (best ≢ null → size_at s a ≤ size_at s best)
      → IsAnswer s asize a xs r
      → IsAnswer s asize best (a ∷ xs) r
  IsAnswer-take best a xs r ne better (nothing e b none_fit) = absurd (ne b)
  IsAnswer-take best a xs r ne better (found ne' fits small (inl e)) =
      found ne' fits (λ b. omega (arith, small ne, better b)) (inr (inl e))
  IsAnswer-take best a xs r ne better (found ne' fits small (inr m)) =
      found ne' fits (λ b. omega (arith, small ne, better b)) (inr (inr m))

  IsAnswer-stop : (best : ℕ) → IsBest best → IsAnswer s asize best [] best
  IsAnswer-stop best (inl e) = nothing e e tt
  IsAnswer-stop best (inr (ne, inside, fits)) = found ne fits (λ _. omega arith) (inl refl)

  -- The search ends early at a block that fits and is no smaller than the best.
  IsAnswer-early :
      (best : ℕ) (xs : List ℕ) → best ≢ null → Fits s asize best → IsAnswer s asize best xs best
  IsAnswer-early best xs ne fits = found ne fits (λ _. omega arith) (inl refl)

  -- The test of the source.
  abbrev fits_test : ℕ → Bool
  fits_test a = not (alloc_at s a) && leb asize (size_at s a)

  Fits-of_test : (a : ℕ) → fits_test a ≡ true → Fits s asize a
  Fits-of_test a h = ground arith

  not-Fits_of_test : (a : ℕ) → fits_test a ≡ false → ¬ Fits s asize a
  not-Fits_of_test a h fits = ground arith

  abbrev Answers : ℕ → List ℕ → ℕ → State → Type 0
  Answers best xs r t = (t ≡ s) × IsAnswer s asize best xs r

  -- What follows a block `a` that fits.
  at_fit :
      (k best a : ℕ) (xs : List ℕ)
      → IsBest best
      → a ≢ null
      → Inside s a
      → Fits s asize a
      → ((best' : ℕ)
          → IsBest best'
          → Ends (Answers best' xs) (search_class k asize best' (word s.bytes (a + next_offset)) s))
      → Ends (Answers best (a ∷ xs)) (after_fit (search_class k asize) best a (size_at s a) s)
  unfolding after_fit get_size
  at_fit k best a xs (inl none) ne inside fits go =
      rw (none, load-word s (a + next_offset) (omega arith))
        (Ends-mono (go a (inr (ne, inside, fits)))
          λ r t (same, answer). (same, IsAnswer-take null a xs r ne (λ e. absurd (e refl)) answer))
  at_fit k best a xs (inr (some_best, best_inside, best_fits)) ne inside fits go =
      rw (==_ne best null some_best, load-word s best (omega arith))
        (elim (Bool-cases (ltb (size_at s a) (size_at s best))) [
          | inl less ↦
              rw (less, load-word s (a + next_offset) (omega arith))
                (Ends-mono (go a (inr (ne, inside, fits))) λ r t (same, answer).
                  (same, IsAnswer-take best a xs r ne (λ _. ground arith) answer))
          | inr no_less ↦ rw no_less (ends (refl, IsAnswer-early best (a ∷ xs) some_best best_fits))
        ])

  pub search_class-IsAnswer :
      (k best h : ℕ) (xs : List ℕ)
      → length xs < k
      → IsBest best
      → Chain next_offset s.bytes h xs
      → All (Inside s) xs
      → Ends (Answers best xs) (search_class k asize best h s)
  unfolding search_class get_size get_alloc
  search_class-IsAnswer zero best h xs enough b c inside = absurd (omega arith)
  search_class-IsAnswer (suc k) best h [] enough b c inside =
      rw c (ends (refl, IsAnswer-stop best b))
  search_class-IsAnswer (suc k) best h (a ∷ xs) enough b c inside =
      let go = λ (best' : ℕ) (b' : IsBest best').
        search_class-IsAnswer k best' (word s.bytes (a + next_offset)) xs (omega arith) b' c.2
          inside.1 in
      rw (c.0, ==_ne a null c.1, load-word s a (omega arith), load-word s a (omega arith))
        (elim (Bool-cases (fits_test a)) [
          | inr no_fit ↦
              rw (no_fit, load-word s (a + next_offset) (omega arith))
                (Ends-mono (go best b) λ r t (same, answer).
                  (same, IsAnswer-skip best a xs r (not-Fits_of_test a no_fit) answer))
          | inl fit ↦ rw fit (at_fit k best a xs b c.1 inside.0 (Fits-of_test a fit) go)
        ])
