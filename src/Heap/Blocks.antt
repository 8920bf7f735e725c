-- ===== src/Heap/Blocks.antt =====
-- The blocks in use of a heap, by address and size.
use dynamic_memory_allocator.Base.{
  ℕ, ◌+◌, ◌≤◌, ◌≡◌, ◌≢◌, ◌⊎◌, ◌∙◌, refl, sym, ap, Bool, true, false, List, [], ◌∷◌, ◌++◌, arith,
  inl, inr,
}
use dynamic_memory_allocator.Machine.{Bytes}
use dynamic_memory_allocator.Heap.{Piece, Tiles}
use dynamic_memory_allocator.Heap.Tiles.{extent, Tiles-end}
use dynamic_memory_allocator.Heap.Used.{InUse}

-- The blocks in use of the run that starts at `a`, by address and size.
abbrev pub UsedIn : ℕ → List Piece → ℕ → ℕ → Type 0
UsedIn a [] b k = ⊥
UsedIn a (p ∷ ps) b k = ((b ≡ a) × (k ≡ p.size) × (p.alloc ≡ true)) ⊎ UsedIn (a + p.size) ps b k

pub UsedIn-append :
    (a : ℕ) (ps qs : List Piece) (b k : ℕ)
    → UsedIn a (ps ++ qs) b k
    → UsedIn a ps b k ⊎ UsedIn (a + extent ps) qs b k
UsedIn-append a [] qs b k u = let same : a ≡ a + 0 = omega arith in inr (rw (← same) u)
UsedIn-append a (p ∷ ps) qs b k (inl u) = inl (inl u)
UsedIn-append a (p ∷ ps) qs b k (inr u) = elim (UsedIn-append (a + p.size) ps qs b k u) [
  | inl v ↦ inl (inr v)
  | inr v ↦
      let same : a + p.size + extent ps ≡ a + (p.size + extent ps) = omega arith in
      inr (rw same at v)
]

pub UsedIn-append_of :
    (a : ℕ) (ps qs : List Piece) (b k : ℕ)
    → UsedIn a ps b k ⊎ UsedIn (a + extent ps) qs b k
    → UsedIn a (ps ++ qs) b k
UsedIn-append_of a [] qs b k (inl u) = elim u [ ]
UsedIn-append_of a [] qs b k (inr u) = let same : a + 0 ≡ a = omega arith in rw same at u
UsedIn-append_of a (p ∷ ps) qs b k (inl (inl u)) = inl u
UsedIn-append_of a (p ∷ ps) qs b k (inl (inr u)) =
    inr (UsedIn-append_of (a + p.size) ps qs b k (inl u))
UsedIn-append_of a (p ∷ ps) qs b k (inr u) =
    let same : a + (p.size + extent ps) ≡ a + p.size + extent ps = omega arith in
    inr (UsedIn-append_of (a + p.size) ps qs b k (inr (rw same at u)))

-- A block in use stands behind some pieces and before others.
pub UsedIn-split :
    (a : ℕ) (ps : List Piece) (b k : ℕ)
    → UsedIn a ps b k
    → (xs : List Piece) × (ys : List Piece) × (ps ≡ xs ++ record { size = k; alloc = true } ∷ ys)
      × (b ≡ a + extent xs)
UsedIn-split a [] b k u = elim u [ ]
UsedIn-split a (p ∷ ps) b k (inl (at, size, used)) = ([], ps, rw (size, ← used) refl, omega arith)
UsedIn-split a (p ∷ ps) b k (inr u) =
    let (xs, ys, e, at) = UsedIn-split (a + p.size) ps b k u in
    (p ∷ xs, ys, ap (λ l. p ∷ l) e, omega arith)

-- Two places in the heap of blocks in use.
abbrev pub AroundUsed : ℕ → List Piece → ℕ → List Piece → ℕ → ℕ → Type 0
AroundUsed heap xs e ys b k = UsedIn (heap + 8) xs b k ⊎ UsedIn e ys b k

-- The payload of a block in use.
pub InUse-of_UsedIn :
    (a : ℕ) (ps : List Piece) (b k x : ℕ)
    → UsedIn a ps b k
    → b + 8 ≤ x
    → x + 8 ≤ b + k
    → InUse a ps x
InUse-of_UsedIn a [] b k x u lower upper = elim u [ ]
InUse-of_UsedIn a (p ∷ ps) b k x (inl (at, size, used)) lower upper =
    inl (used, omega arith, omega arith)
InUse-of_UsedIn a (p ∷ ps) b k x (inr u) lower upper =
    inr (InUse-of_UsedIn (a + p.size) ps b k x u lower upper)

-- What is on both sides of a free piece is all that is in use.
pub UsedIn-around :
    (a : ℕ) (xs : List Piece) (p : Piece) (ys : List Piece) (b k : ℕ)
    → p.alloc ≡ false
    → UsedIn a (xs ++ p ∷ ys) b k
    → UsedIn a xs b k ⊎ UsedIn (a + extent xs + p.size) ys b k
UsedIn-around a xs p ys b k free u = elim (UsedIn-append a xs (p ∷ ys) b k u) [
  | inl v ↦ inl v
  | inr (inl v) ↦ let used : p.alloc ≡ true = v.2 in cc
  | inr (inr v) ↦ inr v
]

-- Where the blocks in use of a run lie.
pub UsedIn-bounds :
    (m : Bytes) (a : ℕ) (pa pm : Bool) (ps : List Piece) (e b k : ℕ)
    → Tiles m a pa pm ps e
    → UsedIn a ps b k
    → (16 ≤ k) × (a ≤ b) × (b + k ≤ e)
UsedIn-bounds m a pa pm [] e b k h u = elim u [ ]
UsedIn-bounds m a pa pm (p ∷ ps) e b k h (inl u) =
    let end = Tiles-end m (a + p.size) _ _ ps e h.1 in
    let least = h.0.least in (omega arith, omega arith, omega arith)
UsedIn-bounds m a pa pm (p ∷ ps) e b k h (inr u) =
    let rest = UsedIn-bounds m (a + p.size) _ _ ps e b k h.1 u in (rest.0, omega arith, rest.2)

-- Two of them are the same or lie apart.
pub UsedIn-apart :
    (m : Bytes) (a : ℕ) (pa pm : Bool) (ps : List Piece) (e b k c i : ℕ)
    → Tiles m a pa pm ps e
    → UsedIn a ps b k
    → UsedIn a ps c i
    → b ≢ c
    → (b + k ≤ c) ⊎ (c + i ≤ b)
UsedIn-apart m a pa pm [] e b k c i h u v ne = elim u [ ]
UsedIn-apart m a pa pm (p ∷ ps) e b k c i h (inl u) (inl v) ne = absurd (ne (u.0 ∙ sym (v.0)))
UsedIn-apart m a pa pm (p ∷ ps) e b k c i h (inl u) (inr v) ne =
    let rest = UsedIn-bounds m (a + p.size) _ _ ps e c i h.1 v in inl (omega arith)
UsedIn-apart m a pa pm (p ∷ ps) e b k c i h (inr u) (inl v) ne =
    let rest = UsedIn-bounds m (a + p.size) _ _ ps e b k h.1 u in inr (omega arith)
UsedIn-apart m a pa pm (p ∷ ps) e b k c i h (inr u) (inr v) ne =
    UsedIn-apart m (a + p.size) _ _ ps e b k c i h.1 u v ne
