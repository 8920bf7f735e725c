-- ===== src/Heap/Free.antt =====
-- The free pieces of a run, where they lie, and that links in them are no headers or footers.
use dynamic_memory_allocator.Base.{
  ℕ, ◌+◌, ◌-◌, ◌%◌, ◌≤◌, ◌≡◌, ◌≢◌, ◌⊎◌, ◌∙◌, sym, Bool, false, List, [], ◌∷◌, ◌++◌, arith, inl, inr,
}
use dynamic_memory_allocator.Machine.{Bytes}
use dynamic_memory_allocator.Machine.ReadWrite.{}
use dynamic_memory_allocator.Memlib.Word.{word}
use dynamic_memory_allocator.Block.{}
use dynamic_memory_allocator.FreeList.Listed.{Blocks, IsOff, link_size}
use dynamic_memory_allocator.Heap.{Piece, IsPiece, Tiles}
use dynamic_memory_allocator.Heap.Tiles.{extent, Tiles-end}

-- The free pieces of the run that starts at `a`, by address and size.
abbrev pub FreeIn : ℕ → List Piece → Blocks
FreeIn a [] b n = ⊥
FreeIn a (p ∷ ps) b n = ((b ≡ a) × (n ≡ p.size) × (p.alloc ≡ false)) ⊎ FreeIn (a + p.size) ps b n

abbrev pub IsSize : ℕ → Type 0
IsSize n = (n % 16 ≡ 0) × (16 ≤ n)

pub FreeIn-bounds :
    (m : Bytes) (a : ℕ) (pa pm : Bool) (ps : List Piece) (e b n : ℕ)
    → Tiles m a pa pm ps e
    → FreeIn a ps b n
    → IsSize n × (a ≤ b) × (b + n ≤ e)
FreeIn-bounds m a pa pm [] e b n h f = elim f [ ]
FreeIn-bounds m a pa pm (p ∷ ps) e b n h (inl f) =
    let end = Tiles-end m (a + p.size) _ _ ps e h.1 in
    let aligned = h.0.aligned in let least = h.0.least in (omega arith, omega arith, omega arith)
FreeIn-bounds m a pa pm (p ∷ ps) e b n h (inr f) =
    let rest = FreeIn-bounds m (a + p.size) _ _ ps e b n h.1 f in (rest.0, omega arith, rest.2)

pub FreeIn-append :
    (a : ℕ) (ps qs : List Piece) (b n : ℕ)
    → FreeIn a (ps ++ qs) b n
    → FreeIn a ps b n ⊎ FreeIn (a + extent ps) qs b n
FreeIn-append a [] qs b n f = let same : a ≡ a + 0 = omega arith in inr (rw (← same) f)
FreeIn-append a (p ∷ ps) qs b n (inl f) = inl (inl f)
FreeIn-append a (p ∷ ps) qs b n (inr f) = elim (FreeIn-append (a + p.size) ps qs b n f) [
  | inl g ↦ inl (inr g)
  | inr g ↦
      let same : a + p.size + extent ps ≡ a + (p.size + extent ps) = omega arith in
      inr (rw same at g)
]

pub FreeIn-append_of :
    (a : ℕ) (ps qs : List Piece) (b n : ℕ)
    → FreeIn a ps b n ⊎ FreeIn (a + extent ps) qs b n
    → FreeIn a (ps ++ qs) b n
FreeIn-append_of a [] qs b n (inl f) = elim f [ ]
FreeIn-append_of a [] qs b n (inr f) = let same : a + 0 ≡ a = omega arith in rw same at f
FreeIn-append_of a (p ∷ ps) qs b n (inl (inl f)) = inl f
FreeIn-append_of a (p ∷ ps) qs b n (inl (inr f)) =
    inr (FreeIn-append_of (a + p.size) ps qs b n (inl f))
FreeIn-append_of a (p ∷ ps) qs b n (inr f) =
    let same : a + (p.size + extent ps) ≡ a + p.size + extent ps = omega arith in
    inr (FreeIn-append_of (a + p.size) ps qs b n (inr (rw same at f)))

-- A block of the set lies before the run, behind it, or is a free piece of it.
abbrev pub Placed : ℕ → List Piece → ℕ → Blocks
Placed a ps e b n = IsSize n × (((b + n ≤ a) ⊎ (e ≤ b)) ⊎ FreeIn a ps b n)

pub link_room :
    (n : ℕ)
    → IsSize n
    → (link_size n ≤ 16) × (8 + link_size n ≤ n) × ((n ≢ 16) → 16 + link_size n ≤ n)
link_room n h = ground arith

module _ (m m' : Bytes) (F : Blocks) (same : (x : ℕ) → IsOff F x → word m' x ≡ word m x) where
  pub IsPiece-relinked :
      (a : ℕ) (pa pm : Bool) (p : Piece) (e : ℕ)
      → ((b n : ℕ)
          → F b n
          → IsSize n × (((b + n ≤ a) ⊎ (a + p.size ≤ b)) ⊎ ((b ≡ a) × (n ≡ p.size))))
      → IsPiece m a pa pm p
      → IsPiece m' a pa pm p
  IsPiece-relinked a pa pm p e placed h =
      let least = h.least in
      record {
        header =
            same a
              (λ b n f. let at_b = placed b n f in let room = link_room n at_b.0 in omega arith)
            ∙ h.header;
        footer = λ free large.
            same (a + p.size - 8) (λ b n f.
              let at_b = placed b n f in
              let room = link_room n at_b.0 in
              elim at_b.1 [
                | inl far ↦ omega arith
                | inr here ↦ let foot = room.2 (λ e. large (sym here.1 ∙ e)) in omega arith
              ])
            ∙ h.footer free large;
        aligned = h.aligned;
        least = h.least;
      }

  -- Links in blocks of the set are no headers or footers of the run.
  pub Tiles-relinked :
      (a : ℕ) (pa pm : Bool) (ps : List Piece) (e : ℕ)
      → ((b n : ℕ) → F b n → Placed a ps e b n)
      → Tiles m a pa pm ps e
      → Tiles m' a pa pm ps e
  Tiles-relinked a pa pm [] e placed h = h
  Tiles-relinked a pa pm (p ∷ ps) e placed h =
      let end = Tiles-end m (a + p.size) _ _ ps e h.1 in
      let least = h.0.least in
      (
        IsPiece-relinked a pa pm p e
            (λ b n f.
              let at_b = placed b n f in
              (
                at_b.0,
                elim at_b.1 [
                  | inl (inl before) ↦ inl (inl before)
                  | inl (inr behind) ↦ inl (inr (omega arith))
                  | inr (inl here) ↦ inr (here.0, here.1)
                  | inr (inr rest) ↦
                      inl (inr (FreeIn-bounds m (a + p.size) _ _ ps e b n h.1 rest).1)
                ],
              ))
            h.0,
        Tiles-relinked (a + p.size) _ _ ps e
            (λ b n f.
              let at_b = placed b n f in
              (
                at_b.0,
                elim at_b.1 [
                  | inl (inl before) ↦ inl (inl (omega arith))
                  | inl (inr behind) ↦ inl (inr behind)
                  | inr (inl here) ↦ inl (inl (omega arith))
                  | inr (inr rest) ↦ inr rest
                ],
              ))
            h.1,
      )
