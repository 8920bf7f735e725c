-- ===== src/Heap/Find.antt =====
-- `find_fit` on a heap in order: it finds a free piece that is large enough.
use dynamic_memory_allocator.Base.{
  ℕ, ◌+◌, ◌≤◌, ◌≡◌, ◌≢◌, ◌⊎◌, ◌∙◌, refl, sym, ap, false, List, [], ◌∷◌, ◌++◌, arith, inl, inr,
  All-of_In, In,
}
use dynamic_memory_allocator.Machine.{State}
use dynamic_memory_allocator.Machine.Ends.{Ends, Ends-mono}
use dynamic_memory_allocator.Memlib.Word.{}
use dynamic_memory_allocator.Block.{null, min_block_size}
use dynamic_memory_allocator.FreeList.{find_class, find_fit}
use dynamic_memory_allocator.FreeList.Chain.{}
use dynamic_memory_allocator.FreeList.Mini.{IsMiniList}
use dynamic_memory_allocator.FreeList.Fit.{
  IsSegList, IsFitFor, mini_block, seg_block, no_block, find_fit-IsFitFor,
}
use dynamic_memory_allocator.FreeList.Listed.{}
use dynamic_memory_allocator.Heap.{Piece}
use dynamic_memory_allocator.Heap.Tiles.{extent}
use dynamic_memory_allocator.Heap.Walk.{address}
use dynamic_memory_allocator.Heap.Free.{FreeIn}
use dynamic_memory_allocator.Heap.Open.{IsReady}

-- A free piece of a run has pieces before it and behind it.
pub FreeIn-split :
    (a : ℕ) (ps : List Piece) (b k : ℕ)
    → FreeIn a ps b k
    → (xs : List Piece) × (p : Piece) × (ys : List Piece) × (ps ≡ xs ++ p ∷ ys)
      × (b ≡ a + extent xs)
      × (p.size ≡ k)
      × (p.alloc ≡ false)
FreeIn-split a [] b k f = elim f [ ]
FreeIn-split a (p ∷ ps) b k (inl f) = ([], p, ps, refl, omega (arith, f.0), sym (f.1), f.2)
FreeIn-split a (p ∷ ps) b k (inr f) =
    let (xs, q, ys, e, at, size, free) = FreeIn-split (a + p.size) ps b k f in
    (p ∷ xs, q, ys, ap (λ l. p ∷ l) e, omega arith, size, free)

module _ (s : State) (ps : List Piece) (h : IsReady s ps) where
  classes_listed : IsSegList s h.listed.seg
  classes_listed = record {
    lists = λ i below. h.listed.seg_lists i;
    classes = λ i below. All-of_In _ (h.listed.seg i) λ a i'.
        let (n, f, large, class) = h.listed.seg_in i a i' in
        ap find_class (h.listed.sizes a n f) ∙ class;
  }

  first_mini : (r : ℕ) (xs : List ℕ) → IsMiniList s r xs → r ≢ null → In r xs
  first_mini r [] list ne = absurd (ne list.chain)
  first_mini r (x ∷ xs) list ne = inl (list.chain.0)

  -- A free piece of at least `n` bytes at `r`.
  pub record IsFound (n r : ℕ) : Type 0 where
    pub xs : List Piece
    pub piece : Piece
    pub ys : List Piece
    pub split : ps ≡ xs ++ piece ∷ ys
    pub here : r ≡ address s xs
    pub enough : n ≤ piece.size
    pub free : piece.alloc ≡ false

  IsFound-in : (n r k : ℕ) → FreeIn (s.heap + 8) ps r k → n ≤ k → IsFound n r
  IsFound-in n r k f enough =
      let (xs, p, ys, e, at, size, free) = FreeIn-split (s.heap + 8) ps r k f in
      record {
        xs = xs;
        piece = p;
        ys = ys;
        split = e;
        here = at;
        enough = omega arith;
        free = free;
      }

  fit-IsFound : (n r : ℕ) → IsFitFor s h.listed.seg n r → (r ≡ null) ⊎ IsFound n r
  fit-IsFound n r (mini_block size ne first) =
      let listed : In r h.listed.minis = first_mini r h.listed.minis (rw first h.listed.mini) ne in
      inr (IsFound-in n r min_block_size (h.listed.mini_in r listed) (omega arith))
  fit-IsFound n r (seg_block j no_mini ne fits among below smaller) =
      let (k, f, large, class) = h.listed.seg_in j r among in
      let size = h.listed.sizes r k f in
      let enough = fits.1 in inr (IsFound-in n r k f (omega arith))
  fit-IsFound n r (no_block no_mini none others) = inl none

  -- `find_fit` changes nothing, and gives `NULL` or the address of a free piece that is large enough.
  pub find_fit-IsFound : (n : ℕ) → Ends (λ r t. (t ≡ s) × ((r ≡ null) ⊎ IsFound n r)) (find_fit n s)
  find_fit-IsFound n =
      let room = h.heap.room in
      Ends-mono
        (find_fit-IsFitFor s h.listed.seg n (h.heap.some_heap, h.heap.small) (omega arith)
          classes_listed)
        λ r t (same, is). (same, fit-IsFound n r is)
