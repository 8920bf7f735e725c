-- ===== src/Heap/Place/Taken.antt =====
-- A block in use in the gap: its header, the flag of what stands behind it, and the heap around it.
use mathlib.Core.Path.{subst}
use dynamic_memory_allocator.Base.{
  ℕ, ◌+◌, ◌-◌, ◌≤◌, ◌≡◌, ◌∙◌, refl, sym, ap, Bool, true, false, List, [], ◌∷◌, ◌++◌, arith, ◌==◌,
  inl, inr,
}
use dynamic_memory_allocator.Machine.{State}
use dynamic_memory_allocator.Machine.Ends.{Ends, ends}
use dynamic_memory_allocator.Memlib.Word.{load-word, store-put, put, word-put_self, word-put-Apart}
use dynamic_memory_allocator.Block.{min_block_size, pack_all, write_prev_alloc}
use dynamic_memory_allocator.Block.Header.{pack_all-lt, pack_all-set_prev_alloc}
use dynamic_memory_allocator.FreeList.Listed.{IsListed-iff}
use dynamic_memory_allocator.Heap.{Piece, IsPiece, last_alloc, last_mini, Coalesced}
use dynamic_memory_allocator.Heap.Packed.{IsPacked}
use dynamic_memory_allocator.Heap.Fields.{HasHeader, get_alloc-HasHeader, is_mini_block-HasHeader}
use dynamic_memory_allocator.Heap.Tiles.{extent, Tiles-end, Tiles-append}
use dynamic_memory_allocator.Heap.Walk.{}
use dynamic_memory_allocator.Heap.Free.{FreeIn, FreeIn-append, FreeIn-append_of}
use dynamic_memory_allocator.Heap.Open.{Tail, Around, IsOpen, IsReady, IsHeap-close, Coalesced-join}
use dynamic_memory_allocator.Heap.Fill.{}

-- Telling a block in use that the block before it is in use writes its header.
pub write_prev_alloc-IsPacked :
    (s : State) (a size : ℕ) (pa pm : Bool)
    → HasHeader s a size true pa pm
    → Ends (λ _. IsPacked s a size true true pm) (write_prev_alloc a true s)
unfolding write_prev_alloc
write_prev_alloc-IsPacked s a size pa pm h =
    let fits = h.fits in
    let inside = h.inside in
    let new = put s a (pack_all size true true pm) in
    let written : HasHeader new a size true true pm = record {
      inside = inside;
      fits = fits;
      header = word-put_self s.bytes a _ (pack_all-lt size true true pm fits);
    } in
    rw
      (
        load-word s a inside,
        h.header,
        pack_all-set_prev_alloc size true pa pm fits.0,
        store-put s a (pack_all size true true pm) inside,
        get_alloc-HasHeader new a size true true pm written,
        is_mini_block-HasHeader new a size true true pm written,
      )
      (ends (record {
        state = refl;
        header = written.header;
        footer = λ free large. let no : true ≡ false = free in cc;
        same = λ x off far. word-put-Apart s.bytes a _ x off;
      }))

-- A free piece of the parts of a heap around a block in use is one of the whole, and conversely.
module _ (heap : ℕ) (xs : List Piece) (p : Piece) (ys : List Piece) (used : p.alloc ≡ true) where
  pub around_used :
      (b n : ℕ) → FreeIn heap (xs ++ p ∷ ys) b n → Around heap xs (heap + extent xs + p.size) ys b n
  around_used b n f = elim (FreeIn-append heap xs (p ∷ ys) b n f) [
    | inl g ↦ inl g
    | inr (inl here) ↦ let free : p.alloc ≡ false = here.2 in cc
    | inr (inr g) ↦ inr g
  ]

  pub around_used_of :
      (b n : ℕ) → Around heap xs (heap + extent xs + p.size) ys b n → FreeIn heap (xs ++ p ∷ ys) b n
  around_used_of b n (inl f) = FreeIn-append_of heap xs (p ∷ ys) b n (inl f)
  around_used_of b n (inr f) = FreeIn-append_of heap xs (p ∷ ys) b n (inr (inr f))

module _ (s : State) (xs : List Piece) (a e : ℕ) (pa pm : Bool) (ys : List Piece)
    (h : IsOpen s xs a e pa pm ys) (p : Piece)
    (piece : IsPiece s.bytes a (last_alloc true xs) (last_mini false xs) p)
    (used : p.alloc ≡ true) where
  at_left : a ≡ s.heap + 8 + extent xs
  at_left = Tiles-end _ _ _ _ xs _ h.left

  -- The piece at the front of the gap joins the pieces before it.
  pub IsOpen-shrink : a + p.size + 16 ≤ e → IsOpen s (xs ++ p ∷ []) (a + p.size) e pa pm ys
  IsOpen-shrink room =
      let multiple = h.multiple in
      let aligned = piece.aligned in
      let least = piece.least in
      record {
        framed = h.framed;
        left = Tiles-append s.bytes (s.heap + 8) true false xs (p ∷ []) a _ h.left (piece, refl);
        right = h.right;
        gap = room;
        multiple = omega arith;
        ordered_left = Coalesced-join true xs (p ∷ []) h.ordered_left (inr used, tt);
        ordered_right = h.ordered_right;
        listed =
            IsListed-iff s _ _
              (λ b n f. elim f [
                | inl g ↦ inl (FreeIn-append_of (s.heap + 8) xs (p ∷ []) b n (inl g))
                | inr g ↦ inr g
              ])
              (λ b n f. elim f [
                | inl g ↦ elim (around_used (s.heap + 8) xs p [] used b n g) [
                  | inl k ↦ inl k
                  | inr k ↦ elim k [ ]
                ]
                | inr g ↦ inr g
              ])
              h.listed;
      }

  -- The piece fills the gap.
  pub IsOpen-close :
      a + p.size ≡ e → pa ≡ true → pm ≡ (p.size == min_block_size) → IsReady s (xs ++ p ∷ ys)
  IsOpen-close whole flag mini =
      let end : s.heap + 8 + extent xs + p.size ≡ e = ap (λ b. b + p.size) (sym at_left) ∙ whole in
      let right : Tail s.bytes e true (p.size == min_block_size) ys (s.mem_brk - 8) =
        rw (flag, mini) at h.right in
      record {
        heap = IsHeap-close s xs a p ys h.framed h.left piece (rw (whole, used) right);
        ordered =
            Coalesced-join true xs (p ∷ ys) h.ordered_left
              (inr used, subst (λ b. Coalesced b ys) (sym used) h.ordered_right);
        listed =
            IsListed-iff s _ _ (λ b n f. around_used_of (s.heap + 8) xs p ys used b n (rw end f))
              (λ b n f. rw end at (around_used (s.heap + 8) xs p ys used b n f)) h.listed;
      }
