-- ===== src/Heap/Coalesce/Mark.antt =====
-- `coalesce_neither`, and the steps that end the other cases of `coalesce_block`: header, footer,
-- flags behind, list.
use mathlib.Core.Path.{}
use mathlib.Core.List.{}
use dynamic_memory_allocator.Base.{
  ℕ, ◌+◌, ◌-◌, ◌≤◌, ◌≡◌, ◌∙◌, refl, Bool, true, false, List, ◌∷◌, ◌++◌, arith, ◌==◌, ==_ne,
}
use dynamic_memory_allocator.Machine.{State, pure, ◌>>◌}
use dynamic_memory_allocator.Machine.Ends.{Ends, ends, Ends-continue}
use dynamic_memory_allocator.Memlib.Word.{}
use dynamic_memory_allocator.Block.{min_block_size, write_pack}
use dynamic_memory_allocator.FreeList.{insert_free}
use dynamic_memory_allocator.Allocator.{coalesce_neither, mark_after}
use dynamic_memory_allocator.Heap.{Piece, last_alloc, last_mini}
use dynamic_memory_allocator.Heap.Fields.{
  HasHeader, get_size-HasHeader, get_alloc-HasHeader, is_mini_block-HasHeader, find_next-HasHeader,
}
use dynamic_memory_allocator.Heap.Tiles.{IsPiece-same}
use dynamic_memory_allocator.Heap.Walk.{head_size}
use dynamic_memory_allocator.Heap.Used.{IsKept, IsKept-trans}
use dynamic_memory_allocator.Heap.Open.{IsOpen, IsOpen-IsBounded, IsOpen-next, IsReady}
use dynamic_memory_allocator.Heap.Take.{}
use dynamic_memory_allocator.Heap.Fill.{
  IsFlanked, filler, IsFilled, write_pack-IsFilled, IsMarked, write_pack-IsMarked, IsUnlisted,
  insert_free-IsReady,
}
use dynamic_memory_allocator.Heap.Coalesce.{IsPiece-HasHeader, IsFreed}

module _ (s : State) (xs : List Piece) (a e : ℕ) (pa pm : Bool) (ys : List Piece)
    (h : IsFreed s xs a e pa pm ys) where
  pub freed_header : HasHeader s a (e - a) false (last_alloc true xs) (last_mini false xs)
  freed_header =
      let bounds = IsOpen-IsBounded s xs a e pa pm ys h.opened in
      let lower = bounds.lower in
      let upper = bounds.upper in
      let gap = h.opened.gap in
      IsPiece-HasHeader s a _ _ (filler a e) (omega arith) (omega arith) bounds.small h.piece

  -- Both neighbours are in use.
  module _ (flanked : IsFlanked xs ys) where
    pub coalesce_neither-IsReady :
        Ends
          (λ r t. (r ≡ a) × IsReady t (xs ++ filler a e ∷ ys) × IsKept s xs e ys t)
          (coalesce_neither a e (head_size ys) s)
    unfolding coalesce_neither
    coalesce_neither-IsReady = rw (is_mini_block-HasHeader s a _ _ _ _ freed_header) (
        Ends-continue
          (write_pack-IsMarked s xs a e pa pm ys h.opened flanked false (e - a == min_block_size))
          λ _ t is.
            Ends-continue
              (insert_free-IsReady t xs a e ys flanked (record {
                opened = is.opened;
                piece =
                    let gap = h.opened.gap in
                    rw flanked.left_used at (
                      IsPiece-same s.bytes t.bytes a _ _ (filler a e) e (omega arith) is.same
                        h.piece);
              }))
              λ _ u (ready, kept). ends (refl, ready, IsKept-trans s t u xs e ys is.kept kept))

-- The gap becomes a free block of at least 32 bytes, flanked by blocks in use.
module _ (s : State) (xs : List Piece) (a e : ℕ) (pa pm : Bool) (ys : List Piece)
    (h : IsOpen s xs a e pa pm ys) (flanked : IsFlanked xs ys) (wide : a + 32 ≤ e) where
  IsUnlisted-wide :
      (u v : State) (filled : IsFilled s xs a e pa pm ys h false true u)
      → IsMarked u xs a e pa pm ys filled.opened flanked false false v
      → IsUnlisted v xs a e ys
  IsUnlisted-wide u v filled marked = record {
    opened = rw (==_ne (e - a) min_block_size (omega arith)) (marked.opened);
    piece =
        IsPiece-same u.bytes v.bytes a _ _ (filler a e) e (omega arith) marked.same filled.piece;
  }

  pub fill_mark-IsReady :
      Ends
        (λ r t. (r ≡ a) × IsReady t (xs ++ filler a e ∷ ys) × IsKept s xs e ys t)
        ((write_pack a (e - a) false true (last_mini false xs)
            >> (write_pack e (head_size ys) true false false >> (insert_free a >> pure a)))
          s)
  fill_mark-IsReady =
      Ends-continue (write_pack-IsFilled s xs a e pa pm ys h false true) λ _ u filled.
        Ends-continue (write_pack-IsMarked u xs a e pa pm ys filled.opened flanked false false)
          λ _ v marked.
            Ends-continue
              (insert_free-IsReady v xs a e ys flanked (IsUnlisted-wide u v filled marked))
              λ _ w (ready, kept). ends (
                refl,
                ready,
                IsKept-trans s u w xs e ys filled.kept
                    (IsKept-trans u v w xs e ys marked.kept kept),
              )

  -- The flags are set by way of the header at `n`, in the gap, of the block that ended it.
  pub fill_mark_after-IsReady :
      (n size : ℕ) (alloc pa' pm' : Bool)
      → HasHeader s n size alloc pa' pm'
      → a + 8 ≤ n
      → 16 ≤ size
      → n + size ≡ e
      → Ends
          (λ r t. (r ≡ a) × IsReady t (xs ++ filler a e ∷ ys) × IsKept s xs e ys t)
          ((write_pack a (e - a) false true (last_mini false xs)
              >> (mark_after n >> (insert_free a >> pure a)))
            s)
  unfolding mark_after
  fill_mark_after-IsReady n size alloc pa' pm' header behind least to_e =
      Ends-continue (write_pack-IsFilled s xs a e pa pm ys h false true) λ _ u filled.
        let bounds = IsOpen-IsBounded u xs a e pa pm ys filled.opened in
        let lower = bounds.lower in
        let upper = bounds.upper in
        let small = bounds.small in
        let still : HasHeader u n size alloc pa' pm' = record {
          inside = omega arith;
          fits = header.fits;
          header = filled.inner n behind (omega arith) ∙ header.header;
        } in
        let next = IsOpen-next u xs a e pa pm ys filled.opened in
        let used = flanked.right_used in
        rw
          (
            find_next-HasHeader u n size alloc pa' pm' still (omega arith),
            to_e,
            get_size-HasHeader u e _ _ _ _ next,
            get_alloc-HasHeader u e _ _ _ _ next,
            used,
          )
          (Ends-continue (write_pack-IsMarked u xs a e pa pm ys filled.opened flanked false false)
            λ _ v marked.
              Ends-continue
                (insert_free-IsReady v xs a e ys flanked (IsUnlisted-wide u v filled marked))
                λ _ w (ready, kept). ends (
                  refl,
                  ready,
                  IsKept-trans s u w xs e ys filled.kept
                      (IsKept-trans u v w xs e ys marked.kept kept),
                ))
