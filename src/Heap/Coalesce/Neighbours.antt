-- ===== src/Heap/Coalesce/Neighbours.antt =====
-- The cases of `coalesce_block` with a free neighbour: `coalesce_next`, `coalesce_prev` and
-- `coalesce_both`.
use mathlib.Core.Path.{subst}
use mathlib.Core.List.{}
use dynamic_memory_allocator.Base.{
  ℕ, ◌+◌, ◌-◌, ◌≡◌, ◌∙◌, refl, Bool, true, false, List, [], ◌∷◌, ◌++◌, arith, add64,
}
use dynamic_memory_allocator.Machine.{State}
use dynamic_memory_allocator.Machine.Ends.{Ends, Ends-mono, Ends-continue}
use dynamic_memory_allocator.Memlib.Word.{}
use dynamic_memory_allocator.Block.{}
use dynamic_memory_allocator.FreeList.{}
use dynamic_memory_allocator.Allocator.{coalesce_prev, coalesce_next, coalesce_both}
use dynamic_memory_allocator.Heap.{Piece, last_alloc, last_mini, Coalesced}
use dynamic_memory_allocator.Heap.Fields.{
  HasHeader, get_size-HasHeader, get_prev_alloc-HasHeader, get_prev_mini-HasHeader,
}
use dynamic_memory_allocator.Heap.Tiles.{extent, Tiles-split}
use dynamic_memory_allocator.Heap.Walk.{head_size, head_alloc}
use dynamic_memory_allocator.Heap.Used.{IsKept, IsKept-trans, IsKept-before, IsKept-behind}
use dynamic_memory_allocator.Heap.Open.{
  IsOpen-IsBounded, IsReady, IsOff-gap, Coalesced-last, Coalesced-head,
}
use dynamic_memory_allocator.Heap.Take.{remove_free-before, remove_free-behind}
use dynamic_memory_allocator.Heap.Fill.{IsFlanked, filler}
use dynamic_memory_allocator.Heap.Coalesce.{IsPiece-HasHeader, IsFreed}
use dynamic_memory_allocator.Heap.Coalesce.Mark.{
  freed_header, fill_mark-IsReady, fill_mark_after-IsReady,
}

-- The next block is free.
module _ (s : State) (xs : List Piece) (a e : ℕ) (pa pm : Bool) (p : Piece) (ys : List Piece)
    (h : IsFreed s xs a e pa pm (p ∷ ys)) (free : p.alloc ≡ false) where
  pub coalesce_next-IsReady :
      last_alloc true xs ≡ true
      → Ends
          (λ r t. (r ≡ a) × IsReady t (xs ++ filler a (e + p.size) ∷ ys) × IsKept s xs e (p ∷ ys) t)
          (coalesce_next a e (e - a) p.size s)
  unfolding coalesce_next
  coalesce_next-IsReady used =
      let flanked : IsFlanked xs ys = record {
        left_used = used;
        right_used =
            (Coalesced-head ys (subst (λ b. Coalesced b ys) free h.opened.ordered_right.1)).0;
      } in
      let least = h.opened.right.0.0.least in
      let gap = h.opened.gap in
      Ends-continue (remove_free-behind s xs a e pa pm p ys h.opened free) λ _ t (is, piece, kept).
        let bounds = IsOpen-IsBounded t xs a (e + p.size) _ _ ys is.opened in
        let lower = bounds.lower in
        let upper = bounds.upper in
        let small = bounds.small in
        let total : add64 (e - a) p.size ≡ e + p.size - a = omega arith in
        let block : HasHeader t a (e - a) false true (last_mini false xs) =
          (let old = freed_header s xs a e pa pm (p ∷ ys) h in
            record {
              inside = omega arith;
              fits = old.fits;
              header =
                  is.relinked.same a
                    (IsOff-gap s xs a e pa pm (p ∷ ys) h.opened a (omega arith) (omega arith))
                  ∙ rw used at old.header;
            }) in
        let next = IsPiece-HasHeader t e _ _ p (omega arith) (omega arith) small piece in
        rw (get_prev_mini-HasHeader t a _ _ _ _ block, total)
          (Ends-mono
            (fill_mark_after-IsReady t xs a (e + p.size) _ _ ys is.opened flanked (omega arith) e
              p.size _ _ _ next (omega arith) least refl)
            λ r v (here, ready, rest). (
              here,
              ready,
              IsKept-trans s t v xs e (p ∷ ys) kept (IsKept-behind t v xs p e ys free rest),
            ))

-- The previous block is free.
module _ (s : State) (ws : List Piece) (p : Piece) (a e : ℕ) (pa pm : Bool) (ys : List Piece)
    (h : IsFreed s (ws ++ p ∷ []) a e pa pm ys) (free : p.alloc ≡ false) where
  abbrev prev : ℕ
  prev = s.heap + 8 + extent ws

  pub coalesce_prev-IsReady :
      head_alloc ys ≡ true
      → Ends
          (λ r t.
            (r ≡ prev) × IsReady t (ws ++ filler prev e ∷ ys) × IsKept s (ws ++ p ∷ []) e ys t)
          (coalesce_prev prev e (e - a) (head_size ys) s)
  unfolding coalesce_prev
  coalesce_prev-IsReady used =
      let flanked : IsFlanked ws ys = record {
        left_used = Coalesced-last true ws p h.opened.ordered_left free;
        right_used = used;
      } in
      Ends-continue (remove_free-before s ws p a e pa pm ys h.opened free) λ _ t (is, piece, kept).
        let bounds = IsOpen-IsBounded t ws prev e pa pm ys is.opened in
        let lower = bounds.lower in
        let upper = bounds.upper in
        let small = bounds.small in
        let to_a : prev + p.size ≡ a =
          (Tiles-split s.bytes (s.heap + 8) true false ws (p ∷ []) a h.opened.left).1.1 in
        let gap = h.opened.gap in
        let least = piece.least in
        let header : HasHeader t prev p.size p.alloc true (last_mini false ws) =
          rw flanked.left_used at
            (IsPiece-HasHeader t prev _ _ p (omega arith) (omega arith) small piece) in
        let total : add64 (e - a) p.size ≡ e - prev = omega arith in
        rw
          (
            get_size-HasHeader t prev _ _ _ _ header,
            get_prev_alloc-HasHeader t prev _ _ _ _ header,
            get_prev_mini-HasHeader t prev _ _ _ _ header,
            total,
          )
          (Ends-mono (fill_mark-IsReady t ws prev e pa pm ys is.opened flanked (omega arith))
            λ r v (here, ready, rest).
              (here, ready, IsKept-trans s t v _ e ys kept (IsKept-before t v ws p e ys free rest)))

-- Both neighbours are free.
module _ (s : State) (ws : List Piece) (p : Piece) (a e : ℕ) (pa pm : Bool) (q : Piece)
    (ys : List Piece) (h : IsFreed s (ws ++ p ∷ []) a e pa pm (q ∷ ys)) (free : p.alloc ≡ false)
    (free' : q.alloc ≡ false) where
  abbrev first : ℕ
  first = s.heap + 8 + extent ws

  pub coalesce_both-IsReady :
      Ends
        (λ r t.
          (r ≡ first)
          × IsReady t (ws ++ filler first (e + q.size) ∷ ys)
          × IsKept s (ws ++ p ∷ []) e (q ∷ ys) t)
        (coalesce_both first e (e - a) s)
  unfolding coalesce_both
  coalesce_both-IsReady =
      let flanked : IsFlanked ws ys = record {
        left_used = Coalesced-last true ws p h.opened.ordered_left free;
        right_used =
            (Coalesced-head ys (subst (λ b. Coalesced b ys) free' h.opened.ordered_right.1)).0;
      } in
      let to_a : first + p.size ≡ a =
        (Tiles-split s.bytes (s.heap + 8) true false ws (p ∷ []) a h.opened.left).1.1 in
      let gap = h.opened.gap in
      let least' = h.opened.right.0.0.least in
      Ends-continue (remove_free-before s ws p a e pa pm (q ∷ ys) h.opened free)
        λ _ t (is, piece, kept).
          let least = piece.least in
          Ends-continue (remove_free-behind t ws first e pa pm q ys is.opened free')
            λ _ u (is', piece', kept').
              let bounds = IsOpen-IsBounded u ws first (e + q.size) _ _ ys is'.opened in
              let lower = bounds.lower in
              let upper = bounds.upper in
              let small = bounds.small in
              let aligned = piece.aligned in
              let header : HasHeader u first p.size p.alloc true (last_mini false ws) = (record {
                inside = omega arith;
                fits = omega arith;
                header =
                    is'.relinked.same first (
                      IsOff-gap t ws first e pa pm (q ∷ ys) is.opened first (omega arith)
                        (omega arith))
                    ∙ rw flanked.left_used at piece.header;
              }) in
              let next = IsPiece-HasHeader u e _ _ q (omega arith) (omega arith) small piece' in
              let total : add64 (add64 (e - a) p.size) q.size ≡ e + q.size - first = omega arith in
              rw
                (
                  get_size-HasHeader u first _ _ _ _ header,
                  get_size-HasHeader u e _ _ _ _ next,
                  get_prev_alloc-HasHeader u first _ _ _ _ header,
                  get_prev_mini-HasHeader u first _ _ _ _ header,
                  total,
                )
                (Ends-mono
                  (fill_mark_after-IsReady u ws first (e + q.size) _ _ ys is'.opened flanked
                    (omega arith) e q.size _ _ _ next (omega arith) least' refl)
                  λ r v (here, ready, rest). (
                    here,
                    ready,
                    IsKept-trans s t v _ e (q ∷ ys) kept (
                        IsKept-before t v ws p e (q ∷ ys) free (
                          IsKept-trans t u v _ e (q ∷ ys) kept'
                            (IsKept-behind u v ws q e ys free' rest))),
                  ))
