-- ===== src/Heap/Fill/Marked.antt =====
-- Setting the flags of what stands behind the gap.
use mathlib.Core.Path.{subst}
use mathlib.Core.Bool.{true≢false}
use dynamic_memory_allocator.Base.{
  ℕ, ◌+◌, ◌≤◌, ◌⊎◌, ◌∙◌, refl, sym, ap, Bool, true, List, arith, inl, inr,
}
use dynamic_memory_allocator.Machine.{State}
use dynamic_memory_allocator.Machine.Ends.{Ends, Ends-mono}
use dynamic_memory_allocator.Memlib.Word.{}
use dynamic_memory_allocator.Block.{write_pack}
use dynamic_memory_allocator.Block.Header.{}
use dynamic_memory_allocator.FreeList.{}
use dynamic_memory_allocator.FreeList.Chain.{}
use dynamic_memory_allocator.FreeList.Segregated.{}
use dynamic_memory_allocator.FreeList.Listed.{IsListed-same}
use dynamic_memory_allocator.FreeList.Listed.Insert.{}
use dynamic_memory_allocator.Heap.{Piece}
use dynamic_memory_allocator.Heap.Packed.{IsPacked, write_pack-IsPacked}
use dynamic_memory_allocator.Heap.Tiles.{Tiles-same, SameFrom}
use dynamic_memory_allocator.Heap.Walk.{head_size}
use dynamic_memory_allocator.Heap.Free.{FreeIn-bounds}
use dynamic_memory_allocator.Heap.Used.{IsKept, Used-bounds}
use dynamic_memory_allocator.Heap.Open.{
  Around, IsOpen, IsOpen-IsBounded, IsOpen-next, Around-bounds, FreeIn-behind, Tail-reflag,
}
use dynamic_memory_allocator.Heap.Fill.Gap.{IsFlanked}

module _ (s : State) (xs : List Piece) (a e : ℕ) (pa pm : Bool) (ys : List Piece)
    (h : IsOpen s xs a e pa pm ys) (flanked : IsFlanked xs ys) where
  -- The flags of the piece behind the gap, or of the epilogue.
  pub record IsMarked (pa' pm' : Bool) (t : State) : Type 0 where
    pub opened : IsOpen t xs a e pa' pm' ys
    pub same : SameFrom s.bytes t.bytes a e
    pub kept : IsKept s xs e ys t

  mark_opened :
      (pa' pm' : Bool) (t : State)
      → IsPacked s e (head_size ys) true pa' pm' t
      → IsOpen t xs a e pa' pm' ys
  mark_opened pa' pm' t is =
      let bounds = IsOpen-IsBounded s xs a e pa pm ys h in
      let lower = bounds.lower in
      let upper = bounds.upper in
      let gap = h.gap in
      let same = λ (x : ℕ) (far : (x + 8 ≤ e) ⊎ (e + 8 ≤ x)).
        is.same x (omega arith) (λ free large. absurd (true≢false free)) in
      let clear = λ (b n : ℕ) (f : Around (s.heap + 8) xs e ys b n).
        (elim f as (λ _. (b + n ≤ a) ⊎ (e + 16 ≤ b)) [
          | inl g ↦ inl ((FreeIn-bounds _ _ _ _ xs _ b n h.left g).2)
          | inr g ↦ inr (FreeIn-behind _ _ _ _ ys _ b n h.right.0 flanked.right_used g)
        ]) in
      subst (λ u. IsOpen u xs a e pa' pm' ys) (sym is.state)
        (record {
          framed = record {
            some_heap = h.framed.some_heap;
            small = h.framed.small;
            room = h.framed.room;
            aligned = h.framed.aligned;
            start = h.framed.start;
            prologue = same s.heap (inl (omega arith)) ∙ h.framed.prologue;
          };
          left =
              Tiles-same s.bytes t.bytes _ _ _ xs a (λ x from to. same x (inl (omega arith)))
                h.left;
          right =
              Tail-reflag s.bytes t.bytes e pa pm pa' pm' ys _ h.right flanked.right_used is.header
                (λ x from. same x (inr from));
          gap = h.gap;
          multiple = h.multiple;
          ordered_left = h.ordered_left;
          ordered_right = h.ordered_right;
          listed =
              IsListed-same s _ _ refl
                (λ b n f.
                  let size = (Around-bounds s xs a e pa pm ys h b n f).0.1 in
                  let off = clear b n f in same b (omega arith))
                (λ b n f.
                  let size = (Around-bounds s xs a e pa pm ys h b n f).0.1 in
                  let off = clear b n f in same (b + 8) (omega arith))
                (λ b n f large.
                  let size = (Around-bounds s xs a e pa pm ys h b n f).0 in
                  let off = clear b n f in same (b + 16) (omega arith))
                h.listed;
        })

  pub IsPacked-IsMarked :
      (pa' pm' : Bool) (t : State) → IsPacked s e (head_size ys) true pa' pm' t → IsMarked pa' pm' t
  IsPacked-IsMarked pa' pm' t is = record {
    opened = mark_opened pa' pm' t is;
    same = λ x from to. is.same x (omega arith) (λ free large. absurd (true≢false free));
    kept = record {
      base = ap State.heap is.state;
      brk = ap State.mem_brk is.state;
      limit = ap State.mem_max_addr is.state;
      payload = λ x used.
          let at_x = Used-bounds s xs a e pa pm ys h x used in
          is.same x (omega arith) (λ free large. absurd (true≢false free));
    };
  }

  pub write_pack-IsMarked :
      (pa' pm' : Bool) → Ends (λ _. IsMarked pa' pm') (write_pack e (head_size ys) true pa' pm' s)
  write_pack-IsMarked pa' pm' =
      let bounds = IsOpen-IsBounded s xs a e pa pm ys h in
      let lower = bounds.lower in
      let upper = bounds.upper in
      let small = bounds.small in
      let gap = h.gap in
      Ends-mono
        (write_pack-IsPacked s e (head_size ys) true pa' pm'
          (record {
            small = small;
            lower = omega arith;
            upper = omega arith;
            fits = (IsOpen-next s xs a e pa pm ys h).fits;
          })
          (λ free. absurd (true≢false free)))
        λ _ t is. IsPacked-IsMarked pa' pm' t is
