-- ===== src/Heap/Release.antt =====
-- `free` on a block in use of a heap in order.
use mathlib.Core.Path.{subst}
use dynamic_memory_allocator.Base.{
  ℕ, ◌+◌, ◌-◌, ◌≡◌, ◌∙◌, refl, true, false, List, ◌∷◌, ◌++◌, arith, ◌==◌, ==_ne, sub64,
}
use dynamic_memory_allocator.Machine.{State, pure, ◌>>=◌, ◌>>◌}
use dynamic_memory_allocator.Machine.Ends.{Ends, ends, Ends-mono, Ends-continue}
use dynamic_memory_allocator.Memlib.Word.{}
use dynamic_memory_allocator.Block.{
  null, min_block_size, payload_to_header, write_pack, find_next, write_prev_alloc,
}
use dynamic_memory_allocator.Block.PrevAlloc.{write_prev_alloc_free}
use dynamic_memory_allocator.FreeList.Listed.{IsListed-iff}
use dynamic_memory_allocator.Allocator.{free, coalesce_block}
use dynamic_memory_allocator.Heap.{Piece, Tiles, last_alloc, last_mini, Coalesced}
use dynamic_memory_allocator.Heap.Fields.{
  get_size-HasHeader, get_prev_alloc-HasHeader, get_prev_mini-HasHeader, find_next-HasHeader,
}
use dynamic_memory_allocator.Heap.Tiles.{Tiles-split}
use dynamic_memory_allocator.Heap.Walk.{
  address, IsHeap-header, IsHeap-bounds, IsHeap-piece, last_alloc-append, last_mini-append,
}
use dynamic_memory_allocator.Heap.Free.{}
use dynamic_memory_allocator.Heap.Used.{IsKept}
use dynamic_memory_allocator.Heap.Open.{
  IsOpen, IsOpen-IsBounded, IsReady, Coalesced-prefix, Coalesced-suffix,
}
use dynamic_memory_allocator.Heap.Fill.{write_pack-IsFilled}
use dynamic_memory_allocator.Heap.Place.Taken.{around_used, around_used_of}
use dynamic_memory_allocator.Heap.Coalesce.{IsCoalesced, IsCoalesced-since, IsFreed}
use dynamic_memory_allocator.Heap.Coalesce.Mark.{freed_header}
use dynamic_memory_allocator.Heap.Coalesce.Whole.{coalesce_block-IsCoalesced}

-- A heap without the piece at `a` is open there.
module _ (s : State) (xs : List Piece) (p : Piece) (ys : List Piece) (h : IsReady s (xs ++ p ∷ ys))
    (used : p.alloc ≡ true) where
  pub IsReady-IsOpen :
      IsOpen s xs (address s xs) (address s xs + p.size) true (p.size == min_block_size) ys
  IsReady-IsOpen =
      let whole = h.heap in
      let parts = Tiles-split s.bytes (s.heap + 8) true false xs (p ∷ ys) _ whole.tiles in
      let least = parts.1.0.least in
      let aligned = parts.1.0.aligned in
      record {
        framed = record {
          some_heap = whole.some_heap;
          small = whole.small;
          room = whole.room;
          aligned = whole.aligned;
          start = whole.start;
          prologue = whole.prologue;
        };
        left = parts.0;
        right = (
          subst
              (λ b.
                Tiles s.bytes (address s xs + p.size) b (p.size == min_block_size) ys
                  (s.mem_brk - 8))
              used parts.1.1,
          whole.epilogue ∙ rw (last_alloc-append, last_mini-append, used) refl,
        );
        gap = omega arith;
        multiple = omega arith;
        ordered_left = Coalesced-prefix true xs (p ∷ ys) h.ordered;
        ordered_right =
            subst (λ b. Coalesced b ys) used (Coalesced-suffix true xs (p ∷ ys) h.ordered).1;
        listed =
            IsListed-iff s _ _ (around_used (s.heap + 8) xs p ys used)
              (around_used_of (s.heap + 8) xs p ys used) h.listed;
      }

  abbrev start : ℕ
  start = address s xs

  abbrev end : ℕ
  end = start + p.size

  -- Writing the block as a free one.
  release_header :
      Ends
        (λ _ t. IsFreed t xs start end true (p.size == min_block_size) ys × IsKept s xs end ys t)
        (write_pack start p.size false (last_alloc true xs) (last_mini false xs) s)
  release_header =
      let size : end - start ≡ p.size = omega arith in
      subst
        (λ n.
          Ends
            (λ _ t.
              IsFreed t xs start end true (p.size == min_block_size) ys × IsKept s xs end ys t)
            (write_pack start n false (last_alloc true xs) (last_mini false xs) s))
        size
        (Ends-mono
          (write_pack-IsFilled s xs start end true (p.size == min_block_size) ys IsReady-IsOpen
            false (last_alloc true xs))
          λ _ t is. (record { opened = is.opened; piece = is.piece }, is.kept))

  released :
      (t : State)
      → IsFreed t xs start end true (p.size == min_block_size) ys
      → IsKept s xs end ys t
      → Ends
          (λ _ u. (r : ℕ) × IsCoalesced s xs start end ys r u)
          ((do
            next ← find_next start
            write_prev_alloc next false
            coalesce_block start >>= λ _. pure tt)
            t)
  released t freed kept =
      let bounds = IsOpen-IsBounded t xs start end true _ ys freed.opened in
      let small = bounds.small in
      let upper = bounds.upper in
      let lower = bounds.lower in
      let before = bounds.before in
      let header = freed_header t xs start end true _ ys freed in
      let to_end : start + (end - start) ≡ end = omega arith in
      rw
        (
          find_next-HasHeader t start _ _ _ _ header (omega arith),
          to_end,
          write_prev_alloc_free t end (omega arith),
        )
        (Ends-continue (coalesce_block-IsCoalesced t start end true _ xs ys freed)
          λ r u is. ends (r, IsCoalesced-since s t u xs start end ys r kept is))

  -- `free` on the payload of a block in use ends, and leaves a heap in order, in which the block is
  -- free and joined with its free neighbours.
  pub free-IsCoalesced :
      Ends (λ _ t. (r : ℕ) × IsCoalesced s xs start end ys r t) (free (start + 8) s)
  unfolding free payload_to_header
  free-IsCoalesced =
      let header = IsHeap-header s xs (p ∷ ys) h.heap in
      let whole = IsHeap-bounds s xs (p ∷ ys) h.heap in
      let small = h.heap.small in
      let least = (IsHeap-piece s xs p ys h.heap).least in
      let back : sub64 (start + 8) 8 ≡ start = omega arith in
      rw
        (
          ==_ne (start + 8) null (omega arith),
          back,
          get_size-HasHeader s start _ _ _ _ header,
          get_prev_alloc-HasHeader s start _ _ _ _ header,
          get_prev_mini-HasHeader s start _ _ _ _ header,
        )
        (Ends-continue release_header λ _ t (freed, kept). released t freed kept)
