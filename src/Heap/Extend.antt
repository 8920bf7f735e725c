-- ===== src/Heap/Extend.antt =====
-- `extend_heap`: the memory that the break moves over becomes a free block, joined with a free block
-- before it.
use mathlib.Core.Path.{subst}
use dynamic_memory_allocator.Base.{
  ℕ, ◌+◌, ◌-◌, ◌%◌, ◌^◌, ◌≤◌, ◌<◌, ◌≡◌, ◌∙◌, refl, sym, ap, true, false, List, [], arith, ◌==◌, inl,
  inr, sub64,
}
use dynamic_memory_allocator.Machine.{State, Bytes}
use dynamic_memory_allocator.Machine.Ends.{Ends, Ends-mono, Ends-continue}
use dynamic_memory_allocator.Memlib.Word.{word, store-put, put, word-put_self, word-put-Apart}
use dynamic_memory_allocator.Block.{min_block_size, pack_all, payload_to_header, write_epilogue}
use dynamic_memory_allocator.Block.Header.{pack_all-lt}
use dynamic_memory_allocator.FreeList.Listed.{IsListed-iff, IsListed-longer}
use dynamic_memory_allocator.Allocator.{place_extension}
use dynamic_memory_allocator.Heap.{Piece, IsPiece, last_alloc, last_mini}
use dynamic_memory_allocator.Heap.Packed.{IsPacked, write_pack-IsPacked}
use dynamic_memory_allocator.Heap.Fields.{
  HasHeader, get_alloc-HasHeader, get_prev_alloc-HasHeader, get_prev_mini-HasHeader,
  is_mini_block-HasHeader, find_next-HasHeader,
}
use dynamic_memory_allocator.Heap.Tiles.{Tiles-same}
use dynamic_memory_allocator.Heap.Free.{FreeIn, FreeIn-bounds}
use dynamic_memory_allocator.Heap.Used.{InUse-bounds, IsKept}
use dynamic_memory_allocator.Heap.Open.{IsOpen, IsReady}
use dynamic_memory_allocator.Heap.Fill.{filler}
use dynamic_memory_allocator.Heap.Coalesce.{IsCoalesced, IsCoalesced-since, IsFreed}
use dynamic_memory_allocator.Heap.Coalesce.Whole.{coalesce_block-IsCoalesced}

-- The state once the break has moved by `n` bytes.
abbrev pub moved : State → (n chunk : ℕ) → State
moved s n chunk = record s { mem_brk = s.mem_brk + n; mem_brk_chunk = chunk }

abbrev with_bytes : Bytes → State → State
with_bytes m s = record s { bytes = m }

module _ (s : State) (ps : List Piece) (h : IsReady s ps) (n chunk : ℕ) (multiple : n % 16 ≡ 0)
    (least : 16 ≤ n) (small : s.mem_brk + n < 2 ^ 64) where
  abbrev before : State
  before = moved s n chunk

  abbrev block : ℕ
  block = s.mem_brk - 8

  abbrev end : ℕ
  end = block + n

  abbrev epilogue_word : ℕ
  epilogue_word = pack_all 0 true false (n == min_block_size)

  old_epilogue : HasHeader before block 0 true (last_alloc true ps) (last_mini false ps)
  old_epilogue =
      let room = h.heap.room in
      record { inside = omega arith; fits = omega arith; header = h.heap.epilogue }

  -- The words before the old epilogue stay.
  module _ (u : State)
      (is : IsPacked before block n false (last_alloc true ps) (last_mini false ps) u) where
    abbrev after : State
    after = put u end epilogue_word

    after_same : (x : ℕ) → x + 8 ≤ block → word after.bytes x ≡ word s.bytes x
    after_same x off =
        word-put-Apart u.bytes end _ x (omega arith)
        ∙ is.same x (omega arith) (λ free large. omega arith)

    state : u ≡ record before { bytes = u.bytes }
    state = is.state

    after_header : HasHeader u block n false (last_alloc true ps) (last_mini false ps)
    after_header =
        let room = h.heap.room in
        let base = ap State.heap state in
        let brk = ap State.mem_brk state in
        record { inside = omega arith; fits = omega arith; header = is.header }

    free_block :
        IsPiece after.bytes block (last_alloc true ps) (last_mini false ps) (filler block end)
    free_block =
        let size : end - block ≡ n = omega arith in
        let kept = λ (x : ℕ) (off : (block ≤ x) × (x + 8 ≤ end)).
          word-put-Apart u.bytes end epilogue_word x (omega arith) in
        record {
          header = rw size (kept block (omega arith) ∙ is.header);
          footer = λ free large.
              rw size (kept (block + n - 8) (omega arith) ∙ is.footer refl (λ e. large (size ∙ e)));
          aligned = omega arith;
          least = omega arith;
        }

    extended_opened : IsOpen after ps block end false (n == min_block_size) []
    extended_opened =
        let whole = h.heap in
        let room = whole.room in
        let brk = ap State.mem_brk state in
        let to_end : end ≡ s.mem_brk + n - 8 = omega arith in
        let free_bounds = λ (b k : ℕ) (f : FreeIn (s.heap + 8) ps b k).
          FreeIn-bounds _ _ _ _ ps _ b k whole.tiles f in
        subst (λ w. IsOpen w ps block end false (n == min_block_size) [])
          (ap (with_bytes after.bytes) (sym state))
          (record {
            framed = record {
              some_heap = whole.some_heap;
              small = small;
              room = omega arith;
              aligned = whole.aligned;
              start = whole.start;
              prologue = after_same s.heap (omega arith) ∙ whole.prologue;
            };
            left =
                Tiles-same s.bytes after.bytes _ _ _ ps _ (λ x from to. after_same x to)
                  whole.tiles;
            right = (
              omega arith,
              ap (word after.bytes) (sym to_end)
                  ∙ word-put_self u.bytes end _ (pack_all-lt 0 true false _ (omega arith)),
            );
            gap = omega arith;
            multiple = omega arith;
            ordered_left = h.ordered;
            ordered_right = tt;
            listed =
                IsListed-iff _ (FreeIn (s.heap + 8) ps) _ (λ b k f. inl f)
                  (λ b k f. elim f [ inl g ↦ g | inr g ↦ elim g [ ] ])
                  (IsListed-longer s (with_bytes after.bytes before) (FreeIn (s.heap + 8) ps)
                    (record { heap = refl; brk = omega arith; heads = refl; first = refl })
                    (λ b k f.
                      let at_b = free_bounds b k f in
                      let size = at_b.0.1 in after_same b (omega arith))
                    (λ b k f.
                      let at_b = free_bounds b k f in
                      let size = at_b.0.1 in after_same (b + 8) (omega arith))
                    (λ b k f large.
                      let at_b = free_bounds b k f in
                      let size = at_b.0 in after_same (b + 16) (omega arith))
                    h.listed);
          })

    extended-IsKept : IsKept before ps end [] after
    extended-IsKept = record {
      base = ap State.heap state;
      brk = ap State.mem_brk state;
      limit = ap State.mem_max_addr state;
      payload = λ x used. elim used [
        | inl v ↦ let at_x = InUse-bounds _ _ _ _ ps _ x h.heap.tiles v in after_same x at_x.1
        | inr v ↦ elim v [ ]
      ];
    }

    extended-IsFreed : IsFreed after ps block end false (n == min_block_size) []
    extended-IsFreed = record { opened = extended_opened; piece = free_block }

  -- The block that `extend_heap` makes of the new memory is free, and joined with a free block before
  -- it; the heap is in order.
  pub place_extension-IsCoalesced :
      Ends (IsCoalesced before ps block end []) (place_extension n s.mem_brk before)
  unfolding place_extension payload_to_header write_epilogue
  place_extension-IsCoalesced =
      let room = h.heap.room in
      let at : sub64 s.mem_brk 8 ≡ block = omega arith in
      rw
        (
          at,
          get_prev_alloc-HasHeader before block _ _ _ _ old_epilogue,
          get_prev_mini-HasHeader before block _ _ _ _ old_epilogue,
        )
        (Ends-continue
          (write_pack-IsPacked before block n false (last_alloc true ps) (last_mini false ps)
            (record { small = small; lower = omega arith; upper = omega arith; fits = omega arith })
            (λ free. (least, omega arith)))
          λ _ u is.
            let header = after_header u is in
            let base = ap State.heap (state u is) in
            let brk = ap State.mem_brk (state u is) in
            let to_end : (u.heap ≤ end) × (end + 8 ≤ u.mem_brk) = omega arith in
            rw
              (
                find_next-HasHeader u block _ _ _ _ header (omega arith),
                get_alloc-HasHeader u block _ _ _ _ header,
                is_mini_block-HasHeader u block _ _ _ _ header,
                store-put u end epilogue_word to_end,
              )
              (Ends-mono
                (coalesce_block-IsCoalesced (after u is) block end false _ ps []
                  (extended-IsFreed u is))
                λ r w joined.
                  IsCoalesced-since before (after u is) w ps block end [] r (extended-IsKept u is)
                    joined))
