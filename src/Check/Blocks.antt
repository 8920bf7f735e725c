-- ===== src/Check/Blocks.antt =====
-- The first half of `mm_checkheap`, the walk over the blocks, on a heap in order.
use mathlib.Core.List.{append-nil, append_assoc}
use mathlib.Core.Path.{subst}
use dynamic_memory_allocator.Base.{
  ℕ, zero, suc, ◌+◌, ◌-◌, ◌%◌, ◌^◌, ◌≤◌, ◌<◌, ◌≡◌, ◌≢◌, ◌⊎◌, ◌∙◌, refl, sym, ap, Bool, true, false,
  List, [], ◌∷◌, ◌++◌, length, arith, inl, inr, ◌==◌, ltb, ==_ne, ==_self, Bool-cases, sub64,
}
use dynamic_memory_allocator.Machine.{State, Bytes, done}
use dynamic_memory_allocator.Memlib.{mem_heap_lo, mem_heap_hi}
use dynamic_memory_allocator.Memlib.Word.{load-word}
use dynamic_memory_allocator.Block.{min_block_size, header_to_payload}
use dynamic_memory_allocator.Block.Header.{extract-pack_all}
use dynamic_memory_allocator.FreeList.Rounds.{rounds-heapsize}
use dynamic_memory_allocator.Heap.{Piece, Tiles, IsHeap, Coalesced, last_alloc, last_mini}
use dynamic_memory_allocator.Heap.Tiles.{extent, Tiles-split}
use dynamic_memory_allocator.Heap.Fields.{
  HasHeader, get_size-HasHeader, get_alloc-HasHeader, get_prev_mini-HasHeader,
  header_to_footer-HasHeader,
}
use dynamic_memory_allocator.Heap.Walk.{
  address, head_size, head_alloc, last_alloc-append, last_mini-append, IsHeap-end, IsHeap-piece,
  IsHeap-bounds, IsHeap-header, find_next-IsHeap,
}
use dynamic_memory_allocator.Heap.Open.{Coalesced-suffix, Coalesced-head}
use dynamic_memory_allocator.Heap.Allocate.{extent-multiple}
use dynamic_memory_allocator.Check.{
  epilogue_of, check_prologue_epilogue, check_alignment, check_boundary, check_non_consecutive_free,
  check_header_footer_match, check_block_size, check_block, check_blocks, general_heap_checker,
}

module _ (s : State) (xs : List Piece) (p : Piece) (ys : List Piece) (h : IsHeap s (xs ++ p ∷ ys))
    (ordered : Coalesced true (xs ++ p ∷ ys)) where
  abbrev at : ℕ
  at = address s xs

  abbrev next : ℕ
  next = address s (xs ++ p ∷ [])

  header : HasHeader s at p.size p.alloc (last_alloc true xs) (last_mini false xs)
  header = IsHeap-header s xs (p ∷ ys) h

  next_header : HasHeader s next (head_size ys) (head_alloc ys) p.alloc (p.size == min_block_size)
  next_header =
      let whole : IsHeap s ((xs ++ p ∷ []) ++ ys) = rw append_assoc h in
      let found = IsHeap-header s (xs ++ p ∷ []) ys whole in
      rw (last_alloc-append, last_mini-append) at found

  -- The sizes in numbers.
  record IsFitting : Type 0 where
    pub upper : at + p.size + 8 ≤ s.mem_brk
    pub least : 16 ≤ p.size
    pub multiple : p.size % 16 ≡ 0
    pub base : s.heap % 16 ≡ 0
    pub before : extent xs % 16 ≡ 0
    pub small : s.mem_brk < 2 ^ 64

  fitting : IsFitting
  fitting =
      let end = IsHeap-bounds s xs (p ∷ ys) h in
      let piece = IsHeap-piece s xs p ys h in
      record {
        upper = omega arith;
        least = piece.least;
        multiple = piece.aligned;
        base = h.aligned;
        before =
            extent-multiple _ _ _ _ xs _
              (Tiles-split s.bytes (s.heap + 8) true false xs (p ∷ ys) _ h.tiles).0;
        small = h.small;
      }

  alignment-accepts : check_alignment at s ≡ done true s
  unfolding check_alignment header_to_payload
  alignment-accepts =
      let base = fitting.base in
      let before = fitting.before in
      let upper = fitting.upper in
      let small = fitting.small in
      let sixteen : (s.heap + 8 + extent xs + 8) % 2 ^ 64 % 16 ≡ 0 = omega arith in rw sixteen refl

  boundary-accepts : check_boundary at s ≡ done true s
  unfolding check_boundary mem_heap_hi mem_heap_lo
  boundary-accepts =
      let upper = fitting.upper in
      let small = fitting.small in
      let last : sub64 s.mem_brk 1 + 1 ≡ s.mem_brk = omega arith in ground arith

  size-accepts : check_block_size at s ≡ done true s
  unfolding check_block_size
  size-accepts =
      let least = fitting.least in
      let multiple = fitting.multiple in
      let not_less : ltb p.size min_block_size ≡ false = ground arith in
      rw (get_size-HasHeader s at p.size p.alloc _ _ header, not_less, multiple) refl

  free_neighbours : (p.alloc ≡ true) ⊎ (head_alloc ys ≡ true)
  free_neighbours =
      let behind = (Coalesced-suffix true xs (p ∷ ys) ordered).1 in
      elim (Bool-cases p.alloc) [
        | inl used ↦ inl used
        | inr free ↦ inr (Coalesced-head ys (subst (λ b. Coalesced b ys) free behind)).0
      ]

  non_consecutive-accepts : check_non_consecutive_free at s ≡ done true s
  unfolding check_non_consecutive_free
  non_consecutive-accepts =
      rw
        (
          find_next-IsHeap s xs p ys h,
          get_alloc-HasHeader s at p.size p.alloc _ _ header,
          get_alloc-HasHeader s next (head_size ys) (head_alloc ys) _ _ next_header,
        )
        (elim free_neighbours [ inl used ↦ rw used refl | inr used ↦ rw used (ground arith) ])

  footer-accepts : check_header_footer_match at s ≡ done true s
  unfolding check_header_footer_match
  footer-accepts =
      let upper = fitting.upper in
      let least = fitting.least in
      let small = fitting.small in
      let piece = IsHeap-piece s xs p ys h in
      rw
        (
          get_alloc-HasHeader s at p.size p.alloc _ _ header,
          load-word s at header.inside,
          header_to_footer-HasHeader s at p.size p.alloc _ _ header least (omega arith),
          load-word s (at + p.size - 8) (omega arith),
          find_next-IsHeap s xs p ys h,
          get_prev_mini-HasHeader s next (head_size ys) (head_alloc ys) _ _ next_header,
        )
        (elim (Bool-cases p.alloc) [
          | inl used ↦ rw used refl
          | inr free ↦ elim (Bool-cases (p.size == min_block_size)) [
            | inl mini ↦ rw (free, mini) refl
            | inr large ↦
                let other : p.size ≢ min_block_size = ground (arith, large) in
                rw (free, large, piece.header, piece.footer free other, ==_self _) refl
          ]
        ])

  block-accepts : check_block at s ≡ done true s
  unfolding check_block
  block-accepts =
      rw (alignment-accepts, boundary-accepts, size-accepts, footer-accepts) non_consecutive-accepts

length-le-extent :
    (m : Bytes) (a : ℕ) (pa pm : Bool) (ps : List Piece) (e : ℕ)
    → Tiles m a pa pm ps e
    → length ps ≤ extent ps
length-le-extent m a pa pm [] e h = omega arith
length-le-extent m a pa pm (p ∷ ps) e h =
    let least = h.0.least in omega (arith, length-le-extent m (a + p.size) _ _ ps e h.1)

-- The walk from any block of the heap.
blocks-accept :
    (k : ℕ) (s : State) (xs ys : List Piece)
    → IsHeap s (xs ++ ys)
    → Coalesced true (xs ++ ys)
    → length ys < k
    → check_blocks k (address s xs) (s.mem_brk - 8) s ≡ done true s
unfolding check_blocks
blocks-accept zero s xs ys h ordered enough = absurd (omega arith)
blocks-accept (suc k) s xs [] h ordered enough =
    let end = IsHeap-end s (xs ++ []) h in
    let same : s.mem_brk - 8 ≡ address s xs = end ∙ ap (address s) (append-nil xs) in
    rw (same, ==_self (address s xs)) refl
blocks-accept (suc k) s xs (p ∷ ys) h ordered enough =
    let upper = (fitting s xs p ys h ordered).upper in
    let least = (fitting s xs p ys h ordered).least in
    rw
      (
        ==_ne (address s xs) (s.mem_brk - 8) (omega arith),
        block-accepts s xs p ys h ordered,
        find_next-IsHeap s xs p ys h,
      )
      (blocks-accept k s (xs ++ p ∷ []) ys (rw append_assoc h) (rw append_assoc ordered)
        (omega arith))

module _ (s : State) (ps : List Piece) (h : IsHeap s ps) where
  epilogue_header : HasHeader s (s.mem_brk - 8) 0 true (last_alloc true ps) (last_mini false ps)
  epilogue_header =
      let room = h.room in
      let small = h.small in
      record { inside = omega arith; fits = omega arith; header = h.epilogue }

  prologue_header : HasHeader s s.heap 0 true false false
  prologue_header =
      let room = h.room in record { inside = omega arith; fits = omega arith; header = h.prologue }

  epilogue-at : epilogue_of s ≡ done (s.mem_brk - 8) s
  unfolding epilogue_of mem_heap_hi
  epilogue-at =
      let room = h.room in
      let small = h.small in
      let at : sub64 (sub64 s.mem_brk 1) 7 ≡ s.mem_brk - 8 = omega arith in rw at refl

  ends-accept : check_prologue_epilogue s ≡ done true s
  unfolding check_prologue_epilogue mem_heap_lo
  ends-accept =
      let parts = extract-pack_all 0 true false false prologue_header.fits in
      rw
        (
          epilogue-at,
          load-word s s.heap prologue_header.inside,
          h.prologue,
          parts.1,
          get_alloc-HasHeader s (s.mem_brk - 8) 0 true _ _ epilogue_header,
          parts.0,
          get_size-HasHeader s (s.mem_brk - 8) 0 true _ _ epilogue_header,
        )
        refl

  -- `general_heap_checker` accepts a heap whose blocks are as they should be, no two of them free
  -- neighbours.
  pub general_heap_checker-accepts : Coalesced true ps → general_heap_checker s ≡ done true s
  unfolding general_heap_checker
  general_heap_checker-accepts ordered =
      let room = h.room in
      let small = h.small in
      let some_heap = h.some_heap in
      let start : s.heap_start ≡ address s [] = omega (arith, h.start) in
      let count = length-le-extent _ _ _ _ ps _ h.tiles in
      let end = IsHeap-end s ps h in
      rw (ends-accept, epilogue-at, rounds-heapsize s (omega arith, small) (omega arith))
        (subst (λ a. check_blocks (suc (s.mem_brk - s.heap)) a (s.mem_brk - 8) s ≡ done true s)
          (sym start) (blocks-accept (suc (s.mem_brk - s.heap)) s [] ps h ordered (omega arith)))
