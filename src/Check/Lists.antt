-- ===== src/Check/Lists.antt =====
-- The second half of `mm_checkheap`, the walk over the lists, and the checker as a whole.
use dynamic_memory_allocator.Base.{
  ℕ, zero, suc, ◌+◌, ◌-◌, ◌^◌, ◌<◌, ◌≡◌, ◌∙◌, refl, ap, true, List, [], ◌∷◌, length, arith, ==_ne,
  ==_iff, ==_self, All, All-of_In, sub64,
}
use dynamic_memory_allocator.Machine.{State, done}
use dynamic_memory_allocator.Memlib.{mem_heap_lo, mem_heap_hi}
use dynamic_memory_allocator.Memlib.Word.{word, load-word}
use dynamic_memory_allocator.Block.{null, extract_size, get_size, next_offset, prev_offset}
use dynamic_memory_allocator.FreeList.{seg_length, find_class}
use dynamic_memory_allocator.FreeList.Chain.{Chain, BackFrom, Back}
use dynamic_memory_allocator.FreeList.Segregated.{Inside, class_at, IsFreeList}
use dynamic_memory_allocator.FreeList.Rounds.{rounds-heapsize, length-lt-rounds}
use dynamic_memory_allocator.FreeList.Listed.{IsListed}
use dynamic_memory_allocator.Heap.{Piece}
use dynamic_memory_allocator.Heap.Free.{FreeIn}
use dynamic_memory_allocator.Heap.Open.{IsReady}
use dynamic_memory_allocator.Check.{
  check_boundary, links_back, check_node, check_class, check_classes, check_list, mm_checkheap,
}
use dynamic_memory_allocator.Check.Blocks.{general_heap_checker-accepts}

-- The links back of a list without its first block.
Back-behind : (s : State) (a : ℕ) (xs : List ℕ) → BackFrom s.bytes a xs → Back s.bytes xs
Back-behind s a [] h = tt
Back-behind s a (b ∷ xs) h = h.1

module _ (s : State) (some_heap : 0 < s.heap) (small : s.mem_brk < 2 ^ 64) where
  boundary-Inside : (a : ℕ) → Inside s a → check_boundary a s ≡ done true s
  unfolding check_boundary mem_heap_hi mem_heap_lo
  boundary-Inside a inside =
      let (lower, upper) = inside in
      let last : sub64 s.mem_brk 1 + 1 ≡ s.mem_brk = omega arith in ground arith

  get_size-Inside : (a : ℕ) → Inside s a → get_size a s ≡ done (extract_size (word s.bytes a)) s
  unfolding get_size
  get_size-Inside a inside = let (lower, upper) = inside in rw (load-word s a (omega arith)) refl

  -- The node behind `a`, if any, points back to it.
  links-back :
      (a p : ℕ) (xs : List ℕ)
      → Chain next_offset s.bytes p xs
      → BackFrom s.bytes a xs
      → All (Inside s) xs
      → links_back a p s ≡ done true s
  unfolding links_back
  links-back a p [] chain back inside = rw ((==_iff p null).1 chain) refl
  links-back a p (b ∷ xs) (here, some, chain) back inside =
      let (lower, upper) = inside.0 in
      rw (here, ==_ne b null some, load-word s (b + prev_offset) (omega arith), back.0, ==_self a)
        refl

  node-accepts :
      (i a : ℕ) (xs : List ℕ)
      → Chain next_offset s.bytes (word s.bytes (a + next_offset)) xs
      → BackFrom s.bytes a xs
      → All (Inside s) xs
      → Inside s a
      → class_at s a ≡ i
      → check_node i a s ≡ done true s
  unfolding check_node
  node-accepts i a xs chain back inside here class =
      let (lower, upper) = here in
      rw
        (
          boundary-Inside a here,
          load-word s (a + next_offset) (omega arith),
          links-back a (word s.bytes (a + next_offset)) xs chain back inside,
          get_size-Inside a here,
          class,
          ==_self i,
        )
        refl

  class-accepts :
      (k i p : ℕ) (xs : List ℕ)
      → Chain next_offset s.bytes p xs
      → Back s.bytes xs
      → All (Inside s) xs
      → All (λ a. class_at s a ≡ i) xs
      → length xs < k
      → check_class k i p s ≡ done true s
  unfolding check_class
  class-accepts zero i p xs chain back inside class enough = absurd (omega arith)
  class-accepts (suc k) i p [] chain back inside class enough = rw ((==_iff p null).1 chain) refl
  class-accepts (suc k) i p (a ∷ xs) (here, some, chain) back inside class enough =
      let (lower, upper) = inside.0 in
      rw
        (
          here,
          ==_ne a null some,
          node-accepts i a xs chain back inside.1 inside.0 class.0,
          load-word s (a + next_offset) (omega arith),
        )
        (class-accepts k i (word s.bytes (a + next_offset)) xs chain (Back-behind s a xs back)
          inside.1 class.1 (omega arith))

module _ (s : State) (ps : List Piece) (h : IsReady s ps) where
  abbrev lists : IsListed s (FreeIn (s.heap + 8) ps)
  lists = h.listed

  classes-accept : (k i : ℕ) → check_classes k i s ≡ done true s
  unfolding check_classes
  classes-accept zero i = refl
  classes-accept (suc k) i =
      let room = h.heap.room in
      let small = h.heap.small in
      let some_heap = h.heap.some_heap in
      let list : IsFreeList s (s.seg_list i) (lists.seg i) = lists.seg_lists i in
      let classes : All (λ a. class_at s a ≡ i) (lists.seg i) =
        All-of_In (λ a. class_at s a ≡ i) (lists.seg i)
          λ a found.
            let (n, free, large, class) = lists.seg_in i a found in
            ap find_class (lists.sizes a n free) ∙ class in
      rw
        (
          rounds-heapsize s (some_heap, small) (omega arith),
          class-accepts s some_heap small (suc (s.mem_brk - s.heap)) i (s.seg_list i) (lists.seg i)
              list.chain list.back list.inside classes
              (length-lt-rounds s (lists.seg i) list.spread list.inside),
        )
        (classes-accept k (i + 1))

  -- `mm_checkheap` ends on a heap in order, whose free blocks are neighbours of none and in the list of
  -- their size, changes nothing, and answers true.
  pub mm_checkheap-accepts : mm_checkheap s ≡ done true s
  unfolding mm_checkheap check_list
  mm_checkheap-accepts =
      rw (general_heap_checker-accepts s ps h.heap h.ordered) (classes-accept seg_length 0)
