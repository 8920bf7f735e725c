-- ===== src/Check.antt =====
-- mm.c: `mm_checkheap`, the checker that the driver calls in its expensive mode.
pub mod Blocks
pub mod Lists
pub mod Reached
use dynamic_memory_allocator.Base.{
  ℕ, zero, suc, ◌+◌, ◌%◌, Bool, true, false, not, ◌&&◌, ◌||◌, ◌==◌, ltb, if◌then◌else◌, sub64,
}
use dynamic_memory_allocator.Machine.{Cmd, out_of_rounds, pure, ◌>>=◌, get}
use dynamic_memory_allocator.Memlib.{load, mem_heap_lo, mem_heap_hi}
use dynamic_memory_allocator.Block.{
  null, min_block_size, prev_offset, next_offset, extract_size, extract_alloc, get_size,
  header_to_payload, header_to_footer, get_alloc, get_prev_mini, find_next,
}
use dynamic_memory_allocator.FreeList.{seg_length, find_class, rounds}

-- Where the epilogue stands.
epilogue_of : Cmd ℕ
epilogue_of = do hi ← mem_heap_hi; pure (sub64 hi 7)

unfoldable pub check_prologue_epilogue : Cmd Bool
unfolding epilogue_of
check_prologue_epilogue = do
  lo ← mem_heap_lo
  epilogue ← epilogue_of
  prologue_word ← load lo
  if not (extract_alloc prologue_word) then pure false else do
    epilogue_alloc ← get_alloc epilogue
    if not epilogue_alloc then pure false else do
      if not (extract_size prologue_word == 0)
          then pure false
          else do epilogue_size ← get_size epilogue; pure (epilogue_size == 0)

unfoldable pub check_alignment : ℕ → Cmd Bool
check_alignment block = pure (header_to_payload block % 16 == 0)

unfoldable pub check_boundary : ℕ → Cmd Bool
check_boundary block = do
  hi ← mem_heap_hi
  lo ← mem_heap_lo
  pure (not (ltb hi block) && not (ltb block lo))

unfoldable pub check_non_consecutive_free : ℕ → Cmd Bool
check_non_consecutive_free block = do
  next ← find_next block
  curr_alloc ← get_alloc block
  next_alloc ← get_alloc next
  pure (not (not curr_alloc && not next_alloc))

unfoldable pub check_header_footer_match : ℕ → Cmd Bool
check_header_footer_match block = do
  curr_alloc ← get_alloc block
  header ← load block
  footer_at ← header_to_footer block
  footer ← load footer_at
  next ← find_next block
  is_mini ← get_prev_mini next
  pure (not (not curr_alloc && not is_mini && not (header == footer)))

unfoldable pub check_block_size : ℕ → Cmd Bool
check_block_size block = do
  size ← get_size block
  pure (not (ltb size min_block_size || not (size % 16 == 0)))

-- The checks of one round, each made only if those before it passed.
check_block : ℕ → Cmd Bool
check_block curr = do
  aligned ← check_alignment curr
  if not aligned then pure false else do
    inside ← check_boundary curr
    if not inside then pure false else do
      sized ← check_block_size curr
      if not sized then pure false else do
        matching ← check_header_footer_match curr
        if not matching then pure false else check_non_consecutive_free curr

check_blocks : ℕ → (curr epilogue : ℕ) → Cmd Bool
unfolding check_block
check_blocks zero curr epilogue = λ _. out_of_rounds
check_blocks (suc k) curr epilogue = if curr == epilogue then pure true else do
  good ← check_block curr
  if not good then pure false else do next ← find_next curr; check_blocks k next epilogue

unfoldable pub general_heap_checker : Cmd Bool
unfolding check_blocks epilogue_of
general_heap_checker = do
  ends ← check_prologue_epilogue
  if not ends then pure false else do
    curr ← get (λ s. s.heap_start)
    epilogue ← epilogue_of
    k ← rounds
    check_blocks k curr epilogue

-- Whether the node after `curr`, if there is one, points back to it.
links_back : (curr next : ℕ) → Cmd Bool
links_back curr next =
    if next == null then pure true else do prev ← load (next + prev_offset); pure (prev == curr)

check_node : (i curr : ℕ) → Cmd Bool
unfolding links_back
check_node i curr = do
  inside ← check_boundary curr
  if not inside then pure false else do
    next ← load (curr + next_offset)
    linked ← links_back curr next
    if not linked then pure false else do size ← get_size curr; pure (find_class size == i)

check_class : ℕ → (i curr : ℕ) → Cmd Bool
unfolding check_node
check_class zero i curr = λ _. out_of_rounds
check_class (suc k) i curr = if curr == null then pure true else do
  good ← check_node i curr
  if not good then pure false else do next ← load (curr + next_offset); check_class k i next

-- The classes from `i` on, with `k` of them left.
check_classes : (k i : ℕ) → Cmd Bool
unfolding check_class
check_classes zero i = pure true
check_classes (suc k) i = do
  curr ← get (λ s. s.seg_list i)
  n ← rounds
  good ← check_class n i curr
  if not good then pure false else check_classes k (i + 1)

unfoldable pub check_list : Cmd Bool
unfolding check_classes
check_list = check_classes seg_length 0

unfoldable pub mm_checkheap : Cmd Bool
mm_checkheap = do blocks ← general_heap_checker; if not blocks then pure false else check_list
