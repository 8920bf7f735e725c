-- ===== src/Allocator.antt =====
-- mm.c: coalescing, splitting, growing the heap, and the five operations of the interface.
-- `malloc`, `free`, `realloc` and `calloc` are `mm_malloc` and so on in the driver build. The
-- `dbg_` contracts expand to no code there.
pub mod Requests
use dynamic_memory_allocator.Base.{
  ℕ, zero, suc, ◌+◌, ◌*◌, ◌/◌, Bool, true, false, not, ◌&&◌, none, some, ◌==◌, leb, ltb,
  if◌then◌else◌, add64, sub64, mul64,
}
use dynamic_memory_allocator.Machine.{Cmd, pure, ◌>>=◌, ◌>>◌, get, modify}
use dynamic_memory_allocator.Memlib.{store, mem_sbrk, mem_memcpy, mem_memset}
use dynamic_memory_allocator.Block.{
  null, wsize, dsize, min_block_size, chunksize, max, round_up, pack_all, get_size,
  payload_to_header, header_to_payload, get_alloc, get_prev_alloc, get_prev_mini, is_mini_block,
  find_next, find_prev, write_epilogue, write_pack, write_prev_alloc,
}
use dynamic_memory_allocator.FreeList.{
  seg_length, set_seg, set_mini, insert_free, remove_free, find_fit,
}

-- Case one: both neighbours are allocated.
unfoldable pub coalesce_neither : (block next next_size : ℕ) → Cmd ℕ
coalesce_neither block next next_size = do
  mini ← is_mini_block block
  write_pack next next_size true false mini
  insert_free block
  pure block

-- Case two: the previous block is free.
unfoldable pub coalesce_prev : (prev next current_size next_size : ℕ) → Cmd ℕ
coalesce_prev prev next current_size next_size = do
  remove_free prev
  prev_size ← get_size prev
  prev_prev_alloc ← get_prev_alloc prev
  prev_prev_mini ← get_prev_mini prev
  write_pack prev (add64 current_size prev_size) false prev_prev_alloc prev_prev_mini
  write_pack next next_size true false false
  insert_free prev
  pure prev

-- The block after `next` learns that its predecessor is free and no mini block.
unfoldable pub mark_after : (next : ℕ) → Cmd (Unit {0})
mark_after next = do
  next_next ← find_next next
  next_next_size ← get_size next_next
  next_next_alloc ← get_alloc next_next
  write_pack next_next next_next_size next_next_alloc false false

-- Case three: the next block is free.
unfoldable pub coalesce_next : (block next current_size next_size : ℕ) → Cmd ℕ
unfolding mark_after
coalesce_next block next current_size next_size = do
  remove_free next
  prev_mini ← get_prev_mini block
  write_pack block (add64 current_size next_size) false true prev_mini
  mark_after next
  insert_free block
  pure block

-- Case four: both neighbours are free.
unfoldable pub coalesce_both : (prev next current_size : ℕ) → Cmd ℕ
unfolding mark_after
coalesce_both prev next current_size = do
  remove_free prev
  remove_free next
  prev_size ← get_size prev
  next_size ← get_size next
  prev_prev_alloc ← get_prev_alloc prev
  prev_prev_mini ← get_prev_mini prev
  write_pack prev (add64 (add64 current_size prev_size) next_size) false prev_prev_alloc
      prev_prev_mini
  mark_after next
  insert_free prev
  pure prev

-- `prev` is looked up only if the previous block is free.
unfoldable pub coalesce_block : ℕ → Cmd ℕ
unfolding coalesce_neither coalesce_prev coalesce_next coalesce_both
coalesce_block block = do
  current_size ← get_size block
  prev_alloc ← get_prev_alloc block
  prev ← (if not prev_alloc then find_prev block else pure null)
  next ← find_next block
  next_alloc ← get_alloc next
  next_size ← get_size next
  if prev_alloc && next_alloc
      then coalesce_neither block next next_size
      else if not prev_alloc && next_alloc
      then coalesce_prev prev next current_size next_size
      else if prev_alloc && not next_alloc
      then coalesce_next block next current_size next_size
      else coalesce_both prev next current_size

-- What `extend_heap` does with the memory at `bp` that it was given.
unfoldable pub place_extension : (size bp : ℕ) → Cmd ℕ
place_extension size bp = do
  let block = payload_to_header bp
  prev_alloc ← get_prev_alloc block
  prev_mini ← get_prev_mini block
  write_pack block size false prev_alloc prev_mini
  block_next ← find_next block
  alloc ← get_alloc block
  mini ← is_mini_block block
  write_epilogue block_next alloc mini
  coalesce_block block

-- `NULL` where the break cannot be moved.
unfoldable pub extend_heap : ℕ → Cmd ℕ
unfolding place_extension
extend_heap size = do
  bp ← mem_sbrk (round_up size dsize)
  elim bp [ none ↦ pure null | some bp ↦ place_extension (round_up size dsize) bp ]

unfoldable pub split_block : (block asize : ℕ) → Cmd ℕ
split_block block asize = do
  block_size ← get_size block
  prev_alloc ← get_prev_alloc block
  prev_mini ← get_prev_mini block
  if leb min_block_size (sub64 block_size asize)
      then (do
        write_pack block asize true prev_alloc prev_mini
        block_next ← find_next block
        write_pack block_next (sub64 block_size asize) false true (asize == min_block_size)
        next_next ← find_next block_next
        write_prev_alloc next_next false
        pure block_next)
      else pure null

-- `for (i = 0; i < LENGTH; i++) seg_list[i] = NULL;` with `k` rounds left.
unfoldable pub clear_seg : (k i : ℕ) → Cmd (Unit {0})
clear_seg zero i = pure tt
clear_seg (suc k) i = do modify (set_seg i null); clear_seg k (i + 1)

-- `mm_init` from the memory at `start` on.
unfoldable pub init_at : ℕ → Cmd Bool
unfolding clear_seg
init_at start = do
  clear_seg seg_length 0
  modify (set_mini null)
  store start (pack_all 0 true false false)
  store (start + wsize) (pack_all 0 true true false)
  modify (λ s. record s { heap_start = start + wsize })
  block ← extend_heap chunksize
  pure (not (block == null))

unfoldable pub mm_init : Cmd Bool
unfolding init_at
mm_init = do
  start ← mem_sbrk (2 * wsize)
  elim start [ none ↦ pure false | some start ↦ init_at start ]

-- The size of the block that a request of `size` bytes is given.
unfoldable pub adjusted_size : ℕ → ℕ
adjusted_size size = round_up (add64 size wsize) dsize

-- A free block that can hold `asize` bytes, from the lists or from a larger heap.
unfoldable pub find_or_extend : ℕ → Cmd ℕ
find_or_extend asize = do
  block ← find_fit asize
  if block == null then extend_heap (max asize chunksize) else pure block

-- `malloc` from the free block that it found.
unfoldable pub place : (block asize : ℕ) → Cmd ℕ
place block asize = do
  remove_free block
  block_size ← get_size block
  prev_alloc ← get_prev_alloc block
  prev_mini ← get_prev_mini block
  write_pack block block_size true prev_alloc prev_mini
  next ← find_next block
  write_prev_alloc next true
  temp ← split_block block asize
  (if not (temp == null) then (coalesce_block temp >>= λ _. pure tt) else pure tt)
  pure (header_to_payload block)

-- `malloc` once the heap is initialized.
unfoldable pub malloc_ready : ℕ → Cmd ℕ
unfolding find_or_extend place
malloc_ready size = if size == 0 then pure null else do
  block ← find_or_extend (adjusted_size size)
  if block == null then pure null else place block (adjusted_size size)

unfoldable pub malloc : ℕ → Cmd ℕ
unfolding malloc_ready
malloc size = do
  start ← get (λ s. s.heap_start)
  ready ← (if start == null then mm_init else pure true)
  if ready then malloc_ready size else pure null

unfoldable pub free : ℕ → Cmd (Unit {0})
free bp = if bp == null then pure tt else do
  let block = payload_to_header bp
  block_size ← get_size block
  prev_alloc ← get_prev_alloc block
  prev_mini ← get_prev_mini block
  write_pack block block_size false prev_alloc prev_mini
  next ← find_next block
  write_prev_alloc next false
  coalesce_block block >>= λ _. pure tt

-- `realloc` on a block and a size that are not null.
unfoldable pub move_block : (ptr size : ℕ) → Cmd ℕ
move_block ptr size = do
  newptr ← malloc size
  if newptr == null then pure null else do
    block_size ← get_size (payload_to_header ptr)
    let copysize = sub64 block_size wsize
    _ ← mem_memcpy newptr ptr (if ltb size copysize then size else copysize)
    free ptr
    pure newptr

unfoldable pub realloc : (ptr size : ℕ) → Cmd ℕ
unfolding move_block
realloc ptr size =
    if size == 0
    then (do free ptr; pure null)
    else if ptr == null
    then malloc size
    else move_block ptr size

-- The two tests that `calloc` makes before it asks for memory.
unfoldable pub calloc_refuses : (elements size : ℕ) → Bool
calloc_refuses elements size =
    if elements == 0 then true else not (mul64 elements size / elements == size)

unfoldable pub calloc : (elements size : ℕ) → Cmd ℕ
unfolding calloc_refuses
calloc elements size = if calloc_refuses elements size then pure null else do
  bp ← malloc (mul64 elements size)
  if bp == null then pure null else do _ ← mem_memset bp 0 (mul64 elements size); pure bp
