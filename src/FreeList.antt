-- ===== src/FreeList.antt =====
-- mm.c: the size classes, and the lists of free blocks that `seg_list` and `mini_list` head.
pub mod Chain
pub mod Segregated
pub mod Insert
pub mod Mini
pub mod Rounds
pub mod RemoveMini
pub mod Search
pub mod Classes
pub mod Fit
pub mod Listed
pub mod Unlink
pub mod Remove
use dynamic_memory_allocator.Base.{
  ℕ, zero, suc, ◌+◌, ◌-◌, not, ◌&&◌, Option, none, some, ◌==◌, leb, ltb, if◌then◌else◌,
}
use dynamic_memory_allocator.Machine.{State, Cmd, out_of_rounds, pure, ◌>>=◌, ◌>>◌, get, modify}
use dynamic_memory_allocator.Memlib.{load, store, mem_heapsize}
use dynamic_memory_allocator.Block.{
  null, min_block_size, get_size, get_alloc, is_mini_block, prev_offset, next_offset,
  mini_next_offset,
}

-- LENGTH
abbrev pub seg_length : ℕ
seg_length = 14

unfoldable pub find_class : ℕ → ℕ
find_class asize =
    if ltb asize 32
    then 0
    else if ltb asize 64
    then 1
    else if ltb asize 128
    then 2
    else if ltb asize 256
    then 3
    else if ltb asize 512
    then 4
    else if ltb asize 1024
    then 5
    else if ltb asize 2048
    then 6
    else if ltb asize 3072
    then 7
    else if ltb asize 4096
    then 8
    else if ltb asize 6656
    then 9
    else if ltb asize 8192
    then 10
    else if ltb asize 16384
    then 11
    else if ltb asize 32768
    then 12
    else 13

-- `seg_list[class] = block`
abbrev pub set_seg : ℕ → ℕ → State → State
set_seg class block s = record s { seg_list = λ i. if i == class then block else s.seg_list i }

abbrev pub set_mini : ℕ → State → State
set_mini block s = record s { mini_list = block }

-- The rounds that a walk along a free list is given: a list of distinct blocks has fewer nodes
-- than the heap has bytes.
unfoldable pub rounds : Cmd ℕ
rounds = do bytes ← mem_heapsize; pure (suc bytes)

-- `none` is the -1 of the source.
unfoldable pub is_head : ℕ → Cmd (Option ℕ)
unfolding get_size
is_head block = do
  size ← get_size block
  curr ← get (λ s. s.seg_list (find_class size))
  pure (if block == curr then some (find_class size) else none)

unfoldable pub insert_mini : ℕ → Cmd (Unit {0})
insert_mini block = do
  curr ← get (λ s. s.mini_list)
  if not (curr == null)
      then (do store (block + mini_next_offset) curr; modify (set_mini block))
      else (do modify (set_mini block); store (block + mini_next_offset) null)

unfoldable pub insert_seg : ℕ → Cmd (Unit {0})
insert_seg block = do
  size ← get_size block
  curr ← get (λ s. s.seg_list (find_class size))
  modify (set_seg (find_class size) block)
  if not (curr == null)
      then (do store (curr + prev_offset) block; store (block + next_offset) curr)
      else (do store (block + next_offset) null; store (block + prev_offset) null)

unfoldable pub insert_free : ℕ → Cmd (Unit {0})
unfolding insert_mini insert_seg
insert_free block = do
  mini ← is_mini_block block
  if mini then insert_mini block else insert_seg block

-- The walk to the node before `block`, and its unlinking.
unfoldable pub remove_mini_loop : ℕ → (curr block : ℕ) → Cmd (Unit {0})
remove_mini_loop zero curr block = λ _. out_of_rounds
remove_mini_loop (suc k) curr block = do
  next ← load (curr + mini_next_offset)
  if not (next == block)
      then remove_mini_loop k next block
      else (do after ← load (block + mini_next_offset); store (curr + mini_next_offset) after)

unfoldable pub remove_mini : ℕ → Cmd (Unit {0})
unfolding remove_mini_loop
remove_mini block = do
  head ← get (λ s. s.mini_list)
  next ← load (head + mini_next_offset)
  if next == null
      then modify (set_mini null)
      else if block == head
      then modify (set_mini next)
      else (do k ← rounds; remove_mini_loop k head block)

unfoldable pub remove_seg : ℕ → Cmd (Unit {0})
remove_seg block = do
  prev ← load (block + prev_offset)
  next ← load (block + next_offset)
  head ← is_head block
  elim head [
    | some class ↦ modify (set_seg class next)
    | none ↦
        if next == null
        then store (prev + next_offset) null
        else (do store (prev + next_offset) next; store (next + prev_offset) prev)
  ]

unfoldable pub remove_free : ℕ → Cmd (Unit {0})
unfolding remove_mini remove_seg
remove_free block = do
  mini ← is_mini_block block
  if mini then remove_mini block else remove_seg block

-- What the walk does at a block that fits: it goes on with a better one, or ends.
unfoldable pub after_fit : (go : (best next : ℕ) → Cmd ℕ) → (best block size : ℕ) → Cmd ℕ
after_fit go best block size =
    if best == null then (do next ← load (block + next_offset); go block next) else (do
      best_size ← get_size best
      if ltb size best_size
          then (do next ← load (block + next_offset); go block next)
          else pure best)

-- The walk along one class. It ends early, at a fit that is no smaller than the best so far, or
-- at the end of the list; both ways give `best`, `NULL` where nothing fits.
unfoldable pub search_class : ℕ → (asize best block : ℕ) → Cmd ℕ
unfolding after_fit
search_class zero asize best block = λ _. out_of_rounds
search_class (suc k) asize best block = if block == null then pure best else do
  alloc ← get_alloc block
  size ← get_size block
  if not (not alloc && leb asize size)
      then (do next ← load (block + next_offset); search_class k asize best next)
      else after_fit (search_class k asize) best block size

-- The `for` over the classes from `i` on, with `k` of them left.
unfoldable pub search_from : (k i asize : ℕ) → Cmd ℕ
search_from zero i asize = pure null
search_from (suc k) i asize = do
  block ← get (λ s. s.seg_list i)
  n ← rounds
  best ← search_class n asize null block
  if not (best == null) then pure best else search_from k (i + 1) asize

unfoldable pub find_fit : ℕ → Cmd ℕ
unfolding search_class search_from
find_fit asize = do
  mini ← get (λ s. s.mini_list)
  if asize == min_block_size && not (mini == null)
      then pure mini
      else search_from (seg_length - find_class asize) (find_class asize) asize
