-- ===== src/Tests/Runs.antt =====
-- The allocator run from an empty heap.
use dynamic_memory_allocator.Base.{ℕ, ◌+◌, ◌^◌, ◌≡◌, refl, Bool, true, Option, none, some}
use dynamic_memory_allocator.Machine.{
  State, Run, Cmd, done, fault, out_of_rounds, pure, ◌>>=◌, ◌>>◌, set_byte, read, write,
}
use dynamic_memory_allocator.Memlib.{
  max_dense_heap, mem_sbrk, store, load, mem_heap_hi, mem_heap_lo, mem_heapsize, mem_memcpy,
  mem_read, mem_write, memcpy_loop, round_address_up,
}
use dynamic_memory_allocator.Block.{
  round_up, get_prev_alloc, payload_to_header, get_prev_mini, write_pack, header_to_footer,
  extract_size, pack_all, extract_prev_mini, extract_prev_alloc, extract_alloc, find_next,
  find_prev, find_prev_footer, footer_to_header, get_alloc, get_size, header_to_payload,
  is_mini_block, max, write_epilogue, write_prev_alloc,
}
use dynamic_memory_allocator.FreeList.{
  after_fit, find_class, find_fit, insert_free, insert_mini, insert_seg, is_head, remove_free,
  remove_mini, remove_mini_loop, remove_seg, rounds, search_class, search_from,
}
use dynamic_memory_allocator.Allocator.{
  malloc, free, realloc, mm_init, extend_heap, adjusted_size, coalesce_block, split_block,
}
use dynamic_memory_allocator.Check.{
  mm_checkheap, check_alignment, check_block_size, check_boundary, check_header_footer_match,
  check_list, check_non_consecutive_free, check_prologue_epilogue, general_heap_checker,
}

abbrev start : State
start = record {
  bytes = λ a. 0;
  heap = 2 ^ 35;
  mem_brk = 2 ^ 35;
  mem_brk_chunk = 2 ^ 35;
  mem_max_addr = 2 ^ 35 + max_dense_heap;
  pagesize = 4096;
  mprotect = λ a n. true;
  heap_start = 0;
  seg_list = λ i. 0;
  mini_list = 0;
}

abbrev result : {A : Type 0} → Run A → Option A
result (done a s) = some a
result fault = none
result out_of_rounds = none

-- Blocks of 16, 112 and 5008 bytes; the first two coalesce once they are freed, and `realloc`
-- then takes the 32 bytes that it needs from their place.
session : Cmd (ℕ × ℕ × ℕ × Bool)
session = do
  a ← malloc 8
  b ← malloc 100
  c ← malloc 5000
  free b
  free a
  d ← realloc c 24
  good ← mm_checkheap
  pure (a, b, d, good)

session_output : result (session start) ≡ some (2 ^ 35 + 16, 2 ^ 35 + 32, 2 ^ 35 + 16, true)
unfolding session malloc free realloc mm_checkheap mm_init mem_sbrk store extend_heap round_up
    get_prev_alloc load payload_to_header get_prev_mini write_pack header_to_footer extract_size
    read write pack_all extract_prev_mini extract_prev_alloc adjusted_size coalesce_block
    split_block extract_alloc find_next find_prev find_prev_footer footer_to_header get_alloc
    get_size header_to_payload is_mini_block max write_epilogue write_prev_alloc check_alignment
    check_block_size check_boundary check_header_footer_match check_list check_non_consecutive_free
    check_prologue_epilogue general_heap_checker after_fit find_class find_fit insert_free
    insert_mini insert_seg is_head remove_free remove_mini remove_mini_loop remove_seg rounds
    search_class search_from set_byte mem_heap_hi mem_heap_lo mem_heapsize mem_memcpy mem_read
    mem_write memcpy_loop round_address_up
session_output = refl
