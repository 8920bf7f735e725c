-- ===== src/Tests/Words.antt =====
-- The theorems on headers, sizes, memory and the break.
use dynamic_memory_allocator.Base.{
  ◌+◌, ◌-◌, ◌*◌, ◌%◌, ◌^◌, ◌≤◌, ◌<◌, ◌≡◌, ◌≢◌, ◌↔◌, true, false, arith,
}
use dynamic_memory_allocator.Machine.{State, done, read}
use dynamic_memory_allocator.Machine.Ends.{Ends}
use dynamic_memory_allocator.Machine.ReadWrite.{}
use dynamic_memory_allocator.Memlib.{mem_memcpy, mem_memset}
use dynamic_memory_allocator.Memlib.Break.{IsBreak}
use dynamic_memory_allocator.Memlib.Copy.{
  IsFilled, repeat_byte, mem_memcpy-IsFilled, mem_memset-IsFilled,
}
use dynamic_memory_allocator.Block.{
  min_block_size, wsize, pack_all, extract_size, extract_alloc, extract_prev_alloc,
  extract_prev_mini, write_prev_alloc,
}
use dynamic_memory_allocator.Block.Header.{extract-pack_all}
use dynamic_memory_allocator.Block.PrevAlloc.{write_prev_alloc_free}
use dynamic_memory_allocator.Block.Sizes.{}
use dynamic_memory_allocator.FreeList.{}
use dynamic_memory_allocator.FreeList.Classes.{}
use dynamic_memory_allocator.Allocator.{adjusted_size, calloc_refuses}
use dynamic_memory_allocator.Allocator.Requests.{
  adjusted_size-fits, adjusted_size-wraps, calloc_refuses_iff,
}

abbrev small : State
small = record {
  bytes = λ a. a;
  heap = 4096;
  mem_brk = 8192;
  mem_brk_chunk = 8192;
  mem_max_addr = 65536;
  pagesize = 4096;
  mprotect = λ a n. true;
  heap_start = 4104;
  seg_list = λ i. 0;
  mini_list = 0;
}

small-IsBreak : IsBreak small
small-IsBreak = omega arith

extract-pack_all_example :
    (extract_size (pack_all 96 true false true) ≡ 96)
    × (extract_alloc (pack_all 96 true false true) ≡ true)
    × (extract_prev_alloc (pack_all 96 true false true) ≡ false)
    × (extract_prev_mini (pack_all 96 true false true) ≡ true)
extract-pack_all_example = extract-pack_all 96 true false true (omega arith)

write_prev_alloc_free_example : write_prev_alloc 4104 false small ≡ done tt small
write_prev_alloc_free_example = write_prev_alloc_free small 4104 (omega arith)

adjusted_size-fits_example :
    (adjusted_size 100 % 16 ≡ 0)
    × (min_block_size ≤ adjusted_size 100)
    × (100 + wsize ≤ adjusted_size 100)
    × (adjusted_size 100 < 100 + wsize + 16)
adjusted_size-fits_example = adjusted_size-fits 100 (omega arith)

adjusted_size-wraps_example :
    (adjusted_size (2 ^ 64 - 10) ≤ min_block_size)
    × (2 ^ 64 - 10 ≤ 2 ^ 64 - 8 → adjusted_size (2 ^ 64 - 10) ≡ 0)
adjusted_size-wraps_example = adjusted_size-wraps (2 ^ 64 - 10) (omega arith) (omega arith)

calloc_refuses_iff_example :
    (calloc_refuses (2 ^ 33) (2 ^ 32) ≡ false) ↔ ((2 ^ 33 ≢ 0) × (2 ^ 33 * 2 ^ 32 < 2 ^ 64))
calloc_refuses_iff_example = calloc_refuses_iff (2 ^ 33) (2 ^ 32) (omega arith) (omega arith)

mem_memcpy-IsFilled_example :
    Ends
      (λ r t. (r ≡ 5000) × IsFilled small 5000 19 (read small.bytes 6000 19) t)
      (mem_memcpy 5000 6000 19 small)
mem_memcpy-IsFilled_example =
    mem_memcpy-IsFilled small 5000 6000 19 (omega arith) (omega arith) (omega arith) (omega arith)

mem_memset-IsFilled_example :
    Ends
      (λ r t. (r ≡ 5000) × IsFilled small 5000 19 (repeat_byte (300 % 256) 19) t)
      (mem_memset 5000 300 19 small)
mem_memset-IsFilled_example = mem_memset-IsFilled small 5000 300 19 (omega arith) (omega arith)
