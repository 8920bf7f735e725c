-- ===== src/Tests/Replays.antt =====
-- A short trace run by the driver on both allocators, and the theorems on such runs.
use dynamic_memory_allocator.Base.{
  ℕ, ◌+◌, ◌^◌, ◌≤◌, ◌≡◌, ◌⊎◌, refl, true, Option, none, some, List, [], ◌∷◌, arith, ltb,
  if◌then◌else◌,
}
use dynamic_memory_allocator.Machine.{State, Run, done, fault, out_of_rounds, set_byte, read, write}
use dynamic_memory_allocator.Machine.Ends.{Ends}
use dynamic_memory_allocator.Memlib.{
  max_dense_heap, mem_reset_brk, mem_sbrk, store, load, mem_heapsize, mem_read, mem_write,
  mem_memcpy, memcpy_loop, round_address_up,
}
use dynamic_memory_allocator.Block.{
  round_up, get_prev_alloc, payload_to_header, get_prev_mini, write_pack, header_to_footer,
  extract_size, pack_all, extract_prev_mini, extract_prev_alloc, extract_alloc, find_next,
  find_prev, find_prev_footer, footer_to_header, get_alloc, get_size, header_to_payload,
  is_mini_block, max, write_epilogue, write_prev_alloc,
}
use dynamic_memory_allocator.FreeList.{
  after_fit, find_class, find_fit, insert_free, insert_mini, insert_seg, is_head, remove_free,
  remove_mini, remove_mini_loop, remove_seg, rounds, search_class, search_from,
}
use dynamic_memory_allocator.Allocator.{
  malloc, realloc, free, mm_init, extend_heap, adjusted_size, coalesce_block, split_block,
}
use dynamic_memory_allocator.Naive
use dynamic_memory_allocator.Traces.{
  Trace, TraceOp, alloc_op, free_op, realloc_op, wall, reinit_trace,
}
use dynamic_memory_allocator.Ranges.{RangeSet}
use dynamic_memory_allocator.Replay.{
  no_block, block_of, eval_mm_util, eval_mm_speed, util_request, util_requests,
}
use dynamic_memory_allocator.Replay.Valid.{
  valid, mm_init_failed, mm_malloc_failed, mm_realloc_failed, eval_mm_valid,
}
use dynamic_memory_allocator.Replay.Live.{
  Proper, ended, allocs, reallocs, reallocs_away, frees, frees_null,
}
use dynamic_memory_allocator.Replay.Held.{peak_of, drop_id}
use dynamic_memory_allocator.Replay.Packages.{mm, mm_naive, IsMapped}
use dynamic_memory_allocator.Replay.Judged.{quick}
use dynamic_memory_allocator.Replay.Accepted.{eval_mm_valid-accepts}
use dynamic_memory_allocator.Replay.Utilization.{eval_mm_util-lt}
use dynamic_memory_allocator.Replay.Libc.{LibcMalloc, eval_libc_valid, eval_libc_speed}
use dynamic_memory_allocator.Replay.Libc.Matched.{IsMatched, eval_libc_valid-eval_libc_speed}
use dynamic_memory_allocator.Replay.Timed.{answered, eval_mm_util-eval_mm_speed}

abbrev mapped_state : State
mapped_state = record {
  bytes = λ a. 0;
  heap = 2 ^ 35;
  mem_brk = 2 ^ 35;
  mem_brk_chunk = 2 ^ 35;
  mem_max_addr = 2 ^ 35 + max_dense_heap;
  pagesize = 4096;
  mprotect = λ a n. true;
  heap_start = 0;
  seg_list = λ i. 0;
  mini_list = 0;
}

mapped : IsMapped mapped_state
mapped = record {
  some_heap = omega arith;
  aligned = refl;
  ordered = omega arith;
  small = omega arith;
  beyond = λ c h. refl;
}

abbrev content : ℕ → ℕ
content a = 0

abbrev request_alloc : (index size : ℕ) → TraceOp
request_alloc index size = record { opcode = alloc_op; lineno = 5; index = index; size = size }

abbrev request_realloc : (index size : ℕ) → TraceOp
request_realloc index size = record { opcode = realloc_op; lineno = 7; index = index; size = size }

abbrev request_free : ℕ → TraceOp
request_free index = record { opcode = free_op; lineno = 8; index = index; size = 0 }

abbrev requests : List TraceOp
requests =
    request_alloc 0 100
    ∷ request_alloc 1 8
    ∷ request_realloc 0 200
    ∷ request_free 1
    ∷ request_free no_block
    ∷ request_realloc 0 0
    ∷ []

abbrev two_blocks : Trace
two_blocks = record {
  data_bytes = 308;
  num_ids = 2;
  num_ops = 6;
  weight = wall;
  ops = requests;
  blocks = λ i. 0;
  block_sizes = λ i. 0;
  block_rand_base = λ i. 0;
}

proper : Proper 2 [] requests
proper = allocs 5 0 100 tt (omega arith) (omega arith) (omega arith) (
    allocs 5 1 8 (omega arith, tt) (omega arith) (omega arith) (omega arith)
      (reallocs (1 ∷ []) 0 [] 7 200 (omega arith) (omega arith)
        (frees (0 ∷ []) 1 [] 8 0 (frees_null 8 0 (reallocs_away [] 0 [] 7 ended)))))

abbrev no_ranges : RangeSet
no_ranges = record {
  ranges = λ i. record { lo = 0; hi = 0; index = 0; next = 0; prev = 0 };
  list = 0;
  lo_tree = record {
    nodes = λ i. record { left = 0; right = 0; parent = 0; key = 0; user_record = 0 };
    root = 0;
    node_count = 0;
    comparison_count = 0;
  };
}

eval_mm_valid-accepts_example :
    Ends
      (λ v t.
        (v ≡ valid true)
        ⊎ ((v ≡ mm_init_failed) ⊎ ((v ≡ mm_malloc_failed) ⊎ (v ≡ mm_realloc_failed))))
      (eval_mm_valid mm
        (quick (λ i. 0) (λ i. 0) (λ i. 0) (λ i. 0))
        (some content)
        two_blocks
        no_ranges
        mapped_state)
eval_mm_valid-accepts_example =
    eval_mm_valid-accepts (λ i. 0) (λ i. 0) (λ i. 0) (λ i. 0) mapped_state mapped content two_blocks
      no_ranges proper refl

eval_mm_util-lt_example :
    Ends
      (λ r t.
        (r ≡ none)
        ⊎ ((peak : ℕ) × (size : ℕ) × (r ≡ some (peak, size))
            × (peak ≡ peak_of requests [])
            × (peak + 16 ≤ size)
            × (size + t.heap ≡ t.mem_brk)))
      (eval_mm_util mm (some content) two_blocks mapped_state)
eval_mm_util-lt_example = eval_mm_util-lt mapped_state mapped content two_blocks proper

eval_mm_util-eval_mm_speed_example :
    answered (eval_mm_util mm_naive (some content) two_blocks mapped_state)
    ≡ eval_mm_speed mm_naive (some content) two_blocks mapped_state
eval_mm_util-eval_mm_speed_example =
    eval_mm_util-eval_mm_speed mm_naive (some content) two_blocks mapped_state

abbrev answer : {A : Type 0} → Run A → Option A
answer (done a s) = some a
answer fault = none
answer out_of_rounds = none

-- At the peak, blocks of 200 and 8 bytes are in use.
util_run : answer (eval_mm_util mm (some content) two_blocks mapped_state) ≡ some (some (208, 4112))
unfolding eval_mm_util mem_reset_brk malloc realloc free mm_init mem_sbrk store extend_heap round_up
    get_prev_alloc load payload_to_header get_prev_mini write_pack header_to_footer extract_size
    read write pack_all extract_prev_mini extract_prev_alloc adjusted_size coalesce_block
    split_block extract_alloc find_next find_prev find_prev_footer footer_to_header get_alloc
    get_size header_to_payload is_mini_block max write_epilogue write_prev_alloc after_fit
    find_class find_fit insert_free insert_mini insert_seg is_head remove_free remove_mini
    remove_mini_loop remove_seg rounds search_class search_from set_byte mem_heapsize mem_read
    mem_write round_address_up mem_memcpy memcpy_loop block_of reinit_trace util_requests
    util_request
util_run = refl

naive_run : answer (eval_mm_speed mm_naive (some content) two_blocks mapped_state) ≡ some true
unfolding eval_mm_speed mem_reset_brk Naive.malloc Naive.realloc Naive.free Naive.mm_init mem_sbrk
    store load Naive.roundup read write set_byte Naive.payload_to_header Naive.header_to_payload
    mem_read mem_write round_address_up mem_memcpy memcpy_loop block_of reinit_trace
naive_run = refl

-- The requests hold as much at once.
util_peak : peak_of requests [] ≡ 208
unfolding drop_id
util_peak = refl

-- An id that the arrays have no entry for.
abbrev no_entries : Trace
no_entries = record two_blocks { num_ids = 0 }

outside_run : eval_mm_speed mm_naive (some content) no_entries mapped_state ≡ fault
unfolding eval_mm_speed mem_reset_brk Naive.malloc Naive.realloc Naive.free Naive.mm_init mem_sbrk
    store load Naive.roundup read write set_byte Naive.payload_to_header Naive.header_to_payload
    mem_read mem_write round_address_up mem_memcpy memcpy_loop block_of reinit_trace
outside_run = refl

-- A library that gives the address that its state holds, for sizes up to 64.
abbrev small_libc : LibcMalloc ℕ
small_libc = record {
  malloc = λ size next. if ltb 64 size then (0, next) else (next, next + 64);
  realloc = λ p size next. if ltb 64 size then (0, next) else (next, next + 64);
  free = λ p next. next;
}

eval_libc_valid-eval_libc_speed_example :
    IsMatched small_libc 0
      (eval_libc_speed small_libc two_blocks 4096)
      (eval_libc_valid small_libc two_blocks 4096 0)
eval_libc_valid-eval_libc_speed_example =
    eval_libc_valid-eval_libc_speed small_libc two_blocks 4096 0
