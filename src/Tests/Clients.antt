-- ===== src/Tests/Clients.antt =====
-- The theorems on a client of the allocator applied to a run of `mm_init` and `malloc`.
use dynamic_memory_allocator.Base.{◌*◌, ◌⊎◌, ◌+◌, ◌^◌, ◌≡◌, refl, arith, true, [], ◌∷◌}
use dynamic_memory_allocator.Machine.{State, Run, done, fault, out_of_rounds, set_byte, read, write}
use dynamic_memory_allocator.Machine.Ends.{Ends}
use dynamic_memory_allocator.Memlib.{
  max_dense_heap, mem_sbrk, store, load, mem_heapsize, mem_read, mem_write, round_address_up,
}
use dynamic_memory_allocator.Block.{
  null, round_up, get_prev_alloc, payload_to_header, get_prev_mini, write_pack, header_to_footer,
  extract_size, pack_all, extract_prev_mini, extract_prev_alloc, extract_alloc, find_next,
  find_prev, find_prev_footer, footer_to_header, get_alloc, get_size, header_to_payload,
  is_mini_block, max, write_epilogue, write_prev_alloc,
}
use dynamic_memory_allocator.FreeList.{
  after_fit, find_class, find_fit, insert_free, insert_mini, insert_seg, is_head, remove_free,
  remove_mini, remove_mini_loop, remove_seg, rounds, search_class, search_from,
}
use dynamic_memory_allocator.Allocator.{
  malloc, realloc, calloc, mm_init, extend_heap, adjusted_size, coalesce_block, split_block,
}
use dynamic_memory_allocator.Check.{mm_checkheap}
use dynamic_memory_allocator.Check.Reached.{Reaches-mm_checkheap}
use dynamic_memory_allocator.Heap.Begin.{IsFresh, IsBegun, mm_init-IsBegun}
use dynamic_memory_allocator.Heap.Served.{Grant, IsServed}
use dynamic_memory_allocator.Heap.Cleared.{calloc-IsServed}
use dynamic_memory_allocator.Heap.Move.{IsMoved, realloc-IsMoved}
use dynamic_memory_allocator.Heap.Client.{
  Reaches, begins, calls, gets, Reaches-IsServed, Pairwise, Reaches-Pairwise,
}

abbrev fresh_state : State
fresh_state = record {
  bytes = λ a. 0;
  heap = 2 ^ 35;
  mem_brk = 2 ^ 35;
  mem_brk_chunk = 2 ^ 35;
  mem_max_addr = 2 ^ 35 + max_dense_heap;
  pagesize = 4096;
  mprotect = λ a n. true;
  heap_start = 0;
  seg_list = λ i. 0;
  mini_list = 0;
}

fresh : IsFresh fresh_state
fresh = record {
  some_heap = omega arith;
  empty = refl;
  aligned = refl;
  limits = record { ordered = omega arith; bounded = omega arith; small = omega arith };
  beyond = λ c h. refl;
}

mm_init-IsBegun_example : Ends (IsBegun fresh_state) (mm_init fresh_state)
mm_init-IsBegun_example = mm_init-IsBegun fresh_state fresh

abbrev after : {A : Type 0} → Run A → State
after (done a s) = s
after fault = fresh_state
after out_of_rounds = fresh_state

ready : State
ready = after (mm_init fresh_state)

one_given : State
one_given = after (malloc 8 ready)

two_given : State
two_given = after (malloc 100 one_given)

init_run : mm_init fresh_state ≡ done true ready
unfolding ready one_given two_given malloc mm_init mem_sbrk store extend_heap round_up
    get_prev_alloc load payload_to_header get_prev_mini write_pack header_to_footer extract_size
    read write pack_all extract_prev_mini extract_prev_alloc adjusted_size coalesce_block
    split_block extract_alloc find_next find_prev find_prev_footer footer_to_header get_alloc
    get_size header_to_payload is_mini_block max write_epilogue write_prev_alloc after_fit
    find_class find_fit insert_free insert_mini insert_seg is_head remove_free remove_mini
    remove_mini_loop remove_seg rounds search_class search_from set_byte mem_heapsize mem_read
    mem_write round_address_up
init_run = refl

first_run : malloc 8 ready ≡ done (2 ^ 35 + 16) one_given
unfolding ready one_given two_given malloc mm_init mem_sbrk store extend_heap round_up
    get_prev_alloc load payload_to_header get_prev_mini write_pack header_to_footer extract_size
    read write pack_all extract_prev_mini extract_prev_alloc adjusted_size coalesce_block
    split_block extract_alloc find_next find_prev find_prev_footer footer_to_header get_alloc
    get_size header_to_payload is_mini_block max write_epilogue write_prev_alloc after_fit
    find_class find_fit insert_free insert_mini insert_seg is_head remove_free remove_mini
    remove_mini_loop remove_seg rounds search_class search_from set_byte mem_heapsize mem_read
    mem_write round_address_up
first_run = refl

second_run : malloc 100 one_given ≡ done (2 ^ 35 + 32) two_given
unfolding ready one_given two_given malloc mm_init mem_sbrk store extend_heap round_up
    get_prev_alloc load payload_to_header get_prev_mini write_pack header_to_footer extract_size
    read write pack_all extract_prev_mini extract_prev_alloc adjusted_size coalesce_block
    split_block extract_alloc find_next find_prev find_prev_footer footer_to_header get_alloc
    get_size header_to_payload is_mini_block max write_epilogue write_prev_alloc after_fit
    find_class find_fit insert_free insert_mini insert_seg is_head remove_free remove_mini
    remove_mini_loop remove_seg rounds search_class search_from set_byte mem_heapsize mem_read
    mem_write round_address_up
second_run = refl

abbrev first_grant : Grant
first_grant = record { payload = 2 ^ 35 + 16; size = 8 }

abbrev second_grant : Grant
second_grant = record { payload = 2 ^ 35 + 32; size = 100 }

two_reached : Reaches two_given (second_grant ∷ first_grant ∷ [])
two_reached =
    calls
      (calls (begins fresh_state fresh init_run)
        (gets 8 (2 ^ 35 + 16) (omega arith) first_run (omega arith)))
      (gets 100 (2 ^ 35 + 32) (omega arith) second_run (omega arith))

Reaches-IsServed_example : IsServed two_given (second_grant ∷ first_grant ∷ [])
Reaches-IsServed_example = Reaches-IsServed two_given (second_grant ∷ first_grant ∷ []) two_reached

Reaches-Pairwise_example : Pairwise (second_grant ∷ first_grant ∷ [])
Reaches-Pairwise_example = Reaches-Pairwise two_given (second_grant ∷ first_grant ∷ []) two_reached

realloc-IsMoved_example :
    Ends (IsMoved two_given (second_grant ∷ []) [] 300) (realloc (2 ^ 35 + 16) 300 two_given)
realloc-IsMoved_example =
    realloc-IsMoved two_given (second_grant ∷ []) first_grant []
      (Reaches-IsServed two_given (second_grant ∷ first_grant ∷ []) two_reached) 300 (omega arith)

calloc-IsServed_example :
    Ends
      (λ r t.
        ((r ≡ null) × (t ≡ two_given))
        ⊎ (IsServed t (record { payload = r; size = 5 * 20 } ∷ second_grant ∷ first_grant ∷ [])
            × (read t.bytes r (5 * 20) ≡ 0)))
      (calloc 5 20 two_given)
calloc-IsServed_example =
    calloc-IsServed two_given (second_grant ∷ first_grant ∷ [])
      (Reaches-IsServed two_given (second_grant ∷ first_grant ∷ []) two_reached) 5 20 (omega arith)

Reaches-mm_checkheap_example : mm_checkheap two_given ≡ done true two_given
Reaches-mm_checkheap_example =
    Reaches-mm_checkheap two_given (second_grant ∷ first_grant ∷ []) two_reached
