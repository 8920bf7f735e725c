-- ===== src/Replay.antt =====
-- mdriver.c, the functions that run the requests of a trace against an allocator: for correctness,
-- for utilization and for time, and against the allocator of the C library.
pub mod Valid
pub mod Live
pub mod Packages
pub mod Judged
pub mod Accepted
pub mod Held
pub mod Counted
pub mod Utilization
pub mod Timed
pub mod Libc
use dynamic_memory_allocator.Base.{
  ℕ, zero, suc, ◌+◌, Bool, true, false, not, ◌&&◌, ◌||◌, Option, none, some, List, [], ◌∷◌, ◌==◌,
  ltb, if◌then◌else◌, add64, sub64,
}
use dynamic_memory_allocator.Machine.{State, Cmd, done, fault, out_of_rounds, pure, ◌>>=◌, ◌>>◌}
use dynamic_memory_allocator.Memlib.{mem_reset_brk, mem_heap_lo, mem_heap_hi, mem_heapsize}
use dynamic_memory_allocator.Traces.{
  Trace, TraceOp, TraceOpcode, alloc_op, free_op, realloc_op, reinit_trace,
}
use dynamic_memory_allocator.Ranges.{
  DebugMode, dbg_none, dbg_cheap, dbg_expensive, RangeSet, add_range, remove_range,
}
use dynamic_memory_allocator.Payloads.{randomize_block, check_index}

-- The operations that the driver is linked with, of mm.c or of mm-naive.c.
pub record Package : Type 0 where
  pub mm_init : Cmd Bool
  pub mm_malloc : ℕ → Cmd ℕ
  pub mm_free : ℕ → Cmd (Unit {0})
  pub mm_realloc : ℕ → ℕ → Cmd ℕ
  pub mm_checkheap : ℕ → Cmd Bool

-- The index -1 of a request to free `NULL`.
abbrev pub no_block : ℕ
no_block = 0xffffffff

abbrev pub with_block : Trace → (index p : ℕ) → Trace
with_block trace index p = record trace { blocks = λ i. if i == index then p else trace.blocks i }

abbrev pub with_size : Trace → (index size : ℕ) → Trace
with_size trace index size = record trace {
  block_sizes = λ i. if i == index then size else trace.block_sizes i;
}

-- An access to the arrays of a trace, which have `num_ids` entries: `none` is an access outside them.
abbrev pub within_arrays : {A : Type 0} → Trace → (index : ℕ) → A → Option A
within_arrays trace index a = if ltb index trace.num_ids then some a else none

-- `trace->blocks[index]`
abbrev pub get_block : Trace → (index : ℕ) → Option ℕ
get_block trace index = within_arrays trace index (trace.blocks index)

-- `trace->blocks[index] = p`
abbrev pub set_block : Trace → (index p : ℕ) → Option Trace
set_block trace index p = within_arrays trace index (with_block trace index p)

-- `trace->block_sizes[index] = size`
abbrev pub set_block_size : Trace → (index size : ℕ) → Option Trace
set_block_size trace index size = within_arrays trace index (with_size trace index size)

-- The address that a request to free stands for.
unfoldable pub block_of : Trace → ℕ → Option ℕ
block_of trace index = if index == no_block then some 0 else get_block trace index

-- An access outside the arrays is a fault of the driver.
abbrev pub or_fault : {A : Type 0} → Option A → Cmd A
or_fault none = λ s. fault
or_fault (some a) = pure a

-- A run of the package that the program leaves by `exit` in `mem_reset_brk` gives `exited`.
abbrev pub from_empty_heap : {A : Type 0} → Option (ℕ → ℕ) → A → Cmd A → Cmd A
from_empty_heap fresh exited run s = elim (mem_reset_brk fresh s) [
  | none ↦ done exited s
  | some s1 ↦ run s1
]

-- `newp == NULL && newsize != 0`
abbrev pub no_room : (newp newsize : ℕ) → Bool
no_room newp newsize = newp == 0 && not (newsize == 0)

-- `max_total_size` with what `mem_heapsize` gives.
unfoldable pub measured : Option ℕ → Cmd (Option (ℕ × ℕ))
measured none = pure none
measured (some max_total_size) = do size ← mem_heapsize; pure (some (max_total_size, size))

-- The functions that measure: `none` is `app_error`, on which the program exits. The sizes are read
-- behind an access to `blocks` with the same index. `setUBCheck` has no
-- effect in the dense mode of the memory system.
module _ (mm : Package) where
  -- One round of the loop of `eval_mm_util`: the arrays, and `total_size`.
  unfoldable pub util_request : TraceOp → Trace → (total_size : ℕ) → Cmd (Option (Trace × ℕ))
  unfolding block_of
  util_request op trace total_size = elim op.opcode [
    | alloc_op ↦ (do
      p ← mm.mm_malloc op.size
      if p == 0 then pure none else (do
        trace1 ← or_fault (set_block trace op.index p)
        trace2 ← or_fault (set_block_size trace1 op.index op.size)
        pure (some (trace2, add64 total_size op.size))))
    | realloc_op ↦ (do
      oldp ← or_fault (get_block trace op.index)
      newp ← mm.mm_realloc oldp op.size
      if no_room newp op.size then pure none else (do
        trace1 ← or_fault (set_block trace op.index newp)
        trace2 ← or_fault (set_block_size trace1 op.index op.size)
        pure (some (trace2, add64 total_size (sub64 op.size (trace.block_sizes op.index))))))
    | free_op ↦ (do
      p ← or_fault (block_of trace op.index)
      mm.mm_free p
      pure (
          some (
            trace,
            sub64 total_size (if op.index == no_block then 0 else trace.block_sizes op.index),
          )))
  ]

  -- The loop, which gives `max_total_size`.
  unfoldable pub util_requests :
      List TraceOp → Trace → (total_size max_total_size : ℕ) → Cmd (Option ℕ)
  util_requests [] trace total_size max_total_size = pure (some max_total_size)
  util_requests (op ∷ ops) trace total_size max_total_size = do
    result ← util_request op trace total_size
    elim result [
      | none ↦ pure none
      | some (trace1, total) ↦
          util_requests ops trace1 total
            (if ltb max_total_size total then total else max_total_size)
    ]

  -- The two sides of the ratio: `max_total_size` and what `mem_heapsize` gives.
  unfoldable pub util_from : Trace → Cmd (Option (ℕ × ℕ))
  unfolding util_requests measured
  util_from trace = do
    ready ← mm.mm_init
    if not ready
        then pure none
        else do result ← util_requests trace.ops (reinit_trace trace) 0 0; measured result

  unfoldable pub eval_mm_util : Option (ℕ → ℕ) → Trace → Cmd (Option (ℕ × ℕ))
  unfolding util_from
  eval_mm_util fresh trace = from_empty_heap fresh none (util_from trace)

  -- One round of the loop of `eval_mm_speed`.
  unfoldable pub speed_request : TraceOp → Trace → Cmd (Option Trace)
  unfolding block_of
  speed_request op trace = elim op.opcode [
    | alloc_op ↦ (do
      p ← mm.mm_malloc op.size
      if p == 0
          then pure none
          else (do trace1 ← or_fault (set_block trace op.index p); pure (some trace1)))
    | realloc_op ↦ (do
      oldp ← or_fault (get_block trace op.index)
      newp ← mm.mm_realloc oldp op.size
      if no_room newp op.size
          then pure none
          else (do trace1 ← or_fault (set_block trace op.index newp); pure (some trace1)))
    | free_op ↦ (do p ← or_fault (block_of trace op.index); mm.mm_free p; pure (some trace))
  ]

  -- The answer is whether the loop gets to its end.
  unfoldable pub speed_requests : List TraceOp → Trace → Cmd Bool
  unfolding speed_request
  speed_requests [] trace = pure true
  speed_requests (op ∷ ops) trace = do
    result ← speed_request op trace
    elim result [ none ↦ pure false | some trace1 ↦ speed_requests ops trace1 ]

  unfoldable pub speed_from : Trace → Cmd Bool
  unfolding speed_requests
  speed_from trace = do
    ready ← mm.mm_init
    if not ready then pure false else speed_requests trace.ops (reinit_trace trace)

  unfoldable pub eval_mm_speed : Option (ℕ → ℕ) → Trace → Cmd Bool
  unfolding speed_from
  eval_mm_speed fresh trace = from_empty_heap fresh false (speed_from trace)
