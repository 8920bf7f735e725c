-- ===== src/Replay/Valid.antt =====
-- mdriver.c, `eval_mm_valid`: the requests of a trace with every check of the driver.
use dynamic_memory_allocator.Base.{
  ℕ, zero, suc, ◌+◌, Bool, true, false, not, ◌&&◌, Option, none, some, List, [], ◌∷◌, length, ◌==◌,
  ltb, if◌then◌else◌,
}
use dynamic_memory_allocator.Machine.{Cmd, out_of_rounds, pure, ◌>>=◌, ◌>>◌}
use dynamic_memory_allocator.Memlib.{mem_heap_lo, mem_heap_hi}
use dynamic_memory_allocator.Traces.{Trace, TraceOp, alloc_op, free_op, realloc_op, reinit_trace}
use dynamic_memory_allocator.Ranges.{DebugMode, dbg_expensive, RangeSet, add_range, remove_range}
use dynamic_memory_allocator.Payloads.{randomize_block, check_index}
use dynamic_memory_allocator.Replay.{
  Package, no_block, with_block, with_size, within_arrays, get_block, set_block, set_block_size,
  or_fault, block_of, no_room, from_empty_heap,
}

-- What the driver says of a package: the messages stand for the answer false. The source leaves the
-- program on a failed assertion of `add_range`; a tree that needs too many rounds counts with it.
pub data Verdict : Type 0 where
  valid : (all_check : Bool) → Verdict
  mm_init_failed : Verdict
  mm_checkheap_failed : Verdict
  mm_malloc_failed : Verdict
  mm_realloc_failed : Verdict
  mm_realloc_not_null : Verdict
  bad_range : Verdict
  exited : Verdict

-- The bool that `eval_mm_valid` returns.
abbrev pub accepts : Verdict → Bool
accepts (valid all_check) = all_check
accepts _ = false

-- What the driver has besides the trace: the debug mode, the random bytes, what `random()` gives in
-- a request, and the addresses that `malloc` gives in a request for a range and its node.
pub record Session : Type 0 where
  pub debug_mode : DebugMode
  pub random_data : ℕ → ℕ
  pub random : ℕ → ℕ
  pub range_at : ℕ → ℕ
  pub node_at : ℕ → ℕ

-- The variables of the loop, or an early return.
pub data Progress : Type 0 where
  goes_on : Trace → RangeSet → (all_check : Bool) → Progress
  returns : Verdict → Progress

module _ (mm : Package) (session : Session) where
  abbrev check : Trace → ℕ → Cmd Bool
  check = check_index session.debug_mode session.random_data

  -- `add_range` between the ends of the heap as they are, in the request number `i`.
  unfoldable pub track : (i lo size index : ℕ) → RangeSet → Cmd (Option (Bool × RangeSet))
  track i lo size index ranges = do
    heap_lo ← mem_heap_lo
    heap_hi ← mem_heap_hi
    pure (
        add_range session.debug_mode heap_lo heap_hi ranges (session.range_at i) (session.node_at i)
          lo size index)

  -- The payloads of the ranges from `r` on; `k` bounds their number.
  unfoldable pub check_ranges : (k : ℕ) → Trace → RangeSet → (r : ℕ) → (all_check : Bool) → Cmd Bool
  check_ranges zero trace ranges r all_check = λ _. out_of_rounds
  check_ranges (suc k) trace ranges r all_check = if r == 0 then pure all_check else do
    intact ← check trace (ranges.ranges r).index
    check_ranges k trace ranges (ranges.ranges r).next (all_check && intact)

  -- The checks of the whole heap; `none` is that `mm_checkheap` returned false.
  unfoldable pub check_heap : Trace → RangeSet → (all_check : Bool) → Cmd (Option Bool)
  unfolding check_ranges
  check_heap trace ranges all_check = elim session.debug_mode [
    | dbg_expensive ↦ (do
      ok ← mm.mm_checkheap 0
      if not ok then pure none else do
        checked ← check_ranges (suc (length trace.ops)) trace ranges ranges.list all_check
        pure (some checked))
    | _ ↦ pure (some all_check)
  ]

  -- The end of a request for memory: the new region is remembered and filled.
  unfoldable pub remember :
      (i index p size : ℕ) → Trace → RangeSet → (all_check : Bool) → Cmd Progress
  remember i index p size trace ranges all_check = do
    trace_moved ← or_fault (set_block trace index p)
    trace_sized ← or_fault (set_block_size trace_moved index size)
    trace1 ←
        randomize_block session.debug_mode session.random_data trace_sized index (session.random i)
    pure (goes_on trace1 ranges all_check)

  unfoldable pub valid_alloc :
      (i : ℕ) → TraceOp → Trace → RangeSet → (all_check : Bool) → Cmd Progress
  unfolding track remember
  valid_alloc i op trace ranges all_check = do
    p ← mm.mm_malloc op.size
    if p == 0 then pure (returns mm_malloc_failed) else do
      added ← track i p op.size op.index ranges
      elim added [
        | none ↦ pure (returns exited)
        | some (false, _) ↦ pure (returns bad_range)
        | some (true, ranges1) ↦ remember i op.index p op.size trace ranges1 all_check
      ]

  -- The sizes when the moved payload is checked, up to the shorter of the two.
  unfoldable pub shorter_block : Trace → (index newp size : ℕ) → Trace
  shorter_block trace index newp size =
      let moved = with_block trace index newp in
      if ltb size (trace.block_sizes index) then with_size moved index size else moved

  -- The part of a `REALLOC` behind its early returns; the old range is gone.
  unfoldable pub valid_moved :
      (i : ℕ) → TraceOp → (newp : ℕ) → Trace → RangeSet → (all_check : Bool) → Cmd Progress
  unfolding track remember shorter_block
  valid_moved i op newp trace ranges all_check = do
    added ←
        (if ltb 0 op.size then track i newp op.size op.index ranges else pure (some (true, ranges)))
    elim added [
      | none ↦ pure (returns exited)
      | some (false, _) ↦ pure (returns bad_range)
      | some (true, ranges1) ↦ (do
        moved ← or_fault (within_arrays trace op.index (shorter_block trace op.index newp op.size))
        intact ← check moved op.index
        remember i op.index newp op.size moved ranges1 (all_check && intact))
    ]

  unfoldable pub valid_realloc :
      (i : ℕ) → TraceOp → Trace → RangeSet → (all_check : Bool) → Cmd Progress
  unfolding valid_moved
  valid_realloc i op trace ranges all_check = do
    intact ← check trace op.index
    oldp ← or_fault (get_block trace op.index)
    newp ← mm.mm_realloc oldp op.size
    if no_room newp op.size
        then pure (returns mm_realloc_failed)
        else if not (newp == 0) && op.size == 0
        then pure (returns mm_realloc_not_null)
        else elim (remove_range ranges oldp) [
          | none ↦ pure (returns exited)
          | some ranges1 ↦ valid_moved i op newp trace ranges1 (all_check && intact)
        ]

  -- The range of the block goes, if the request is not to free `NULL`.
  unfoldable pub untrack : (index p : ℕ) → RangeSet → Option RangeSet
  untrack index p ranges = if index == no_block then some ranges else remove_range ranges p

  unfoldable pub valid_free : TraceOp → Trace → RangeSet → (all_check : Bool) → Cmd Progress
  unfolding untrack block_of
  valid_free op trace ranges all_check = do
    intact ← check trace op.index
    p ← or_fault (block_of trace op.index)
    elim (untrack op.index p ranges) [
      | none ↦ pure (returns exited)
      | some ranges1 ↦ (do mm.mm_free p; pure (goes_on trace ranges1 (all_check && intact)))
    ]

  unfoldable pub valid_request :
      (i : ℕ) → TraceOp → Trace → RangeSet → (all_check : Bool) → Cmd Progress
  unfolding valid_alloc valid_realloc valid_free
  valid_request i op trace ranges all_check = elim op.opcode [
    | alloc_op ↦ valid_alloc i op trace ranges all_check
    | realloc_op ↦ valid_realloc i op trace ranges all_check
    | free_op ↦ valid_free op trace ranges all_check
  ]

  unfoldable pub valid_requests :
      (i : ℕ) → List TraceOp → Trace → RangeSet → (all_check : Bool) → Cmd Verdict
  unfolding check_heap valid_request
  valid_requests i [] trace ranges all_check = pure (valid all_check)
  valid_requests i (op ∷ ops) trace ranges all_check = do
    checked ← check_heap trace ranges all_check
    elim checked [
      | none ↦ pure mm_checkheap_failed
      | some all_check1 ↦ (do
        progress ← valid_request i op trace ranges all_check1
        elim progress [
          | goes_on trace1 ranges1 all_check2 ↦ valid_requests (i + 1) ops trace1 ranges1 all_check2
          | returns verdict ↦ pure verdict
        ])
    ]

  unfoldable pub valid_from : Trace → RangeSet → Cmd Verdict
  unfolding valid_requests
  valid_from trace ranges = do
    ready ← mm.mm_init
    if not ready
        then pure mm_init_failed
        else valid_requests 0 trace.ops (reinit_trace trace) ranges true

  unfoldable pub eval_mm_valid : Option (ℕ → ℕ) → Trace → RangeSet → Cmd Verdict
  unfolding valid_from
  eval_mm_valid fresh trace ranges = from_empty_heap fresh exited (valid_from trace ranges)
