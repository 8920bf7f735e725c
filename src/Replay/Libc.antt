-- ===== src/Replay/Libc.antt =====
-- mdriver.c, the runs of a trace against the allocator of the C library, which is a parameter. `none`
-- is an access outside the arrays of the trace, on which a run is over.
pub mod Matched
use dynamic_memory_allocator.Base.{
  ap, ℕ, suc, ◌≤◌, ◌<◌, ◌≡◌, refl, arith, inl, inr, Bool-cases, Bool, true, false, Option, none,
  some, List, [], ◌∷◌, ◌==◌, if◌then◌else◌,
}
use dynamic_memory_allocator.Traces.{
  Trace, TraceOp, TraceOpcode, alloc_op, free_op, realloc_op, reinit_trace,
}
use dynamic_memory_allocator.Replay.{get_block, set_block, block_of, no_room}

-- The C library's allocator, on a state of its own.
pub record LibcMalloc (L : Type 0) : Type 0 where
  pub malloc : ℕ → L → ℕ × L
  pub realloc : ℕ → ℕ → L → ℕ × L
  pub free : ℕ → L → L

module _ {L : Type 0} (libc : LibcMalloc L) where
  -- The variables of `eval_libc_valid`: the arrays, the library's state, and the driver's `errors`,
  -- which `malloc_error` counts.
  pub record LibcRun : Type 0 where
    pub trace : Trace
    pub library : L
    pub errors : ℕ

  -- The run goes on with the trace as it is after an access to it.
  abbrev pub libc_noted : Option Trace → L → (errors : ℕ) → Option LibcRun
  libc_noted none l errors = none
  libc_noted (some trace) l errors = some (record { trace = trace; library = l; errors = errors })

  abbrev pub libc_moved : Option ℕ → (index size : ℕ) → LibcRun → Option LibcRun
  libc_moved none index size run = none
  libc_moved (some oldp) index size run =
      let (newp, l) = libc.realloc oldp size run.library in
      libc_noted (set_block run.trace index newp) l
        (if no_room newp size then suc run.errors else run.errors)

  abbrev pub libc_freed : Option ℕ → LibcRun → Option LibcRun
  libc_freed none run = none
  libc_freed (some p) run = some (record run { library = libc.free p run.library })

  unfoldable pub libc_request : TraceOp → LibcRun → Option LibcRun
  unfolding block_of
  libc_request op run = elim op.opcode [
    | alloc_op ↦
        let (p, l) = libc.malloc op.size run.library in
        libc_noted (set_block run.trace op.index p) l
          (if p == 0 then suc run.errors else run.errors)
    | realloc_op ↦ libc_moved (get_block run.trace op.index) op.index op.size run
    | free_op ↦ libc_freed (block_of run.trace op.index) run
  ]

  unfoldable pub libc_requests : List TraceOp → LibcRun → Option LibcRun
  unfolding libc_request
  libc_requests [] run = some run
  libc_requests (op ∷ ops) run = elim (libc_request op run) [
    | none ↦ none
    | some run1 ↦ libc_requests ops run1
  ]

  unfoldable pub eval_libc_valid : Trace → L → (errors : ℕ) → Option (Bool × LibcRun)
  unfolding libc_requests
  eval_libc_valid trace l errors =
      elim (libc_requests trace.ops
        (record { trace = reinit_trace trace; library = l; errors = errors })) [
          | none ↦ none
          | some run ↦ some (true, run)
        ]

  -- What a timed run comes to; `exits` is `unix_error`, on which the program exits.
  pub data LibcSpeed : Type 0 where
    finishes : Trace → L → LibcSpeed
    exits : LibcSpeed
    out_of_bounds : LibcSpeed

  abbrev pub speed_noted : Option Trace → L → LibcSpeed
  speed_noted none l = out_of_bounds
  speed_noted (some trace) l = finishes trace l

  abbrev pub speed_moved : Option ℕ → (index size : ℕ) → Trace → L → LibcSpeed
  speed_moved none index size trace l = out_of_bounds
  speed_moved (some oldp) index size trace l =
      let (newp, l1) = libc.realloc oldp size l in
      if no_room newp size then exits else speed_noted (set_block trace index newp) l1

  abbrev pub speed_freed : Option ℕ → Trace → L → LibcSpeed
  speed_freed none trace l = out_of_bounds
  speed_freed (some p) trace l = finishes trace (libc.free p l)

  unfoldable pub libc_speed_request : TraceOp → Trace → L → LibcSpeed
  unfolding block_of
  libc_speed_request op trace l = elim op.opcode [
    | alloc_op ↦
        let (p, l1) = libc.malloc op.size l in
        if p == 0 then exits else speed_noted (set_block trace op.index p) l1
    | realloc_op ↦ speed_moved (get_block trace op.index) op.index op.size trace l
    | free_op ↦ speed_freed (block_of trace op.index) trace l
  ]

  unfoldable pub libc_speed_requests : List TraceOp → Trace → L → LibcSpeed
  unfolding libc_speed_request
  libc_speed_requests [] trace l = finishes trace l
  libc_speed_requests (op ∷ ops) trace l = elim (libc_speed_request op trace l) [
    | finishes trace1 l1 ↦ libc_speed_requests ops trace1 l1
    | exits ↦ exits
    | out_of_bounds ↦ out_of_bounds
  ]

  unfoldable pub eval_libc_speed : Trace → L → LibcSpeed
  unfolding libc_speed_requests
  eval_libc_speed trace l = libc_speed_requests trace.ops (reinit_trace trace) l
