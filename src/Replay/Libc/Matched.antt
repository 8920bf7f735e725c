-- ===== src/Replay/Libc/Matched.antt =====
-- `eval_libc_valid` and `eval_libc_speed`: the errors that the one counts are where the other exits.
use dynamic_memory_allocator.Base.{
  ap, ℕ, suc, ◌≤◌, ◌<◌, ◌≡◌, refl, arith, inl, inr, Bool-cases, Bool, true, false, Option, none,
  some, List, [], ◌∷◌, ◌==◌, if◌then◌else◌,
}
use dynamic_memory_allocator.Traces.{
  Trace, TraceOp, TraceOpcode, alloc_op, free_op, realloc_op, reinit_trace,
}
use dynamic_memory_allocator.Replay.{get_block, block_of, no_room}
use dynamic_memory_allocator.Replay.Libc.{
  LibcMalloc, LibcRun, libc_noted, libc_moved, libc_freed, libc_request, libc_requests,
  eval_libc_valid, LibcSpeed, finishes, exits, out_of_bounds, speed_noted, speed_moved, speed_freed,
  libc_speed_request, libc_speed_requests, eval_libc_speed,
}

module _ {L : Type 0} (libc : LibcMalloc L) where
  -- A run that is not over has counted at least `errors`.
  abbrev Counts : (errors : ℕ) → Option (LibcRun libc) → Type 0
  Counts errors none = Unit
  Counts errors (some run) = errors ≤ run.errors

  counted-ge : (failed : Bool) (e : ℕ) → e ≤ (if failed then suc e else e)
  counted-ge true e = omega arith
  counted-ge false e = omega arith

  noted-Counts :
      (trace : Option Trace) (l : L) (e errors : ℕ)
      → e ≤ errors
      → Counts e (libc_noted libc trace l errors)
  noted-Counts none l e errors h = tt
  noted-Counts (some trace) l e errors h = h

  moved-Counts :
      (found : Option ℕ) (index size : ℕ) (run : LibcRun libc)
      → Counts run.errors (libc_moved libc found index size run)
  moved-Counts none index size run = tt
  moved-Counts (some oldp) index size run =
      noted-Counts _ _ run.errors _
        (counted-ge (no_room (libc.realloc oldp size run.library).0 size) run.errors)

  freed-Counts :
      (found : Option ℕ) (run : LibcRun libc) → Counts run.errors (libc_freed libc found run)
  freed-Counts none run = tt
  freed-Counts (some p) run = omega arith

  request-Counts :
      (opcode : TraceOpcode) (lineno index size : ℕ) (run : LibcRun libc)
      → Counts run.errors (
          libc_request libc
            (record { opcode = opcode; lineno = lineno; index = index; size = size })
            run)
  unfolding libc_request
  request-Counts alloc_op lineno index size run =
      noted-Counts _ _ run.errors _ (counted-ge ((libc.malloc size run.library).0 == 0) run.errors)
  request-Counts realloc_op lineno index size run =
      moved-Counts (get_block run.trace index) index size run
  request-Counts free_op lineno index size run = freed-Counts (block_of run.trace index) run

  abbrev rest_of : List TraceOp → Option (LibcRun libc) → Option (LibcRun libc)
  rest_of ops result = elim result [ none ↦ none | some run1 ↦ libc_requests libc ops run1 ]

  Counts-rest :
      (ops : List TraceOp) (e : ℕ)
      → ((run : LibcRun libc) → Counts run.errors (libc_requests libc ops run))
      → (result : Option (LibcRun libc)) → Counts e result
      → Counts e (rest_of ops result)
  Counts-rest ops e rest none h = tt
  Counts-rest ops e rest (some run) h =
      Counts-fewer e run.errors (libc_requests libc ops run) h (rest run)
    where
      Counts-fewer :
          (e e' : ℕ) (result : Option (LibcRun libc)) → e ≤ e' → Counts e' result → Counts e result
      Counts-fewer e e' none below h = tt
      Counts-fewer e e' (some run) below h = omega arith

  requests-Counts :
      (ops : List TraceOp) (run : LibcRun libc) → Counts run.errors (libc_requests libc ops run)
  unfolding libc_requests
  requests-Counts [] run = omega arith
  requests-Counts (op ∷ ops) run =
      Counts-rest ops run.errors (requests-Counts ops) (libc_request libc op run)
        (request-Counts op.opcode op.lineno op.index op.size run)

  -- What the two runs come to: the one that is timed exits where the other counts an error or, behind
  -- that, leaves the arrays, and leaves them where the other does.
  abbrev IsMatchedRun : (errors : ℕ) → LibcSpeed libc → Option (LibcRun libc) → Type 0
  IsMatchedRun errors exits result = Counts (suc errors) result
  IsMatchedRun errors out_of_bounds result = result ≡ none
  IsMatchedRun errors (finishes trace l) result =
      result ≡ some (record { trace = trace; library = l; errors = errors })

  abbrev after_request : List TraceOp → LibcSpeed libc → LibcSpeed libc
  after_request ops result = elim result [
    | finishes trace1 l1 ↦ libc_speed_requests libc ops trace1 l1
    | exits ↦ exits
    | out_of_bounds ↦ out_of_bounds
  ]

  abbrev MatchedBy : List TraceOp → Type 0
  MatchedBy ops =
      (trace : Trace) (l : L) (errors : ℕ)
      → IsMatchedRun errors (libc_speed_requests libc ops trace l)
          (libc_requests libc ops (record { trace = trace; library = l; errors = errors }))

  -- The next request behind one that the library refused.
  refused-IsMatched :
      (ops : List TraceOp) (trace : Option Trace) (l : L) (errors : ℕ)
      → IsMatchedRun errors exits (rest_of ops (libc_noted libc trace l (suc errors)))
  refused-IsMatched ops none l errors = tt
  refused-IsMatched ops (some trace) l errors = requests-Counts ops _

  noted-IsMatched :
      (ops : List TraceOp)
      → MatchedBy ops
      → (trace : Option Trace) (l : L) (errors : ℕ)
      → IsMatchedRun errors
          (after_request ops (speed_noted libc trace l))
          (rest_of ops (libc_noted libc trace l errors))
  noted-IsMatched ops rest none l errors = refl
  noted-IsMatched ops rest (some trace) l errors = rest trace l errors

  moved-IsMatched :
      (ops : List TraceOp)
      → MatchedBy ops
      → (found : Option ℕ) (index size : ℕ) (trace : Trace) (l : L) (errors : ℕ)
      → IsMatchedRun errors (after_request ops (speed_moved libc found index size trace l)) (
          rest_of ops (
            libc_moved libc found index size
              (record { trace = trace; library = l; errors = errors })))
  moved-IsMatched ops rest none index size trace l errors = refl
  moved-IsMatched ops rest (some oldp) index size trace l errors =
      elim (Bool-cases (no_room (libc.realloc oldp size l).0 size)) [
        | inl full ↦ rw full (refused-IsMatched ops _ _ errors)
        | inr given ↦ rw given (noted-IsMatched ops rest _ _ errors)
      ]

  freed-IsMatched :
      (ops : List TraceOp)
      → MatchedBy ops
      → (found : Option ℕ) (trace : Trace) (l : L) (errors : ℕ)
      → IsMatchedRun errors (after_request ops (speed_freed libc found trace l)) (
          rest_of ops
            (libc_freed libc found (record { trace = trace; library = l; errors = errors })))
  freed-IsMatched ops rest none trace l errors = refl
  freed-IsMatched ops rest (some p) trace l errors = rest trace (libc.free p l) errors

  request-IsMatched :
      (ops : List TraceOp)
      → MatchedBy ops
      → (opcode : TraceOpcode) (lineno index size : ℕ) (trace : Trace) (l : L) (errors : ℕ)
      → (let op : TraceOp = record {
        opcode = opcode;
        lineno = lineno;
        index = index;
        size = size;
      } in
          IsMatchedRun errors (after_request ops (libc_speed_request libc op trace l)) (
            rest_of ops
              (libc_request libc op (record { trace = trace; library = l; errors = errors }))))
  unfolding libc_request libc_speed_request
  request-IsMatched ops rest alloc_op lineno index size trace l errors =
      elim (Bool-cases ((libc.malloc size l).0 == 0)) [
        | inl null ↦ rw null (refused-IsMatched ops _ _ errors)
        | inr given ↦ rw given (noted-IsMatched ops rest _ _ errors)
      ]
  request-IsMatched ops rest realloc_op lineno index size trace l errors =
      moved-IsMatched ops rest (get_block trace index) index size trace l errors
  request-IsMatched ops rest free_op lineno index size trace l errors =
      freed-IsMatched ops rest (block_of trace index) trace l errors

  requests-IsMatched : (ops : List TraceOp) → MatchedBy ops
  unfolding libc_requests libc_speed_requests
  requests-IsMatched [] trace l errors = refl
  requests-IsMatched (op ∷ ops) trace l errors =
      request-IsMatched ops (requests-IsMatched ops) op.opcode op.lineno op.index op.size trace l
        errors

  -- The same with the answer of `eval_libc_valid`, which is true.
  abbrev pub IsMatched : (errors : ℕ) → LibcSpeed libc → Option (Bool × LibcRun libc) → Type 0
  IsMatched errors exits none = Unit
  IsMatched errors exits (some (valid, run)) = (valid ≡ true) × (errors < run.errors)
  IsMatched errors out_of_bounds result = result ≡ none
  IsMatched errors (finishes trace l) result =
      result ≡ some (true, record { trace = trace; library = l; errors = errors })

  abbrev valid_run : Option (LibcRun libc) → Option (Bool × LibcRun libc)
  valid_run result = elim result [ none ↦ none | some run ↦ some (true, run) ]

  matched :
      (errors : ℕ) (speed : LibcSpeed libc) (result : Option (LibcRun libc))
      → IsMatchedRun errors speed result
      → IsMatched errors speed (valid_run result)
  matched errors exits none h = tt
  matched errors exits (some run) h = (refl, omega arith)
  matched errors out_of_bounds result h = ap valid_run h
  matched errors (finishes trace l) result h = ap valid_run h

  -- `eval_libc_valid` and `eval_libc_speed` on any library and trace. Where `eval_libc_speed` gets to its
  -- end, so does `eval_libc_valid`, with the same blocks, the same state of the library and no error
  -- counted. Where it exits, the other counts an error, and still answers true, unless it leaves the
  -- arrays of the trace later on. Where it leaves them, so does the other.
  pub eval_libc_valid-eval_libc_speed :
      (trace : Trace) (l : L) (errors : ℕ)
      → IsMatched errors (eval_libc_speed libc trace l) (eval_libc_valid libc trace l errors)
  unfolding eval_libc_valid eval_libc_speed
  eval_libc_valid-eval_libc_speed trace l errors =
      matched errors (eval_libc_speed libc trace l) _
        (requests-IsMatched trace.ops (reinit_trace trace) l errors)
