-- ===== src/Replay/Accepted.antt =====
-- mm.c under `eval_mm_valid` without debugging: on a proper trace the driver accepts it, or one of
-- `mm_init`, `mm_malloc` and `mm_realloc` gives `NULL` or false.
use mathlib.Core.Path.{}
use dynamic_memory_allocator.Base.{
  ℕ, ◌+◌, ◌≡◌, ◌⊎◌, refl, true, some, List, [], ◌∷◌, ◌++◌, inl, inr,
}
use dynamic_memory_allocator.Machine.{State, Cmd, pure}
use dynamic_memory_allocator.Machine.Ends.{Ends, ends, Ends-continue}
use dynamic_memory_allocator.Memlib.{}
use dynamic_memory_allocator.Tree.{}
use dynamic_memory_allocator.Traces.{Trace, TraceOp, alloc_op, reinit_trace}
use dynamic_memory_allocator.Ranges.{RangeSet}
use dynamic_memory_allocator.Payloads.{}
use dynamic_memory_allocator.Allocator.{}
use dynamic_memory_allocator.Heap.Served.{}
use dynamic_memory_allocator.Heap.Move.{}
use dynamic_memory_allocator.Heap.Room.{}
use dynamic_memory_allocator.Replay.{}
use dynamic_memory_allocator.Replay.Valid.{
  Verdict, valid, mm_init_failed, mm_malloc_failed, mm_realloc_failed, Progress, goes_on, returns,
  check_heap, valid_request, valid_requests, valid_from, eval_mm_valid,
}
use dynamic_memory_allocator.Replay.Packages.{
  mm, IsMapped, from_empty_heap-IsServed, mm_init-IsServed,
}
use dynamic_memory_allocator.Replay.Judged.{
  IsBlank, quick, IsGoing, valid_alloc-IsGoing, valid_free-null, valid_free-IsGoing,
  valid_realloc-IsGoing, valid_realloc-away,
}
use dynamic_memory_allocator.Replay.Live.{
  Proper, ended, allocs, reallocs, reallocs_away, frees, frees_null, IsReplayed,
}

-- No fault is found, or a request was refused.
abbrev IsFullOr : Verdict → Verdict → Type 0
IsFullOr verdict v =
    (v ≡ verdict) ⊎ ((v ≡ mm_init_failed) ⊎ ((v ≡ mm_malloc_failed) ⊎ (v ≡ mm_realloc_failed)))

module _ (random_data random range_at node_at : ℕ → ℕ) where
  -- The rest of the loop, when one request went well or was refused.
  abbrev resumed : (i : ℕ) → List TraceOp → Progress → Cmd Verdict
  resumed i ops progress = elim progress [
    | goes_on trace ranges all_check ↦
        valid_requests mm (quick random_data random range_at node_at) (i + 1) ops trace ranges
          all_check
    | returns verdict ↦ pure verdict
  ]

  abbrev Finds : Verdict → State → Type 0
  Finds v t = IsFullOr (valid true) v

  resumed-IsFullOr :
      (n i : ℕ) (live : List ℕ) (ops : List TraceOp)
      → ((s : State) (trace : Trace) (ranges : RangeSet)
          → IsBlank ranges
          → IsReplayed n trace live s
          → Ends Finds (
              valid_requests mm
                (quick random_data random range_at node_at)
                (i + 1)
                ops
                trace
                ranges
                true
                s))
      → (progress : Progress) (t : State) → IsGoing n live progress t
      → Ends Finds (resumed i ops progress t)
  resumed-IsFullOr n i live ops rest (goes_on trace ranges all_check) t (blank, h, same) =
      rw same (rest t trace ranges blank h)
  resumed-IsFullOr n i live ops rest (returns v) t full = ends (inr (inr full))

  valid_requests-IsFullOr :
      (n i : ℕ) (live : List ℕ) (ops : List TraceOp)
      → Proper n live ops
      → (s : State) (trace : Trace) (ranges : RangeSet) → IsBlank ranges
      → IsReplayed n trace live s
      → Ends Finds
          (valid_requests mm (quick random_data random range_at node_at) i ops trace ranges true s)
  unfolding valid_requests check_heap valid_request
  valid_requests-IsFullOr n i live _ ended s trace ranges blank h = ends (inl refl)
  valid_requests-IsFullOr n i live _
        (allocs {ops = ops} lineno index size other some_block inside small proper) s trace ranges
        blank h =
      Ends-continue
        (valid_alloc-IsGoing random_data random range_at node_at s trace ranges blank i live
          (record { opcode = alloc_op; lineno = lineno; index = index; size = size }) h other
          (some_block, inside) small)
        (resumed-IsFullOr n i (index ∷ live) ops
          (valid_requests-IsFullOr n (i + 1) (index ∷ live) ops proper))
  valid_requests-IsFullOr n i _ _
        (reallocs {ops = ops} before index after lineno size some_bytes small proper) s trace ranges
        blank h =
      Ends-continue
        (valid_realloc-IsGoing random_data random range_at node_at s trace ranges blank i before
          index after h lineno size some_bytes small)
        (resumed-IsFullOr n i (index ∷ before ++ after) ops
          (valid_requests-IsFullOr n (i + 1) (index ∷ before ++ after) ops proper))
  valid_requests-IsFullOr n i _ _ (reallocs_away {ops = ops} before index after lineno proper) s
        trace ranges blank h =
      Ends-continue
        (valid_realloc-away random_data random range_at node_at s trace ranges blank i before index
          after h lineno)
        (resumed-IsFullOr n i (before ++ after) ops
          (valid_requests-IsFullOr n (i + 1) (before ++ after) ops proper))
  valid_requests-IsFullOr n i _ _ (frees {ops = ops} before index after lineno size proper) s trace
        ranges blank h =
      Ends-continue
        (valid_free-IsGoing random_data random range_at node_at s trace ranges blank i before index
          after h lineno size)
        (resumed-IsFullOr n i (before ++ after) ops
          (valid_requests-IsFullOr n (i + 1) (before ++ after) ops proper))
  valid_requests-IsFullOr n i live _ (frees_null {ops = ops} lineno size proper) s trace ranges
        blank h =
      Ends-continue
        (valid_free-null random_data random range_at node_at s trace ranges blank i live lineno size
          h)
        (resumed-IsFullOr n i live ops (valid_requests-IsFullOr n (i + 1) live ops proper))

  -- `eval_mm_valid` without debugging, on mm.c and a proper trace (`Proper`), from a mapped heap and an
  -- empty set of ranges, ends, and its verdict is that all is valid, or that one of `mm_init`,
  -- `mm_malloc` and `mm_realloc` failed: it never finds a payload that is out of place.
  pub eval_mm_valid-accepts :
      (s : State)
      → IsMapped s
      → (content : ℕ → ℕ) (trace : Trace) (ranges : RangeSet) → Proper trace.num_ids [] trace.ops
      → IsBlank ranges
      → Ends
          (λ v t.
            (v ≡ valid true)
            ⊎ ((v ≡ mm_init_failed) ⊎ ((v ≡ mm_malloc_failed) ⊎ (v ≡ mm_realloc_failed))))
          (eval_mm_valid mm
            (quick random_data random range_at node_at)
            (some content)
            trace
            ranges
            s)
  unfolding eval_mm_valid valid_from reinit_trace
  eval_mm_valid-accepts s h content trace ranges proper blank =
      from_empty_heap-IsServed content _ _ s h λ t fresh.
        Ends-continue (mm_init-IsServed t fresh) λ b u begun. elim begun [
          | inl failed ↦ rw failed (ends (inr (inl refl)))
          | inr (ready, served) ↦ rw ready (
              valid_requests-IsFullOr trace.num_ids 0 [] trace.ops proper u (reinit_trace trace)
                ranges blank (record { served = served; unique = tt; ids = refl; some_block = tt }))
        ]
