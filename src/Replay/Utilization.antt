-- ===== src/Replay/Utilization.antt =====
-- mm.c under `eval_mm_util`: the high-water mark is what the trace holds at most, and the heap is
-- larger.
use mathlib.Core.Path.{subst}
use dynamic_memory_allocator.Base.{
  ap, ℕ, ◌+◌, ◌^◌, ◌≤◌, ◌<◌, ◌≡◌, ◌⊎◌, ◌∙◌, ==_ne, refl, sym, Option, none, some, List, [], ◌∷◌,
  ◌++◌, arith, inl, inr, ltb, if◌then◌else◌,
}
use dynamic_memory_allocator.Machine.{State, Cmd, pure}
use dynamic_memory_allocator.Machine.Ends.{Ends, ends, Ends-mono, Ends-continue}
use dynamic_memory_allocator.Memlib.{mem_heapsize}
use dynamic_memory_allocator.Allocator.{}
use dynamic_memory_allocator.Traces.{Trace, TraceOp, reinit_trace}
use dynamic_memory_allocator.Heap.Served.{IsGrown, IsGrown-trans}
use dynamic_memory_allocator.Heap.Move.{}
use dynamic_memory_allocator.Heap.Room.{}
use dynamic_memory_allocator.Replay.{util_requests, util_from, measured, eval_mm_util}
use dynamic_memory_allocator.Replay.Packages.{
  mm, IsMapped, from_empty_heap-IsServed, mm_init-IsServed,
}
use dynamic_memory_allocator.Replay.Counted.{
  live_bytes, live_bytes-lt, IsCounted, util_alloc-IsCounted, util_free-IsCounted,
  util_realloc-IsCounted, util_realloc-away, util_free-null,
}
use dynamic_memory_allocator.Replay.Held.{
  Holding, held_bytes, larger, peak_of, held-le-peak, sizes, held_bytes-sizes,
}
use dynamic_memory_allocator.Replay.Live.{
  Proper, ended, allocs, reallocs, reallocs_away, frees, frees_null, IsReplayed,
}

-- The peak is `most`, and at most the size of the heap less the 16 bytes of its two ends.
abbrev IsWithin : (most : ℕ) → State → Option ℕ → State → Type 0
IsWithin most s none t = Unit
IsWithin most s (some peak) t =
    (peak ≡ most) × (peak + t.heap + 16 ≤ t.mem_brk) × IsGrown s t × (t.mem_brk < 2 ^ 63)

IsWithin-trans :
    (most most' : ℕ) (s t : State) (r : Option ℕ) (u : State)
    → most ≡ most'
    → IsGrown s t
    → IsWithin most t r u
    → IsWithin most' s r u
IsWithin-trans most most' s t none u same grown is = tt
IsWithin-trans most most' s t (some peak) u same grown (exact, room, rest, small) =
    (exact ∙ same, room, IsGrown-trans s t u grown rest, small)

-- The rest of the loop behind one request.
abbrev resumed : List TraceOp → (peak : ℕ) → Option (Trace × ℕ) → Cmd (Option ℕ)
resumed ops peak result = elim result [
  | none ↦ pure none
  | some (trace, n) ↦ util_requests mm ops trace n (if ltb peak n then n else peak)
]

-- What the rest of a loop does with the requests `ops`, where the blocks `live` are in use.
abbrev Stays : (n : ℕ) → List ℕ → List TraceOp → Type 0
Stays n live ops =
    (s : State) (trace : Trace) (peak : ℕ)
    → IsReplayed n trace live s
    → live_bytes trace live ≤ peak
    → peak + s.heap + 16 ≤ s.mem_brk
    → Ends (IsWithin (larger peak (peak_of ops (sizes trace live))) s)
        (util_requests mm ops trace (live_bytes trace live) peak s)

-- The peak so far, the bytes now and the peak of the rest.
peaks :
    (peak now rest : ℕ)
    → now ≤ rest
    → larger (if ltb peak now then now else peak) rest ≡ larger peak rest
peaks peak now rest h = ground arith

peaks_from : (peak now rest : ℕ) → now ≤ peak → larger peak rest ≡ larger peak (larger now rest)
peaks_from peak now rest h = ground arith

resumed-IsWithin :
    (n : ℕ) (s : State) (live : List ℕ) (ops : List TraceOp)
    → Stays n live ops
    → (held : Holding) (start peak : ℕ) → start ≤ peak
    → peak + s.heap + 16 ≤ s.mem_brk
    → (result : Option (Trace × ℕ)) (t : State) → IsCounted n s live held result t
    → Ends (IsWithin (larger peak (larger start (peak_of ops held))) s) (resumed ops peak result t)
resumed-IsWithin n s live ops rest held start peak below room none t h = ends tt
resumed-IsWithin n s live ops rest held start peak below room (some (trace, now)) t
      (h, count, grown, holds) =
    let (fits, limit) = live_bytes-lt trace live t h in
    let base = grown.base in
    let up = grown.grown in
    let next = if ltb peak now then now else peak in
    let higher : (if ltb peak now then now else peak) + t.heap + 16 ≤ t.mem_brk = ground arith in
    let above : live_bytes trace live ≤ (if ltb peak now then now else peak) = ground arith in
    let bytes : held_bytes held ≡ now =
      ap held_bytes (sym holds) ∙ held_bytes-sizes trace live ∙ sym count in
    let rest_above = held-le-peak ops held in
    let same =
      ap (λ l. larger (if ltb peak now then now else peak) (peak_of ops l)) holds
      ∙ peaks peak now (peak_of ops held) (omega arith)
      ∙ peaks_from peak start (peak_of ops held) below in
    Ends-mono
      (subst
        (λ m.
          Ends
            (IsWithin (larger (if ltb peak now then now else peak) (peak_of ops (sizes trace live)))
              t)
            (util_requests mm ops trace m (if ltb peak now then now else peak) t))
        (sym count) (rest t trace (if ltb peak now then now else peak) h above higher))
      λ r u is. IsWithin-trans _ _ s t r u same grown is

at_start :
    (trace : Trace) (live : List ℕ) (peak : ℕ)
    → live_bytes trace live ≤ peak
    → held_bytes (sizes trace live) ≤ peak
at_start trace live peak below = omega (arith, held_bytes-sizes trace live)

Proper-Stays : (n : ℕ) (live : List ℕ) (ops : List TraceOp) → Proper n live ops → Stays n live ops
unfolding util_requests
Proper-Stays n live _ ended s trace peak h below room =
    let (fits, limit) = live_bytes-lt trace live s h in
    let bytes = held_bytes-sizes trace live in
    let exact : peak ≡ larger peak (held_bytes (sizes trace live)) = ground arith in
    ends (exact, room, record { base = refl; grown = omega arith }, limit)
Proper-Stays n live _ (allocs {ops = ops} lineno index size other some_block inside small proper) s
      trace peak h below room =
    Ends-continue
      (util_alloc-IsCounted s trace live lineno index size h other (some_block, inside) small)
      (resumed-IsWithin n s (index ∷ live) ops (Proper-Stays n (index ∷ live) ops proper) _
        (held_bytes (sizes trace live)) peak (at_start trace live peak below) room)
Proper-Stays n _ _ (reallocs {ops = ops} before index after lineno size some_bytes small proper) s
      trace peak h below room =
    rw (==_ne size 0 some_bytes) (
      Ends-continue
        (util_realloc-IsCounted s trace before index after h lineno size some_bytes small)
        (resumed-IsWithin n s (index ∷ before ++ after) ops
          (Proper-Stays n (index ∷ before ++ after) ops proper) _ _ peak
          (at_start trace (before ++ index ∷ after) peak below) room))
Proper-Stays n _ _ (reallocs_away {ops = ops} before index after lineno proper) s trace peak h below
      room =
    Ends-continue (util_realloc-away s trace before index after h lineno) (
      resumed-IsWithin n s (before ++ after) ops (Proper-Stays n (before ++ after) ops proper) _ _
        peak (at_start trace (before ++ index ∷ after) peak below) room)
Proper-Stays n _ _ (frees {ops = ops} before index after lineno size proper) s trace peak h below
      room =
    Ends-continue (util_free-IsCounted s trace before index after h lineno size) (
      resumed-IsWithin n s (before ++ after) ops (Proper-Stays n (before ++ after) ops proper) _ _
        peak (at_start trace (before ++ index ∷ after) peak below) room)
Proper-Stays n live _ (frees_null {ops = ops} lineno size proper) s trace peak h below room =
    Ends-continue (util_free-null s trace live lineno size h) (
      resumed-IsWithin n s live ops (Proper-Stays n live ops proper) _ _ peak
        (at_start trace live peak below) room)

-- What `eval_mm_util` answers: nothing, as a request failed, or the peak and the size of the heap.
abbrev IsMeasured : (most : ℕ) → Option (ℕ × ℕ) → State → Type 0
IsMeasured most none t = Unit
IsMeasured most (some (peak, size)) t =
    (peak ≡ most) × (peak + 16 ≤ size) × (size + t.heap ≡ t.mem_brk)

IsMeasured-cases :
    (most : ℕ) (r : Option (ℕ × ℕ)) (t : State)
    → IsMeasured most r t
    → (r ≡ none)
      ⊎ ((peak : ℕ) × (size : ℕ) × (r ≡ some (peak, size))
          × (peak ≡ most)
          × (peak + 16 ≤ size)
          × (size + t.heap ≡ t.mem_brk))
IsMeasured-cases most none t h = inl refl
IsMeasured-cases most (some (peak, size)) t (exact, room, all) =
    inr (peak, size, refl, exact, room, all)

measured-IsMeasured :
    (most : ℕ) (s : State) (r : Option ℕ) (t : State)
    → IsWithin most s r t
    → Ends (IsMeasured most) (measured r t)
unfolding measured mem_heapsize
measured-IsMeasured most s none t h = ends tt
measured-IsMeasured most s (some peak) t (exact, room, grown, small) =
    ends (exact, omega arith, omega arith)

exactly :
    (most : ℕ) (r : Option (ℕ × ℕ)) (t : State)
    → IsMeasured (larger 0 most) r t
    → IsMeasured most r t
exactly most none t h = tt
exactly most (some (peak, size)) t (exact, room, all) =
    let same : larger 0 most ≡ most = ground arith in (exact ∙ same, room, all)

-- `eval_mm_util` on mm.c and a proper trace (`Proper`), from a mapped heap, ends. If no request fails,
-- the high-water mark is the largest number of bytes that the requests of the trace hold at once
-- (`peak_of`), and the utilization is less than 1: the mark and 16 bytes more are at most the size of
-- the heap.
pub eval_mm_util-lt :
    (s : State)
    → IsMapped s
    → (content : ℕ → ℕ) (trace : Trace) → Proper trace.num_ids [] trace.ops
    → Ends
        (λ r t.
          (r ≡ none)
          ⊎ ((peak : ℕ) × (size : ℕ) × (r ≡ some (peak, size))
              × (peak ≡ peak_of trace.ops [])
              × (peak + 16 ≤ size)
              × (size + t.heap ≡ t.mem_brk)))
        (eval_mm_util mm (some content) trace s)
unfolding eval_mm_util util_from reinit_trace
eval_mm_util-lt s h content trace proper = from_empty_heap-IsServed content _ _ s h λ t fresh.
    Ends-continue (mm_init-IsServed t fresh) λ b u begun. elim begun [
      | inl failed ↦ rw failed (ends (inl refl))
      | inr (ready, served) ↦
          let replayed : IsReplayed trace.num_ids (reinit_trace trace) [] u = record {
            served = served;
            unique = tt;
            ids = refl;
            some_block = tt;
          } in
          let (fits, limit) = live_bytes-lt (reinit_trace trace) [] u replayed in
          rw ready (
            Ends-continue
              (Proper-Stays trace.num_ids [] trace.ops proper u (reinit_trace trace) 0 replayed
                (omega arith) (omega arith))
              λ r v is. Ends-mono (measured-IsMeasured _ u r v is) λ r' w is'.
                IsMeasured-cases (peak_of trace.ops []) r' w
                  (exactly (peak_of trace.ops []) r' w is'))
    ]
