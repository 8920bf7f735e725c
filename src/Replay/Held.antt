-- ===== src/Replay/Held.antt =====
-- What a trace holds, read off its requests alone: the blocks by id and size, and the largest number of
-- bytes that they have together. `eval_mm_util` is compared with it.
use dynamic_memory_allocator.Base.{
  ap, ℕ, ◌+◌, ◌≤◌, ◌≡◌, ◌≢◌, refl, sym, List, [], ◌∷◌, ◌++◌, All, All-append, arith, ==_ne, ==_self,
  ◌==◌, ltb, if◌then◌else◌,
}
use dynamic_memory_allocator.Traces.{Trace, TraceOp, alloc_op, free_op, realloc_op}
use dynamic_memory_allocator.Heap.Served.{Grant}
use dynamic_memory_allocator.Heap.Room.{total}
use dynamic_memory_allocator.Replay.Live.{grants, Unique, IsNoted}

-- Blocks by id and size.
abbrev pub Holding : Type 0
Holding = List (ℕ × ℕ)

unfoldable pub drop_id : ℕ → Holding → Holding
drop_id i [] = []
drop_id i ((j, size) ∷ held) =
    let rest = drop_id i held in if j == i then rest else (j, size) ∷ rest

abbrev pub held_bytes : Holding → ℕ
held_bytes [] = 0
held_bytes ((j, size) ∷ held) = size + held_bytes held

-- What is held behind a request.
abbrev pub held_after : TraceOp → Holding → Holding
held_after op held = elim op.opcode [
  | alloc_op ↦ (op.index, op.size) ∷ held
  | realloc_op ↦
      if op.size == 0 then drop_id op.index held else (op.index, op.size) ∷ drop_id op.index held
  | free_op ↦ drop_id op.index held
]

abbrev pub larger : ℕ → ℕ → ℕ
larger a b = if ltb a b then b else a

-- The largest number of bytes that is held before, between and behind the requests.
abbrev pub peak_of : List TraceOp → Holding → ℕ
peak_of [] held = held_bytes held
peak_of (op ∷ ops) held = larger (held_bytes held) (peak_of ops (held_after op held))

pub held-le-peak : (ops : List TraceOp) (held : Holding) → held_bytes held ≤ peak_of ops held
held-le-peak [] held = omega arith
held-le-peak (op ∷ ops) held = ground arith

-- The live blocks with the sizes that the driver remembers.
abbrev pub sizes : Trace → List ℕ → Holding
sizes trace [] = []
sizes trace (i ∷ live) = (i, trace.block_sizes i) ∷ sizes trace live

pub held_bytes-sizes :
    (trace : Trace) (live : List ℕ) → held_bytes (sizes trace live) ≡ total (grants trace live)
held_bytes-sizes trace [] = refl
held_bytes-sizes trace (i ∷ live) = omega (arith, held_bytes-sizes trace live)

pub sizes-noted :
    (trace : Trace) (i p size : ℕ) (trace' : Trace)
    → IsNoted trace i p size trace'
    → (live : List ℕ) → All (λ j. j ≢ i) live
    → sizes trace' live ≡ sizes trace live
sizes-noted trace i p size trace' noted [] other = refl
sizes-noted trace i p size trace' noted (j ∷ live) other =
    rw
      (ap Grant.size (noted.others j other.0), sizes-noted trace i p size trace' noted live other.1)
      refl

pub sizes-new :
    (trace : Trace) (i p size : ℕ) (trace' : Trace)
    → IsNoted trace i p size trace'
    → (live : List ℕ) → All (λ j. j ≢ i) live
    → sizes trace' (i ∷ live) ≡ (i, size) ∷ sizes trace live
sizes-new trace i p size trace' noted live other =
    rw (ap Grant.size noted.here, sizes-noted trace i p size trace' noted live other) refl

pub drop_id-absent :
    (trace : Trace) (i : ℕ) (live : List ℕ)
    → All (λ j. j ≢ i) live
    → drop_id i (sizes trace live) ≡ sizes trace live
unfolding drop_id
drop_id-absent trace i [] other = refl
drop_id-absent trace i (j ∷ live) other =
    rw (==_ne j i other.0)
      (ap (λ l. (j, trace.block_sizes j) ∷ l) (drop_id-absent trace i live other.1))

pub drop_id-middle :
    (trace : Trace) (before : List ℕ) (i : ℕ) (after : List ℕ)
    → Unique (before ++ i ∷ after)
    → drop_id i (sizes trace (before ++ i ∷ after)) ≡ sizes trace (before ++ after)
unfolding drop_id
drop_id-middle trace [] i after h = rw (==_self i) (drop_id-absent trace i after h.0)
drop_id-middle trace (b ∷ before) i after h =
    let first = (All-append (λ j. j ≢ b) before (i ∷ after) h.0).1.0 in
    rw (==_ne b i (λ e. first (sym e)))
      (ap (λ l. (b, trace.block_sizes b) ∷ l) (drop_id-middle trace before i after h.1))
