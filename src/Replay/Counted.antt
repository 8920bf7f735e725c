-- ===== src/Replay/Counted.antt =====
-- One request of `eval_mm_util` on mm.c: the sum that the driver keeps is what the live blocks have
-- together.
use mathlib.Core.Path.{}
use dynamic_memory_allocator.Base.{
  ap, ℕ, true, ltb, ◌+◌, ◌^◌, ◌≤◌, ◌<◌, ◌≡◌, ◌≢◌, ◌∙◌, refl, sym, Option, none, some, List, ◌∷◌,
  ◌++◌, arith, inl, inr, All, All-map, ==_ne, ==_iff, add64, sub64,
}
use dynamic_memory_allocator.Machine.{State}
use dynamic_memory_allocator.Machine.Ends.{Ends, ends, Ends-continue}
use dynamic_memory_allocator.Memlib.{}
use dynamic_memory_allocator.Allocator.{free}
use dynamic_memory_allocator.Traces.{Trace, alloc_op, free_op, realloc_op}
use dynamic_memory_allocator.Heap.Served.{Grant, IsGrown, malloc-IsMet, free-IsGrown}
use dynamic_memory_allocator.Heap.Move.{freed, refused, moved, realloc-IsMovedGrown}
use dynamic_memory_allocator.Heap.Room.{total, total-middle, total-IsServed}
use dynamic_memory_allocator.Replay.{no_block, with_block, with_size, block_of, util_request}
use dynamic_memory_allocator.Replay.Packages.{mm}
use dynamic_memory_allocator.Replay.Live.{
  grant_of, grants, grants-append, grants-IsNoted, Unique-drop, IsReplayed, set-IsNoted,
  given-IsReplayed, given-IsPlacedIn, at-IsReplayed, found-some_block, within_ids, IsId,
  gone-IsReplayed, moved-IsReplayed, forgotten-IsReplayed,
}
use dynamic_memory_allocator.Replay.Held.{
  Holding, drop_id, sizes, sizes-new, sizes-noted, drop_id-absent, drop_id-middle,
}

-- The bytes of the live blocks.
abbrev pub live_bytes : Trace → List ℕ → ℕ
live_bytes trace live = total (grants trace live)

live_bytes-middle :
    (trace : Trace) (before : List ℕ) (i : ℕ) (after : List ℕ)
    → live_bytes trace (before ++ i ∷ after)
      ≡ trace.block_sizes i + live_bytes trace (before ++ after)
live_bytes-middle trace before i after =
    rw (grants-append trace before (i ∷ after), grants-append trace before after)
      (total-middle (grants trace before) (grant_of trace i) (grants trace after))

live_bytes-noted :
    (trace : Trace) (i p size : ℕ) (live : List ℕ)
    → All (λ j. j ≢ i) live
    → live_bytes (with_size (with_block trace i p) i size) live ≡ live_bytes trace live
live_bytes-noted trace i p size live other =
    ap total (grants-IsNoted trace i p size _ (set-IsNoted trace i p size) live other)

live_bytes-new :
    (trace : Trace) (i p size : ℕ) (live : List ℕ)
    → All (λ j. j ≢ i) live
    → live_bytes (with_size (with_block trace i p) i size) (i ∷ live) ≡ size + live_bytes trace live
live_bytes-new trace i p size live other =
    let here = ap Grant.size (set-IsNoted trace i p size).here in
    omega (arith, live_bytes-noted trace i p size live other, here)

-- The live blocks are fewer bytes than the heap, which is less than 2 ^ 63.
pub live_bytes-lt :
    {n : ℕ} (trace : Trace) (live : List ℕ) (t : State)
    → IsReplayed n trace live t
    → (live_bytes trace live + t.heap + 16 ≤ t.mem_brk) × (t.mem_brk < 2 ^ 63)
live_bytes-lt trace live t h =
    let fits = total-IsServed t (grants trace live) h.served in
    let bounded = h.served.sound.limits.bounded in
    let small = h.served.sound.limits.small in (fits, omega arith)

-- One request is counted, and what is held is `held`; or it was refused.
abbrev pub IsCounted : (n : ℕ) → State → List ℕ → Holding → Option (Trace × ℕ) → State → Type 0
IsCounted n s live held none t = Unit
IsCounted n s live held (some (trace, bytes)) t =
    IsReplayed n trace live t
    × (bytes ≡ live_bytes trace live)
    × IsGrown s t
    × (sizes trace live ≡ held)

module _ {n : ℕ} (s : State) (trace : Trace) where
  pub util_alloc-IsCounted :
      (live : List ℕ) (lineno index size : ℕ)
      → IsReplayed n trace live s
      → All (λ j. j ≢ index) live
      → IsId n index
      → size < 2 ^ 61
      → Ends (IsCounted n s (index ∷ live) ((index, size) ∷ sizes trace live)) (
          util_request mm
            (record { opcode = alloc_op; lineno = lineno; index = index; size = size })
            trace
            (live_bytes trace live)
            s)
  unfolding util_request
  util_alloc-IsCounted live lineno index size h other some_block small =
      Ends-continue (malloc-IsMet s (grants trace live) h.served size small) λ p t is. elim is [
        | inl (nothing, same) ↦ rw ((==_iff p 0).1 nothing) (ends tt)
        | inr (positive, served, grown) ↦
            let placed = given-IsPlacedIn t (grants trace live) _ served in
            let lower = placed.lower in
            let replayed =
              given-IsReplayed trace t live index p size _ (set-IsNoted trace index p size) other
                h.unique h.some_block h.ids some_block served in
            let bytes = live_bytes-new trace index p size live other in
            let (fits, limit) = live_bytes-lt _ (index ∷ live) t replayed in
            let sum : add64 (live_bytes trace live) size ≡ size + live_bytes trace live =
              omega arith in
            rw
              (
                ==_ne p 0 (omega arith),
                within_ids n trace index h.ids some_block.1,
                within_ids n trace index h.ids some_block.1,
              )
              (ends (
                replayed,
                sum ∙ sym bytes,
                grown,
                sizes-new trace index p size _ (set-IsNoted trace index p size) live other,
              ))
      ]

  module _ (before : List ℕ) (index : ℕ) (after : List ℕ)
      (h : IsReplayed n trace (before ++ index ∷ after) s) where
    dropped : drop_id index (sizes trace (before ++ index ∷ after)) ≡ sizes trace (before ++ after)
    dropped = drop_id-middle trace before index after h.unique

    inside : ltb index trace.num_ids ≡ true
    inside = within_ids n trace index h.ids (found-some_block trace s before index after s h).1

    others : All (λ j. j ≢ index) (before ++ after)
    others = (Unique-drop before index after h.unique).1

    pub util_free-IsCounted :
        (lineno size : ℕ)
        → Ends
            (IsCounted n s
              (before ++ after)
              (drop_id index (sizes trace (before ++ index ∷ after))))
            (util_request mm
              (record { opcode = free_op; lineno = lineno; index = index; size = size })
              trace
              (live_bytes trace (before ++ index ∷ after))
              s)
    unfolding util_request block_of
    util_free-IsCounted lineno size =
        let some_block = found-some_block trace s before index after s h in
        let middle = live_bytes-middle trace before index after in
        let (fits, limit) = live_bytes-lt trace (before ++ index ∷ after) s h in
        let rest : sub64 (live_bytes trace (before ++ index ∷ after)) (trace.block_sizes index)
            ≡ live_bytes trace (before ++ after) =
          omega arith in
        rw (==_ne index no_block some_block.0, within_ids n trace index h.ids some_block.1)
          (Ends-continue
            (free-IsGrown s (grants trace before) (grant_of trace index) (grants trace after)
              (at-IsReplayed trace s before index after h))
            λ _ t (served, grown).
              ends
                (gone-IsReplayed trace t before index after s h served, rest, grown, sym dropped))

    -- The sum when the block gets `size` bytes in place of those that it had.
    exchanged :
        (size : ℕ)
        → size + live_bytes trace (before ++ after) < 2 ^ 63
        → add64 (live_bytes trace (before ++ index ∷ after)) (sub64 size (trace.block_sizes index))
          ≡ size + live_bytes trace (before ++ after)
    exchanged size small =
        let middle = live_bytes-middle trace before index after in
        let (fits, limit) = live_bytes-lt trace (before ++ index ∷ after) s h in omega arith

    pub util_realloc-IsCounted :
        (lineno size : ℕ)
        → size ≢ 0
        → size < 2 ^ 61
        → Ends
            (IsCounted n s
              (index ∷ before ++ after)
              ((index, size) ∷ drop_id index (sizes trace (before ++ index ∷ after))))
            (util_request mm
              (record { opcode = realloc_op; lineno = lineno; index = index; size = size })
              trace
              (live_bytes trace (before ++ index ∷ after))
              s)
    unfolding util_request
    util_realloc-IsCounted lineno size some_bytes small = rw inside (
        Ends-continue
          (realloc-IsMovedGrown s (grants trace before) (grant_of trace index) (grants trace after)
            (at-IsReplayed trace s before index after h) size small)
          λ p t (is, grown). elim is [
            | freed nothing _ _ ↦ absurd (some_bytes nothing)
            | refused _ null _ ↦ rw (null, ==_ne size 0 some_bytes) (ends tt)
            | moved _ served ↦
                let placed =
                  given-IsPlacedIn t (grants trace before ++ grants trace after) _ served in
                let lower = placed.lower in
                let replayed =
                  moved-IsReplayed trace t before index after s h p size _
                    (set-IsNoted trace index p size) served in
                let bytes = live_bytes-new trace index p size (before ++ after) others in
                let (fits, limit) = live_bytes-lt _ (index ∷ before ++ after) t replayed in
                rw (==_ne p 0 (omega arith)) (
                  rw inside (
                    ends (
                      replayed,
                      exchanged size (omega arith) ∙ sym bytes,
                      grown,
                      sizes-new trace index p size _ (set-IsNoted trace index p size)
                            (before ++ after) others
                          ∙ ap (λ l. (index, size) ∷ l) (sym dropped),
                    )))
          ])

    pub util_realloc-away :
        (lineno : ℕ)
        → Ends
            (IsCounted n s
              (before ++ after)
              (drop_id index (sizes trace (before ++ index ∷ after))))
            (util_request mm
              (record { opcode = realloc_op; lineno = lineno; index = index; size = 0 })
              trace
              (live_bytes trace (before ++ index ∷ after))
              s)
    unfolding util_request
    util_realloc-away lineno = rw inside (
        Ends-continue
          (realloc-IsMovedGrown s (grants trace before) (grant_of trace index) (grants trace after)
            (at-IsReplayed trace s before index after h) 0 (omega arith))
          λ p t (is, grown). elim is [
            | freed _ null served ↦
                let replayed =
                  forgotten-IsReplayed trace t before index after s h p 0 _
                    (set-IsNoted trace index p 0) served in
                let bytes = live_bytes-noted trace index p 0 (before ++ after) others in
                let (fits, limit) = live_bytes-lt _ (before ++ after) t replayed in
                rw ((==_iff p 0).1 null) (
                  rw inside (
                    ends (
                      replayed,
                      omega (arith, exchanged 0 (omega arith), bytes),
                      grown,
                      sizes-noted trace index p 0 _ (set-IsNoted trace index p 0) (before ++ after)
                            others
                          ∙ sym dropped,
                    )))
            | refused some_bytes _ _ ↦ absurd (some_bytes refl)
            | moved some_bytes _ ↦ absurd (some_bytes refl)
          ])

  pub util_free-null :
      (live : List ℕ) (lineno size : ℕ)
      → IsReplayed n trace live s
      → Ends (IsCounted n s live (drop_id no_block (sizes trace live))) (
          util_request mm
            (record { opcode = free_op; lineno = lineno; index = no_block; size = size })
            trace
            (live_bytes trace live)
            s)
  unfolding util_request block_of free
  util_free-null live lineno size h =
      let (fits, limit) = live_bytes-lt trace live s h in
      let same : sub64 (live_bytes trace live) 0 ≡ live_bytes trace live = omega arith in
      let absent =
        drop_id-absent trace no_block live (All-map (IsId n) _ live (λ j id. id.0) h.some_block) in
      ends (h, same, record { base = refl; grown = omega arith }, sym absent)
