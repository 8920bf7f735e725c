-- ===== src/Replay/Judged.antt =====
-- One request of `eval_mm_valid` on mm.c, without debugging: it goes well, or it is refused.
use mathlib.Core.Path.{}
use dynamic_memory_allocator.Base.{
  ℕ, ◌+◌, ◌%◌, ◌^◌, ◌≤◌, ◌<◌, ◌≡◌, ◌≢◌, ◌⊎◌, ◌∙◌, refl, true, none, some, List, ◌∷◌, ◌++◌, arith,
  inl, inr, All, ==_ne, ==_iff, ==_self, Bool-cases, add64, sub64, ltb, ◌==◌,
}
use dynamic_memory_allocator.Machine.{State, Cmd, done, pure, ◌>>◌}
use dynamic_memory_allocator.Machine.Ends.{Ends, ends, Ends-continue}
use dynamic_memory_allocator.Memlib.{mem_heap_lo, mem_heap_hi}
use dynamic_memory_allocator.Tree.{compared, tree_remove, walk_remove}
use dynamic_memory_allocator.Traces.{Trace, TraceOp, free_op, realloc_op}
use dynamic_memory_allocator.Ranges.{
  RangeSet, dbg_none, add_range, remove_range, is_aligned, outside_heap,
}
use dynamic_memory_allocator.Payloads.{randomize_block, check_index}
use dynamic_memory_allocator.Allocator.{free}
use dynamic_memory_allocator.Heap.Served.{Grant, IsServed, malloc-IsMet, free-IsGrown}
use dynamic_memory_allocator.Heap.Move.{freed, refused, moved, realloc-IsMoved}
use dynamic_memory_allocator.Heap.Room.{IsPlacedIn}
use dynamic_memory_allocator.Replay.{no_block, with_block, with_size, get_block, block_of}
use dynamic_memory_allocator.Replay.Valid.{
  mm_malloc_failed, mm_realloc_failed, Session, Progress, goes_on, returns, exited, track, remember,
  valid_alloc, shorter_block, valid_moved, valid_realloc, untrack, valid_free,
}
use dynamic_memory_allocator.Replay.Packages.{mm}
use dynamic_memory_allocator.Replay.Live.{
  grant_of, grants, IsReplayed, IsNoted, set-IsNoted, given-IsReplayed, given-IsPlacedIn,
  at-IsReplayed, found-some_block, within_ids, IsId, gone-IsReplayed, moved-IsReplayed,
  forgotten-IsReplayed,
}

-- No range is kept.
abbrev pub IsBlank : RangeSet → Type 0
IsBlank ranges = ranges.lo_tree.root ≡ 0

remove_range-IsBlank :
    (ranges : RangeSet) (lo : ℕ)
    → IsBlank ranges
    → (q : RangeSet) × (remove_range ranges lo ≡ some q) × IsBlank q
unfolding remove_range tree_remove walk_remove
remove_range-IsBlank ranges lo blank =
    (record ranges { lo_tree = compared 0 ranges.lo_tree }, rw blank refl, blank)

-- One request went well, or it was refused.
abbrev pub IsGoing : (n : ℕ) → List ℕ → Progress → State → Type 0
IsGoing n live (goes_on trace ranges all_check) t =
    IsBlank ranges × IsReplayed n trace live t × (all_check ≡ true)
IsGoing n live (returns v) t = (v ≡ mm_malloc_failed) ⊎ (v ≡ mm_realloc_failed)

-- Without debugging, whatever the random numbers and the addresses are.
module _ (random_data random range_at node_at : ℕ → ℕ) where
  abbrev pub quick : Session
  quick = record {
    debug_mode = dbg_none;
    random_data = random_data;
    random = random;
    range_at = range_at;
    node_at = node_at;
  }

  track-accepts :
      (t : State) (i index : ℕ) (ranges : RangeSet) (g : Grant)
      → IsPlacedIn t g
      → 0 < g.size
      → track mm quick i g.payload g.size index ranges t ≡ done (some (true, ranges)) t
  unfolding track add_range is_aligned outside_heap mem_heap_lo mem_heap_hi
  track-accepts t i index ranges g at positive =
      let lower : t.heap < g.payload = at.lower in
      let upper : g.payload + g.size ≤ t.mem_brk = at.upper in
      let aligned : g.payload % 16 ≡ 0 = at.aligned in
      let small : t.mem_brk < 2 ^ 63 = at.small in
      let last : sub64 t.mem_brk 1 + 1 ≡ t.mem_brk = omega arith in
      let hi : sub64 (add64 g.payload g.size) 1 + 1 ≡ g.payload + g.size = omega arith in
      rw (==_ne g.size 0 (omega arith), aligned) (ground arith)

  check_quick :
      (trace : Trace) (index : ℕ) → check_index dbg_none random_data trace index ≡ pure true
  unfolding check_index
  check_quick trace index = elim (Bool-cases (index == no_block)) [
    | inl null ↦ rw null refl
    | inr some_block ↦ rw some_block refl
  ]

  block_of-some_block :
      (trace : Trace) (i : ℕ) → i ≢ no_block → block_of trace i ≡ get_block trace i
  unfolding block_of
  block_of-some_block trace i some_block = rw (==_ne i no_block some_block) refl

  module _ {n : ℕ} (s : State) (trace : Trace) (ranges : RangeSet) (blank : IsBlank ranges)
      (i : ℕ) where
    pub valid_alloc-IsGoing :
        (live : List ℕ) (op : TraceOp)
        → IsReplayed n trace live s
        → All (λ j. j ≢ op.index) live
        → IsId n op.index
        → op.size < 2 ^ 61
        → Ends (IsGoing n (op.index ∷ live)) (valid_alloc mm quick i op trace ranges true s)
    unfolding valid_alloc remember randomize_block
    valid_alloc-IsGoing live op h other some_block small =
        Ends-continue (malloc-IsMet s (grants trace live) h.served op.size small) λ p t is.
          elim is [
            | inl (nothing, same) ↦ rw ((==_iff p 0).1 nothing) (ends (inl refl))
            | inr (positive, served, grown) ↦
                let placed = given-IsPlacedIn t (grants trace live) _ served in
                let lower = placed.lower in
                rw
                  (
                    ==_ne p 0 (omega arith),
                    track-accepts t i op.index ranges (record { payload = p; size = op.size })
                        placed positive,
                    within_ids n trace op.index h.ids some_block.1,
                    within_ids n trace op.index h.ids some_block.1,
                  )
                  (ends (
                    blank,
                    given-IsReplayed trace t live op.index p op.size _
                        (set-IsNoted trace op.index p op.size) other h.unique h.some_block h.ids
                        some_block served,
                    refl,
                  ))
          ]

    pub valid_free-null :
        (live : List ℕ) (lineno size : ℕ)
        → IsReplayed n trace live s
        → Ends (IsGoing n live) (
            valid_free mm quick
              (record { opcode = free_op; lineno = lineno; index = no_block; size = size })
              trace
              ranges
              true
              s)
    unfolding valid_free untrack block_of check_index free
    valid_free-null live lineno size h = ends (blank, h, refl)

    module _ (before : List ℕ) (index : ℕ) (after : List ℕ)
        (h : IsReplayed n trace (before ++ index ∷ after) s) where
      some-IsId : IsId n index
      some-IsId = found-some_block trace s before index after s h

      inside : ltb index trace.num_ids ≡ true
      inside = within_ids n trace index h.ids some-IsId.1

      pub valid_free-IsGoing :
          (lineno size : ℕ)
          → Ends (IsGoing n (before ++ after)) (
              valid_free mm quick
                (record { opcode = free_op; lineno = lineno; index = index; size = size })
                trace
                ranges
                true
                s)
      unfolding valid_free untrack
      valid_free-IsGoing lineno size =
          let (q, removed, blank1) = remove_range-IsBlank ranges (trace.blocks index) blank in
          let rest : Ends (IsGoing n (before ++ after)) (
              (elim (remove_range ranges (trace.blocks index)) as (λ x. Cmd Progress) [
                | none ↦ pure (returns exited)
                | some ranges1 ↦
                    mm.mm_free (trace.blocks index) >> pure (goes_on trace ranges1 true)
              ])
                s) =
            rw removed (
              Ends-continue
                (free-IsGrown s (grants trace before) (grant_of trace index) (grants trace after)
                  (at-IsReplayed trace s before index after h))
                λ _ t (served, grown).
                  ends (blank1, gone-IsReplayed trace t before index after s h served, refl)) in
          rw (check_quick trace index, block_of-some_block trace index some-IsId.0, inside)
            (rw (==_ne index no_block some-IsId.0) rest)

      shorter-IsNoted :
          (p size : ℕ)
          → IsNoted trace index p size (
              with_size (with_block (shorter_block mm quick trace index p size) index p) index size)
      unfolding shorter_block
      shorter-IsNoted p size = record {
        here = rw (==_self index) refl;
        others = λ j other. elim (Bool-cases (ltb size (trace.block_sizes index))) [
          | inl less ↦ rw (less, ==_ne j index other) refl
          | inr more ↦ rw (more, ==_ne j index other) refl
        ];
        same_ids = elim (Bool-cases (ltb size (trace.block_sizes index))) [
          | inl less ↦ rw less refl
          | inr more ↦ rw more refl
        ];
      }

      shorter_inside :
          (p size : ℕ) → ltb index (shorter_block mm quick trace index p size).num_ids ≡ true
      shorter_inside p size =
          let same = (shorter-IsNoted p size).same_ids in
          within_ids n (shorter_block mm quick trace index p size) index (same ∙ h.ids) some-IsId.1

      -- Behind the early returns of a request to reallocate.
      valid_moved-IsGoing :
          (q : RangeSet)
          → IsBlank q
          → (lineno size newp : ℕ) (t : State) → 0 < size
          → IsServed t
              (record { payload = newp; size = size } ∷ grants trace before ++ grants trace after)
          → Ends (IsGoing n (index ∷ before ++ after)) (
              valid_moved mm quick i
                (record { opcode = realloc_op; lineno = lineno; index = index; size = size })
                newp
                trace
                q
                true
                t)
      unfolding valid_moved remember randomize_block
      valid_moved-IsGoing q blank1 lineno size newp t positive served =
          let g : Grant = record { payload = newp; size = size } in
          let placed = given-IsPlacedIn t (grants trace before ++ grants trace after) g served in
          let some_bytes : ltb 0 size ≡ true = ground arith in
          rw
            (
              some_bytes,
              track-accepts t i index q g placed positive,
              inside,
              check_quick (shorter_block mm quick trace index newp size) index,
              shorter_inside newp size,
              shorter_inside newp size,
            )
            (ends (
              blank1,
              moved-IsReplayed trace t before index after s h newp size _
                  (shorter-IsNoted newp size) served,
              refl,
            ))

      pub valid_realloc-IsGoing :
          (lineno size : ℕ)
          → size ≢ 0
          → size < 2 ^ 61
          → Ends (IsGoing n (index ∷ before ++ after)) (
              valid_realloc mm quick i
                (record { opcode = realloc_op; lineno = lineno; index = index; size = size })
                trace
                ranges
                true
                s)
      unfolding valid_realloc
      valid_realloc-IsGoing lineno size some_bytes small =
          let (q, removed, blank1) = remove_range-IsBlank ranges (trace.blocks index) blank in
          rw (check_quick trace index, inside)
            (Ends-continue
              (realloc-IsMoved s (grants trace before) (grant_of trace index) (grants trace after)
                (at-IsReplayed trace s before index after h) size small)
              λ newp t is. elim is [
                | freed nothing _ _ ↦ absurd (some_bytes nothing)
                | refused _ null _ ↦ rw (null, ==_ne size 0 some_bytes) (ends (inr refl))
                | moved _ served ↦
                    let placed =
                      given-IsPlacedIn t (grants trace before ++ grants trace after) _ served in
                    let lower = placed.lower in
                    rw (==_ne newp 0 (omega arith), ==_ne size 0 some_bytes, removed)
                      (valid_moved-IsGoing q blank1 lineno size newp t (omega arith) served)
              ])

      pub valid_realloc-away :
          (lineno : ℕ)
          → Ends (IsGoing n (before ++ after)) (
              valid_realloc mm quick i
                (record { opcode = realloc_op; lineno = lineno; index = index; size = 0 })
                trace
                ranges
                true
                s)
      unfolding valid_realloc valid_moved remember randomize_block
      valid_realloc-away lineno =
          let (q, removed, blank1) = remove_range-IsBlank ranges (trace.blocks index) blank in
          rw (check_quick trace index, inside)
            (Ends-continue
              (realloc-IsMoved s (grants trace before) (grant_of trace index) (grants trace after)
                (at-IsReplayed trace s before index after h) 0 (omega arith))
              λ newp t is. elim is [
                | freed _ null served ↦
                    rw ((==_iff newp 0).1 null, removed, inside)
                      (rw
                        (
                          check_quick (shorter_block mm quick trace index newp 0) index,
                          shorter_inside newp 0,
                          shorter_inside newp 0,
                        )
                        (ends (
                          blank1,
                          forgotten-IsReplayed trace t before index after s h newp 0 _
                              (shorter-IsNoted newp 0) served,
                          refl,
                        )))
                | refused some_bytes _ _ ↦ absurd (some_bytes refl)
                | moved some_bytes _ ↦ absurd (some_bytes refl)
              ])
