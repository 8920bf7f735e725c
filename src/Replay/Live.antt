-- ===== src/Replay/Live.antt =====
-- The blocks that a trace holds while it is run: what the requests of a proper trace find, and that
-- each block that the driver remembers is one of its own.
use mathlib.Core.Path.{subst}
use dynamic_memory_allocator.Base.{
  ap, ℕ, ◌^◌, ◌<◌, ◌≡◌, ◌≢◌, ◌∙◌, refl, sym, true, arith, ltb, List, [], ◌∷◌, ◌++◌, All, All-append,
  All-drop_middle, ==_ne, if_eq,
}
use dynamic_memory_allocator.Machine.{State}
use dynamic_memory_allocator.Traces.{Trace, TraceOp, alloc_op, free_op, realloc_op}
use dynamic_memory_allocator.Heap.Served.{Grant, IsServed, IsHeld}
use dynamic_memory_allocator.Heap.Room.{IsPlacedIn, IsHeld-IsPlacedIn}
use dynamic_memory_allocator.Replay.{no_block, with_block, with_size}

-- The requests that a trace makes, where `live` holds the ids in use: it allocates an id that is not in
-- use, and reallocates and frees one that is, or frees `NULL`; the ids are below `num_ids`, the number of
-- entries of the trace's arrays, and no size reaches 2 ^ 61.
pub data Proper (num_ids : ℕ) : List ℕ → List TraceOp → Type 0 where
  ended : {live : List ℕ} → Proper num_ids live []
  allocs :
      {live : List ℕ} {ops : List TraceOp}
      → (lineno index size : ℕ) → All (λ j. j ≢ index) live
      → index ≢ no_block
      → index < num_ids
      → size < 2 ^ 61
      → Proper num_ids (index ∷ live) ops
      → Proper num_ids live
          (record { opcode = alloc_op; lineno = lineno; index = index; size = size } ∷ ops)
  reallocs :
      {ops : List TraceOp}
      → (before : List ℕ) (index : ℕ) (after : List ℕ) (lineno size : ℕ) → size ≢ 0
      → size < 2 ^ 61
      → Proper num_ids (index ∷ before ++ after) ops
      → Proper num_ids
          (before ++ index ∷ after)
          (record { opcode = realloc_op; lineno = lineno; index = index; size = size } ∷ ops)
  reallocs_away :
      {ops : List TraceOp}
      → (before : List ℕ) (index : ℕ) (after : List ℕ) (lineno : ℕ)
      → Proper num_ids (before ++ after) ops
      → Proper num_ids
          (before ++ index ∷ after)
          (record { opcode = realloc_op; lineno = lineno; index = index; size = 0 } ∷ ops)
  frees :
      {ops : List TraceOp}
      → (before : List ℕ) (index : ℕ) (after : List ℕ) (lineno size : ℕ)
      → Proper num_ids (before ++ after) ops
      → Proper num_ids
          (before ++ index ∷ after)
          (record { opcode = free_op; lineno = lineno; index = index; size = size } ∷ ops)
  frees_null :
      {live : List ℕ} {ops : List TraceOp}
      → (lineno size : ℕ) → Proper num_ids live ops
      → Proper num_ids live
          (record { opcode = free_op; lineno = lineno; index = no_block; size = size } ∷ ops)

abbrev pub grant_of : Trace → ℕ → Grant
grant_of trace i = record { payload = trace.blocks i; size = trace.block_sizes i }

abbrev pub grants : Trace → List ℕ → List Grant
grants trace [] = []
grants trace (i ∷ is) = grant_of trace i ∷ grants trace is

pub grants-append :
    (trace : Trace) (is js : List ℕ) → grants trace (is ++ js) ≡ grants trace is ++ grants trace js
grants-append trace [] js = refl
grants-append trace (i ∷ is) js = ap (λ gs. grant_of trace i ∷ gs) (grants-append trace is js)

abbrev pub Unique : List ℕ → Type 0
Unique [] = Unit
Unique (i ∷ is) = All (λ j. j ≢ i) is × Unique is

pub Unique-drop :
    (before : List ℕ) (i : ℕ) (after : List ℕ)
    → Unique (before ++ i ∷ after)
    → Unique (before ++ after) × All (λ j. j ≢ i) (before ++ after)
Unique-drop [] i after h = (h.1, h.0)
Unique-drop (b ∷ before) i after h =
    let rest = Unique-drop before i after h.1 in
    let first = (All-append (λ j. j ≢ b) before (i ∷ after) h.0).1.0 in
    ((All-drop_middle (λ j. j ≢ b) before i after h.0, rest.0), ((λ e. first (sym e)), rest.1))

-- An id that the arrays have an entry for.
abbrev pub IsId : (n i : ℕ) → Type 0
IsId n i = (i ≢ no_block) × (i < n)

-- The blocks of the ids in use are those that the driver remembers, each a block of its own.
pub record IsReplayed (n : ℕ) (trace : Trace) (live : List ℕ) (s : State) : Type 0 where
  pub served : IsServed s (grants trace live)
  pub unique : Unique live
  pub ids : trace.num_ids ≡ n
  pub some_block : All (IsId n) live

-- The arrays hold a new block for one id, and are otherwise as they were.
pub record IsNoted (trace : Trace) (i p size : ℕ) (trace' : Trace) : Type 0 where
  pub here : grant_of trace' i ≡ record { payload = p; size = size }
  pub others : (j : ℕ) → j ≢ i → grant_of trace' j ≡ grant_of trace j
  pub same_ids : trace'.num_ids ≡ trace.num_ids

pub set-IsNoted :
    (trace : Trace) (i p size : ℕ)
    → IsNoted trace i p size (with_size (with_block trace i p) i size)
set-IsNoted trace i p size = record {
  here = rw (if_eq i p (trace.blocks i), if_eq i size (trace.block_sizes i)) refl;
  others = λ j other. rw (==_ne j i other) refl;
  same_ids = refl;
}

pub grants-IsNoted :
    (trace : Trace) (i p size : ℕ) (trace' : Trace)
    → IsNoted trace i p size trace'
    → (live : List ℕ) → All (λ j. j ≢ i) live
    → grants trace' live ≡ grants trace live
grants-IsNoted trace i p size trace' noted [] other = refl
grants-IsNoted trace i p size trace' noted (j ∷ live) other =
    rw (noted.others j other.0, grants-IsNoted trace i p size trace' noted live other.1) refl

pub given-IsPlacedIn :
    (t : State) (live : List Grant) (g : Grant) → IsServed t (g ∷ live) → IsPlacedIn t g
given-IsPlacedIn t live g served = IsHeld-IsPlacedIn t served.ps served.sound g served.held.0

-- The entry of an id that is in use.
pub within_ids :
    (n : ℕ) (trace : Trace) (i : ℕ) → trace.num_ids ≡ n → i < n → ltb i trace.num_ids ≡ true
within_ids n trace i ids inside = let e : trace.num_ids ≡ n = ids in ground arith

module _ {n : ℕ} (trace : Trace) (t : State) where
  -- A block that was given for an id that is not in use.
  pub given-IsReplayed :
      (live : List ℕ) (i p size : ℕ) (trace' : Trace)
      → IsNoted trace i p size trace'
      → All (λ j. j ≢ i) live
      → Unique live
      → All (IsId n) live
      → trace'.num_ids ≡ n
      → IsId n i
      → IsServed t (record { payload = p; size = size } ∷ grants trace live)
      → IsReplayed n trace' (i ∷ live) t
  given-IsReplayed live i p size trace' noted other unique some_block ids some served = record {
    served =
        subst (IsServed t)
          (rw (noted.here, grants-IsNoted trace i p size trace' noted live other) refl) served;
    unique = (other, unique);
    ids = ids;
    some_block = (some, some_block);
  }

  module _ (before : List ℕ) (i : ℕ) (after : List ℕ) where
    -- The id that a request is about, among those in use.
    pub at-IsReplayed :
        IsReplayed n trace (before ++ i ∷ after) t
        → IsServed t (grants trace before ++ grant_of trace i ∷ grants trace after)
    at-IsReplayed h = subst (IsServed t) (grants-append trace before (i ∷ after)) h.served

    pub found-IsPlacedIn :
        IsReplayed n trace (before ++ i ∷ after) t → IsPlacedIn t (grant_of trace i)
    found-IsPlacedIn h =
        let served = at-IsReplayed h in
        IsHeld-IsPlacedIn t served.ps served.sound (grant_of trace i)
          (All-append (IsHeld t served.ps) (grants trace before)
            (grant_of trace i ∷ grants trace after) served.held).1.0

    module _ (s : State) (h : IsReplayed n trace (before ++ i ∷ after) s) where
      pub found-some_block : IsId n i
      found-some_block = (All-append (IsId n) before (i ∷ after) h.some_block).1.0

      -- The block of the id is gone.
      pub gone-IsReplayed :
          IsServed t (grants trace before ++ grants trace after)
          → IsReplayed n trace (before ++ after) t
      gone-IsReplayed served = record {
        served = subst (IsServed t) (sym (grants-append trace before after)) served;
        unique = (Unique-drop before i after h.unique).0;
        ids = h.ids;
        some_block = All-drop_middle (IsId n) before i after h.some_block;
      }

      -- It has another block.
      pub moved-IsReplayed :
          (p size : ℕ) (trace' : Trace)
          → IsNoted trace i p size trace'
          → IsServed t
              (record { payload = p; size = size } ∷ grants trace before ++ grants trace after)
          → IsReplayed n trace' (i ∷ before ++ after) t
      moved-IsReplayed p size trace' noted served =
          let (unique, other) = Unique-drop before i after h.unique in
          given-IsReplayed (before ++ after) i p size trace' noted other unique
            (All-drop_middle (IsId n) before i after h.some_block) (noted.same_ids ∙ h.ids)
            found-some_block
            (subst (λ gs. IsServed t (record { payload = p; size = size } ∷ gs))
              (sym (grants-append trace before after)) served)

      -- The arrays may forget it.
      pub forgotten-IsReplayed :
          (p size : ℕ) (trace' : Trace)
          → IsNoted trace i p size trace'
          → IsServed t (grants trace before ++ grants trace after)
          → IsReplayed n trace' (before ++ after) t
      forgotten-IsReplayed p size trace' noted served =
          let gone = gone-IsReplayed served in
          let other = (Unique-drop before i after h.unique).1 in
          record {
            served =
                subst (IsServed t)
                  (sym (grants-IsNoted trace i p size trace' noted (before ++ after) other))
                  gone.served;
            unique = gone.unique;
            ids = noted.same_ids ∙ h.ids;
            some_block = gone.some_block;
          }
