-- ===== src/Heap/Client.antt =====
-- A client that calls `malloc`, `free`, `realloc` and `calloc` and writes to what it was given: which
-- states it can reach, and that they are in order.
use mathlib.Core.Path.{subst}
use dynamic_memory_allocator.Base.{
  ℕ, ◌*◌, ◌+◌, ◌^◌, ◌≤◌, ◌<◌, ◌≡◌, ◌≢◌, ◌⊎◌, refl, sym, true, false, List, [], ◌∷◌, ◌++◌, arith,
  inl, inr, All, All-both,
}
use dynamic_memory_allocator.Machine.{State, done}
use dynamic_memory_allocator.Machine.Ends.{Ends, Ends-done}
use dynamic_memory_allocator.Block.{null}
use dynamic_memory_allocator.Allocator.{mm_init, malloc, free, realloc, calloc}
use dynamic_memory_allocator.Heap.{Piece}
use dynamic_memory_allocator.Heap.Tiles.{}
use dynamic_memory_allocator.Heap.Walk.{address}
use dynamic_memory_allocator.Heap.Blocks.{UsedIn-apart}
use dynamic_memory_allocator.Heap.Open.{}
use dynamic_memory_allocator.Heap.Allocate.{IsSound, malloc-IsGiven}
use dynamic_memory_allocator.Heap.Begin.{IsFresh, mm_init-IsBegun}
use dynamic_memory_allocator.Memlib.{mem_write}
use dynamic_memory_allocator.Heap.Dispose.{}
use dynamic_memory_allocator.Heap.Cleared.{calloc-IsServed}
use dynamic_memory_allocator.Heap.Move.{IsMoved, freed, refused, moved, realloc-IsMoved}
use dynamic_memory_allocator.Heap.Served.{
  Grant, IsServed, IsHeld, Other, Distinct, malloc-IsServed, free-IsServed, store-IsServed,
}

-- One call of the client, and the grants that it holds before and after.
pub data Step (s : State) : List Grant → State → List Grant → Type 0 where
  gets :
      {live : List Grant} {t : State}
      → (size r : ℕ) → size < 2 ^ 61
      → malloc size s ≡ done r t
      → r ≢ null
      → Step s live t (record { payload = r; size = size } ∷ live)
  gets_none :
      {live : List Grant} {t : State}
      → (size : ℕ) → size < 2 ^ 61
      → malloc size s ≡ done null t
      → Step s live t live
  puts :
      {t : State}
      → (before : List Grant) (g : Grant) (after : List Grant) → free g.payload s ≡ done tt t
      → Step s (before ++ g ∷ after) t (before ++ after)
  clears :
      {live : List Grant} {t : State}
      → (elements size r : ℕ) → elements * size < 2 ^ 61
      → calloc elements size s ≡ done r t
      → r ≢ null
      → Step s live t (record { payload = r; size = elements * size } ∷ live)
  clears_none :
      {live : List Grant} {t : State}
      → (elements size : ℕ) → elements * size < 2 ^ 61
      → calloc elements size s ≡ done null t
      → Step s live t live
  moves :
      {t : State}
      → (before : List Grant) (g : Grant) (after : List Grant) → (size r : ℕ) → size < 2 ^ 61
      → realloc g.payload size s ≡ done r t
      → r ≢ null
      → Step s (before ++ g ∷ after) t (record { payload = r; size = size } ∷ before ++ after)
  moves_none :
      {t : State}
      → (before : List Grant) (g : Grant) (after : List Grant) → (size : ℕ) → size ≢ 0
      → size < 2 ^ 61
      → realloc g.payload size s ≡ done null t
      → Step s (before ++ g ∷ after) t (before ++ g ∷ after)
  moves_away :
      {t : State}
      → (before : List Grant) (g : Grant) (after : List Grant) → realloc g.payload 0 s ≡ done null t
      → Step s (before ++ g ∷ after) t (before ++ after)
  stores :
      {t : State}
      → (before : List Grant) (g : Grant) (after : List Grant) → (x v n : ℕ) → g.payload ≤ x
      → x + n ≤ g.payload + g.size
      → mem_write x v n s ≡ done tt t
      → Step s (before ++ g ∷ after) t (before ++ g ∷ after)

-- What a client can reach from fresh memory.
pub data Reaches : State → List Grant → Type 0 where
  begins : (s : State) {t : State} → IsFresh s → mm_init s ≡ done true t → Reaches t []
  calls :
      {s t : State} {live live' : List Grant}
      → Reaches s live
      → Step s live t live'
      → Reaches t live'

begun-IsServed : (s : State) (t : State) → IsFresh s → mm_init s ≡ done true t → IsServed t []
begun-IsServed s t fresh run = elim (Ends-done (subst (Ends _) run (mm_init-IsBegun s fresh))) [
  | inl failed ↦ (let wrong : true ≡ false = failed in cc)
  | inr (answer, base, chunk) ↦ record {
    ps = chunk.ps;
    sound = chunk.sound;
    held = tt;
    distinct = tt;
    only = chunk.unused;
  }
]

module _ {s t : State} {before after : List Grant} where
  moved_to :
      {size r : ℕ}
      → IsMoved s before after size r t
      → r ≢ null
      → IsServed t (record { payload = r; size = size } ∷ before ++ after)
  moved_to (freed no_bytes nothing served) some_address = absurd (some_address nothing)
  moved_to (refused some_bytes nothing same) some_address = absurd (some_address nothing)
  moved_to (moved some_bytes served) some_address = served

  not_moved :
      {live : List Grant} {size : ℕ}
      → IsServed s live
      → size ≢ 0
      → IsMoved s before after size null t
      → IsServed t live
  not_moved h some_bytes (freed no_bytes nothing served) = absurd (some_bytes no_bytes)
  not_moved {live = live} h some_bytes (refused other nothing same) =
      subst (λ u. IsServed u live) (sym same) h
  not_moved h some_bytes (moved other served) =
      let here : null ≡ served.held.0.block + 8 = served.held.0.at in absurd (omega arith)

  moved_away : IsMoved s before after 0 null t → IsServed t (before ++ after)
  moved_away (freed no_bytes nothing served) = served
  moved_away (refused some_bytes nothing same) = absurd (some_bytes refl)
  moved_away (moved some_bytes served) = absurd (some_bytes refl)

Step-IsServed :
    (s t : State) (live live' : List Grant)
    → IsServed s live
    → Step s live t live'
    → IsServed t live'
Step-IsServed s t live live' h (gets size r small run some_address) =
    elim (Ends-done (subst (Ends _) run (malloc-IsServed s live h size small))) [
      | inl (nothing, same) ↦ absurd (some_address nothing)
      | inr served ↦ served
    ]
Step-IsServed s t live live' h (gets_none size small run) =
    elim (Ends-done (subst (Ends _) run (malloc-IsGiven s h.ps h.sound size small))) [
      | inl (nothing, same) ↦ subst (λ u. IsServed u live) (sym same) h
      | inr (bytes, given) ↦
          let here : null ≡ address t given.xs + 8 = given.here in absurd (omega arith)
    ]
Step-IsServed s t live live' h (puts before g after run) =
    Ends-done (subst (Ends _) run (free-IsServed s before g after h))
Step-IsServed s t live live' h (clears elements size r small run some_address) =
    elim (Ends-done (subst (Ends _) run (calloc-IsServed s live h elements size small))) [
      | inl (nothing, same) ↦ absurd (some_address nothing)
      | inr (served, zeros) ↦ served
    ]
Step-IsServed s t live live' h (clears_none elements size small run) =
    elim (Ends-done (subst (Ends _) run (calloc-IsServed s live h elements size small))) [
      | inl (nothing, same) ↦ subst (λ u. IsServed u live) (sym same) h
      | inr (served, zeros) ↦
          let here : null ≡ served.held.0.block + 8 = served.held.0.at in absurd (omega arith)
    ]
Step-IsServed s t live live' h (moves before g after size r small run some_address) =
    moved_to (Ends-done (subst (Ends _) run (realloc-IsMoved s before g after h size small)))
      some_address
Step-IsServed s t live live' h (moves_none before g after size some_bytes small run) =
    not_moved h some_bytes
      (Ends-done (subst (Ends _) run (realloc-IsMoved s before g after h size small)))
Step-IsServed s t live live' h (moves_away before g after run) =
    moved_away (Ends-done (subst (Ends _) run (realloc-IsMoved s before g after h 0 (omega arith))))
Step-IsServed s t live live' h (stores before g after x v n lower upper run) =
    Ends-done (subst (Ends _) run (store-IsServed s before g after h x v n lower upper))

-- Every state that a client can reach from fresh memory by `mm_init`, calls of `malloc`,
-- `free`, `realloc` and `calloc` and writes to payloads that it holds has its heap in order, each
-- grant in a block in use of its own that is large enough, and no block in use but those: none is
-- lost.
pub Reaches-IsServed : (s : State) (live : List Grant) → Reaches s live → IsServed s live
Reaches-IsServed s live (begins s' fresh run) = begun-IsServed s' s fresh run
Reaches-IsServed s live (calls {s = s'} {live = live'} before step) =
    Step-IsServed s' s live' live (Reaches-IsServed s' live' before) step

-- The payloads of two grants do not overlap.
abbrev pub ApartGrants : Grant → Grant → Type 0
ApartGrants g h = (g.payload + g.size ≤ h.payload) ⊎ (h.payload + h.size ≤ g.payload)

abbrev pub Pairwise : List Grant → Type 0
Pairwise [] = Unit
Pairwise (g ∷ gs) = All (ApartGrants g) gs × Pairwise gs

module _ (s : State) (ps : List Piece) (h : IsSound s ps) where
  held_apart : (g i : Grant) → IsHeld s ps g → IsHeld s ps i → Other g i → ApartGrants g i
  held_apart g i first second differ =
      let at : g.payload ≡ first.block + 8 = first.at in
      let at' : i.payload ≡ second.block + 8 = second.at in
      let enough : g.size + 8 ≤ first.room = first.enough in
      let enough' : i.size + 8 ≤ second.room = second.enough in
      let apart =
        UsedIn-apart _ _ _ _ ps _ first.block first.room second.block second.room h.ready.heap.tiles
          first.block_used second.block_used λ same. differ (omega arith) in
      omega arith

  held-Pairwise : (live : List Grant) → All (IsHeld s ps) live → Distinct live → Pairwise live
  held-Pairwise [] held distinct = tt
  held-Pairwise (g ∷ live) held distinct = (
    All-both (IsHeld s ps) (Other g) (ApartGrants g)
        (λ i second differ. held_apart g i held.0 second differ) live held.1 distinct.0,
    held-Pairwise live held.1 distinct.1,
  )

-- The grants that a client holds in a state that it can reach do not overlap, any two of them.
pub Reaches-Pairwise : (s : State) (live : List Grant) → Reaches s live → Pairwise live
Reaches-Pairwise s live reached =
    let served = Reaches-IsServed s live reached in
    held-Pairwise s served.ps served.sound live served.held served.distinct
