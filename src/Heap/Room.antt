-- ===== src/Heap/Room.antt =====
-- How the blocks in use of a heap in order bound the requests that they serve: where a payload
-- lies, and how many bytes all of them have together.
use mathlib.Core.Path.{subst}
use dynamic_memory_allocator.Base.{
  ℕ, ◌+◌, ◌-◌, ◌%◌, ◌^◌, ◌≤◌, ◌<◌, ◌≡◌, ◌≢◌, ◌⊎◌, ◌∙◌, refl, sym, true, List, [], ◌∷◌, ◌++◌, arith,
  false, inl, inr, All, All-drop_middle, All-map, All-both,
}
use dynamic_memory_allocator.Machine.{State}
use dynamic_memory_allocator.Heap.{Piece, Tiles}
use dynamic_memory_allocator.Heap.Tiles.{extent, Tiles-split, Tiles-end}
use dynamic_memory_allocator.Heap.Blocks.{UsedIn, UsedIn-split}
use dynamic_memory_allocator.Heap.Allocate.{IsSound, extent-multiple}
use dynamic_memory_allocator.Heap.Served.{Grant, IsServed, IsHeld, Other, Distinct, Distinct-drop}

abbrev pub total : List Grant → ℕ
total [] = 0
total (g ∷ gs) = g.size + total gs

pub total-middle :
    (before : List Grant) (g : Grant) (after : List Grant)
    → total (before ++ g ∷ after) ≡ g.size + total (before ++ after)
total-middle [] g after = refl
total-middle (b ∷ before) g after = omega (arith, total-middle before g after)

-- A block in use of the pieces from `a` on serves the grant.
record HeldFrom (a : ℕ) (ps : List Piece) (g : Grant) : Type 0 where
  pub block : ℕ
  pub room : ℕ
  pub at : g.payload ≡ block + 8
  pub block_used : UsedIn a ps block room
  pub enough : g.size + 8 ≤ room

-- Either all have the one property, or one is found that has the other.
first_found :
    (P Q : Grant → Type 0) (gs : List Grant)
    → All (λ g. P g ⊎ Q g) gs
    → All Q gs
      ⊎ ((before : List Grant) × (g : Grant) × (after : List Grant) × (gs ≡ before ++ g ∷ after)
          × P g)
first_found P Q [] h = inl tt
first_found P Q (g ∷ gs) (inl p, rest) = inr ([], g, gs, refl, p)
first_found P Q (g ∷ gs) (inr q, rest) = elim (first_found P Q gs rest) [
  | inl all ↦ inl (q, all)
  | inr (before, h, after, split, p) ↦ inr (g ∷ before, h, after, rw split refl, p)
]

-- The first block of the pieces serves the grant.
abbrev HeldFirst : ℕ → Piece → Grant → Type 0
HeldFirst a p g = (g.payload ≡ a + 8) × (g.size + 8 ≤ p.size)

module _ (a : ℕ) (p : Piece) (ps : List Piece) (g : Grant) (h : HeldFrom a (p ∷ ps) g) where
  first_or_later : HeldFirst a p g ⊎ HeldFrom (a + p.size) ps g
  first_or_later =
      let at = h.at in
      let enough = h.enough in
      elim h.block_used [
        | inl (here, room, used) ↦ inl (omega arith, omega arith)
        | inr later ↦ inr (record {
          block = h.block;
          room = h.room;
          at = h.at;
          block_used = later;
          enough = h.enough;
        })
      ]

  later : g.payload ≢ a + 8 → HeldFrom (a + p.size) ps g
  later other = elim first_or_later [ inl first ↦ absurd (other first.0) | inr rest ↦ rest ]

-- Together the requests fit in the pieces.
total-fits :
    (a : ℕ) (ps : List Piece) (live : List Grant)
    → All (HeldFrom a ps) live
    → Distinct live
    → total live ≤ extent ps
total-fits a [] [] held distinct = omega arith
total-fits a [] (g ∷ live) held distinct = elim held.0.block_used [ ]
total-fits a (p ∷ ps) live held distinct =
    elim (first_found (HeldFirst a p) (HeldFrom (a + p.size) ps) live
      (All-map (HeldFrom a (p ∷ ps)) _ live (first_or_later a p ps) held)) [
        | inl rest ↦ omega (arith, total-fits (a + p.size) ps live rest distinct)
        | inr (before, g, after, split, first) ↦
            let (distinct1, others) =
              Distinct-drop before g after (subst Distinct split distinct) in
            let held1 =
              All-drop_middle (HeldFrom a (p ∷ ps)) before g after
                (subst (All (HeldFrom a (p ∷ ps))) split held) in
            let rest =
              All-both (HeldFrom a (p ∷ ps)) (Other g) (HeldFrom (a + p.size) ps)
                (λ i h other. later a p ps i h λ e. other (e ∙ sym first.0)) (before ++ after) held1
                others in
            let fits = total-fits (a + p.size) ps (before ++ after) rest distinct1 in
            rw split (omega (arith, total-middle before g after, first.1))
      ]

module _ (s : State) where
  -- The requests that a client holds have no more bytes together than the heap.
  pub total-IsServed : (live : List Grant) → IsServed s live → total live + s.heap + 16 ≤ s.mem_brk
  total-IsServed live h =
      let fits =
        total-fits (s.heap + 8) h.ps live
          (All-map (IsHeld s h.ps) _ live
            (λ g held. record {
              block = held.block;
              room = held.room;
              at = held.at;
              block_used = held.block_used;
              enough = held.enough;
            })
            h.held)
          h.distinct in
      let room = h.sound.ready.heap.room in
      let end = Tiles-end _ _ _ _ h.ps _ h.sound.ready.heap.tiles in omega arith

  -- Where the payload of a grant lies.
  pub record IsPlacedIn (g : Grant) : Type 0 where
    pub lower : s.heap < g.payload
    pub upper : g.payload + g.size ≤ s.mem_brk
    pub aligned : g.payload % 16 ≡ 0
    pub small : s.mem_brk < 2 ^ 63

  pub IsHeld-IsPlacedIn :
      (ps : List Piece) → IsSound s ps → (g : Grant) → IsHeld s ps g → IsPlacedIn g
  IsHeld-IsPlacedIn ps h g held =
      let (xs, ys, split, start) =
        UsedIn-split (s.heap + 8) ps held.block held.room held.block_used in
      let mine : Piece = record { size = held.room; alloc = true } in
      let tiles = Tiles-split s.bytes (s.heap + 8) true false xs (mine ∷ ys) _ (
        subst (λ l. Tiles s.bytes (s.heap + 8) true false l (s.mem_brk - 8)) split
          h.ready.heap.tiles) in
      let multiple = extent-multiple _ _ _ _ xs _ tiles.0 in
      let base = h.ready.heap.aligned in
      let room = h.ready.heap.room in
      let bounded = h.limits.bounded in
      let small = h.limits.small in
      let at = held.at in
      let enough = held.enough in
      let end = Tiles-end _ _ _ _ ys _ tiles.1.1 in
      record {
        lower = omega arith;
        upper = omega arith;
        aligned = omega arith;
        small = omega arith;
      }
