-- ===== src/Heap/Move.antt =====
-- `realloc` of a grant keeps the client served.
use mathlib.Core.Path.{subst}
use dynamic_memory_allocator.Base.{
  ℕ, ◌+◌, ◌-◌, ◌^◌, ◌≤◌, ◌<◌, ◌≡◌, ◌≢◌, ◌∙◌, ap, refl, sym, true, List, ◌∷◌, ◌++◌, arith, inl, inr,
  All-append, ◌==◌, ==_ne, ==_iff, ltb, sub64, if◌then◌else◌, Bool-cases,
}
use dynamic_memory_allocator.Machine.{State, done, pure, ◌>>=◌, ◌>>◌}
use dynamic_memory_allocator.Machine.Ends.{Ends, ends, Ends-mono, Ends-continue}
use dynamic_memory_allocator.Memlib.{mem_memcpy}
use dynamic_memory_allocator.Memlib.Copy.{mem_memcpy-IsFilled}
use dynamic_memory_allocator.Block.{null, get_size, payload_to_header}
use dynamic_memory_allocator.Allocator.{realloc, move_block, free}
use dynamic_memory_allocator.Heap.{Piece, IsHeap}
use dynamic_memory_allocator.Heap.Fields.{get_size-HasHeader}
use dynamic_memory_allocator.Heap.Walk.{IsHeap-header}
use dynamic_memory_allocator.Heap.Blocks.{UsedIn, UsedIn-split, UsedIn-bounds, UsedIn-apart}
use dynamic_memory_allocator.Heap.Allocate.{IsSound}
use dynamic_memory_allocator.Heap.Served.{
  Grant, IsServed, IsHeld, IsGrown, IsGrown-trans, own, malloc-IsMet, free-IsGrown,
  payload-IsServed,
}

smaller-le : (m n : ℕ) → ((if ltb m n then m else n) ≤ m) × ((if ltb m n then m else n) ≤ n)
smaller-le m n = ground arith

-- The header of a block in use gives its size.
get_size-UsedIn :
    (s : State) (ps : List Piece) (b k : ℕ)
    → IsSound s ps
    → UsedIn (s.heap + 8) ps b k
    → get_size b s ≡ done k s
get_size-UsedIn s ps b k h used =
    let (xs, ys, split, at) = UsedIn-split (s.heap + 8) ps b k used in
    let header =
      IsHeap-header s xs (record { size = k; alloc = true } ∷ ys)
        (subst (λ l. IsHeap s l) split h.ready.heap) in
    subst (λ a. get_size a s ≡ done k s) (sym at) (get_size-HasHeader s _ _ _ _ _ header)

module _ (s : State) (before : List Grant) (g new : Grant) (after : List Grant)
    (h : IsServed s (new ∷ before ++ g ∷ after)) where
  abbrev old_held : IsHeld s h.ps g
  old_held = own s (new ∷ before) g after h

  abbrev new_held : IsHeld s h.ps new
  new_held = h.held.0

  -- The copy of the payload and the release of the old block.
  copied :
      (n : ℕ)
      → n ≤ new.size
      → n + 8 ≤ old_held.room
      → Ends
          (λ r t. (r ≡ new.payload) × IsServed t (new ∷ before ++ after) × IsGrown s t)
          ((do _ ← mem_memcpy new.payload g.payload n; free g.payload; pure new.payload) s)
  copied n short fits =
      let tiles = h.sound.ready.heap.tiles in
      let small = h.sound.ready.heap.small in
      let room = h.sound.ready.heap.room in
      let from = UsedIn-bounds _ _ _ _ h.ps _ _ _ tiles old_held.block_used in
      let to = UsedIn-bounds _ _ _ _ h.ps _ _ _ tiles new_held.block_used in
      let at : g.payload ≡ old_held.block + 8 = old_held.at in
      let at' : new.payload ≡ new_held.block + 8 = new_held.at in
      let enough : new.size + 8 ≤ new_held.room = new_held.enough in
      let differ : g.payload ≢ new.payload = (All-append _ before (g ∷ after) h.distinct.0).1.0 in
      let apart =
        UsedIn-apart _ _ _ _ h.ps _ new_held.block new_held.room old_held.block old_held.room tiles
          new_held.block_used old_held.block_used (λ same. differ (omega arith)) in
      Ends-continue
        (mem_memcpy-IsFilled s new.payload g.payload n small (omega arith) (omega arith)
          (omega arith))
        λ _ t (here, is).
          Ends-continue
            (free-IsGrown t (new ∷ before) g after (
              payload-IsServed s (new ∷ before ++ g ∷ after) h new_held.block new_held.room
                new_held.block_used t is.state λ y far. is.same y 8 (omega arith)))
            λ _ u (served, grown).
              let same = ap State.mem_brk is.state in
              let rest = grown.grown in
              ends (
                refl,
                served,
                record { base = grown.base ∙ ap State.heap is.state; grown = omega arith },
              )

-- What `realloc` of the grant `g` answers.
pub data IsMoved (s : State) (before after : List Grant) (size r : ℕ) (t : State) : Type 0 where
  freed : size ≡ 0 → r ≡ null → IsServed t (before ++ after) → IsMoved s before after size r t
  refused : size ≢ 0 → r ≡ null → t ≡ s → IsMoved s before after size r t
  moved :
      size ≢ 0
      → IsServed t (record { payload = r; size = size } ∷ before ++ after)
      → IsMoved s before after size r t

module _ (s : State) (before : List Grant) (g : Grant) (after : List Grant)
    (h : IsServed s (before ++ g ∷ after)) (size : ℕ) (small : size < 2 ^ 61) where
  -- The answer of `realloc`, and that the heap does not shrink.
  abbrev pub IsMovedGrown : ℕ → State → Type 0
  IsMovedGrown r t = IsMoved s before after size r t × IsGrown s t

  stays : (t : State) → t ≡ s → IsGrown s t
  stays t same =
      let brk = ap State.mem_brk same in record { base = ap State.heap same; grown = omega arith }

  move_block-IsMoved : size ≢ 0 → Ends IsMovedGrown (move_block g.payload size s)
  unfolding move_block payload_to_header
  move_block-IsMoved some_bytes =
      Ends-continue (malloc-IsMet s (before ++ g ∷ after) h size small) λ r t is. elim is [
        | inl (nothing, same) ↦
            rw ((==_iff r null).1 nothing) (ends (refused some_bytes refl same, stays t same))
        | inr (positive, served, first) ↦
            let new : Grant = record { payload = r; size = size } in
            let mine = own t (new ∷ before) g after served in
            let at : g.payload ≡ mine.block + 8 = mine.at in
            let at' : r ≡ served.held.0.block + 8 = served.held.0.at in
            let tiles = served.sound.ready.heap.tiles in
            let fits = served.sound.ready.heap.small in
            let bounds = UsedIn-bounds _ _ _ _ served.ps _ _ _ tiles mine.block_used in
            let header : sub64 g.payload 8 ≡ mine.block = omega arith in
            let payload_size : sub64 mine.room 8 ≡ mine.room - 8 = omega arith in
            let (short, shorter) = smaller-le size (mine.room - 8) in
            rw
              (
                ==_ne r null (omega arith),
                header,
                get_size-UsedIn t served.ps mine.block mine.room served.sound mine.block_used,
                payload_size,
              )
              (Ends-mono
                (copied t before g new after served
                  (if ltb size (mine.room - 8) then size else (mine.room - 8)) short (omega arith))
                λ r' u (here, done_served, second). (
                  moved some_bytes (
                      subst
                        (λ b. IsServed u (record { payload = b; size = size } ∷ before ++ after))
                        (sym here) done_served),
                  IsGrown-trans s t u first second,
                ))
      ]

  pub realloc-IsMovedGrown : Ends IsMovedGrown (realloc g.payload size s)
  unfolding realloc
  realloc-IsMovedGrown =
      let mine = own s before g after h in
      let at : g.payload ≡ mine.block + 8 = mine.at in
      elim (Bool-cases (size == 0)) [
        | inl nothing ↦ rw nothing (
            Ends-continue (free-IsGrown s before g after h)
              λ _ t (served, grown). ends (freed ((==_iff size 0).0 nothing) refl served, grown))
        | inr bytes ↦
            let some_bytes : size ≢ 0 = λ e. (let k = (==_iff size 0).1 e in cc) in
            rw (bytes, ==_ne g.payload null (omega arith)) (move_block-IsMoved some_bytes)
      ]

  -- `realloc` of a grant for less than 2 ^ 61 bytes ends. For no bytes it frees the grant; else it
  -- gives `NULL` and changes nothing, or the new grant has a block of its own. When the old grant is
  -- freed or moved, its block is in use no more: the blocks in use are just those of the grants that
  -- are left.
  pub realloc-IsMoved : Ends (IsMoved s before after size) (realloc g.payload size s)
  realloc-IsMoved = Ends-mono realloc-IsMovedGrown λ r t is. is.0
