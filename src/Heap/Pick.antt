-- ===== src/Heap/Pick.antt =====
-- `remove_free` on a free block of a heap in order: the heap is open where the block stands.
use mathlib.Core.Path.{subst}
use dynamic_memory_allocator.Base.{
  ℕ, ◌+◌, ◌-◌, ◌≤◌, ◌≡◌, ◌⊎◌, ◌∙◌, refl, sym, ap, true, false, List, ◌∷◌, ◌++◌, arith, ◌==◌, inl,
  inr,
}
use dynamic_memory_allocator.Machine.{State}
use dynamic_memory_allocator.Machine.Ends.{Ends, Ends-mono}
use dynamic_memory_allocator.Memlib.Word.{word}
use dynamic_memory_allocator.Block.{min_block_size, pack_all}
use dynamic_memory_allocator.FreeList.{remove_free}
use dynamic_memory_allocator.FreeList.Listed.{IsListed, IsListed-iff, IsRelinked, IsOff, Without}
use dynamic_memory_allocator.FreeList.Listed.Remove.{remove_free-IsListed}
use dynamic_memory_allocator.Heap.{Piece, IsPiece, Tiles, last_alloc, last_mini, Coalesced, IsHeap}
use dynamic_memory_allocator.Heap.Tiles.{Tiles-split}
use dynamic_memory_allocator.Heap.Walk.{address, head_alloc, last_alloc-append, last_mini-append}
use dynamic_memory_allocator.Heap.Free.{
  FreeIn, FreeIn-bounds, FreeIn-append, FreeIn-append_of, link_room, Tiles-relinked,
}
use dynamic_memory_allocator.Heap.Used.{InUse, InUse-FreeIn, InUse-append_of, Used, IsKept}
use dynamic_memory_allocator.Heap.Open.{
  Around, IsOpen, IsReady, Coalesced-prefix, Coalesced-suffix, Coalesced-head,
}

-- Links in the free pieces of a heap are no part of its tiling.
module _ (s : State) (ps : List Piece) (h : IsHeap s ps) (m : State)
    (same : (x : ℕ) → IsOff (FreeIn (s.heap + 8) ps) x → word m.bytes x ≡ word s.bytes x) where
  IsOff-ends : (x : ℕ) → (x ≤ s.heap) ⊎ (s.mem_brk ≤ x + 8) → IsOff (FreeIn (s.heap + 8) ps) x
  IsOff-ends x far b n f =
      let at_b = FreeIn-bounds _ _ _ _ ps _ b n h.tiles f in
      let links = link_room n at_b.0 in let room = h.room in omega arith

  tiles_relinked : Tiles m.bytes (s.heap + 8) true false ps (s.mem_brk - 8)
  tiles_relinked =
      Tiles-relinked s.bytes m.bytes (FreeIn (s.heap + 8) ps) same _ _ _ ps _
        (λ b n f. ((FreeIn-bounds _ _ _ _ ps _ b n h.tiles f).0, inr f)) h.tiles

  prologue_relinked : word m.bytes s.heap ≡ pack_all 0 true false false
  prologue_relinked = same s.heap (IsOff-ends s.heap (inl (omega arith))) ∙ h.prologue

  epilogue_relinked :
      word m.bytes (s.mem_brk - 8) ≡ pack_all 0 true (last_alloc true ps) (last_mini false ps)
  epilogue_relinked =
      let room = h.room in
      same (s.mem_brk - 8) (IsOff-ends (s.mem_brk - 8) (inr (omega arith))) ∙ h.epilogue

module _ (s : State) (xs : List Piece) (p : Piece) (ys : List Piece) (h : IsReady s (xs ++ p ∷ ys))
    (free : p.alloc ≡ false) where
  abbrev start : ℕ
  start = address s xs

  abbrev end : ℕ
  end = start + p.size

  around :
      (b n : ℕ)
      → Without start (FreeIn (s.heap + 8) (xs ++ p ∷ ys)) b n
      → Around (s.heap + 8) xs end ys b n
  around b n (f, ne) = elim (FreeIn-append (s.heap + 8) xs (p ∷ ys) b n f) [
    | inl g ↦ inl g
    | inr (inl here) ↦ absurd (ne here.0)
    | inr (inr g) ↦ inr g
  ]

  parts :
      Tiles s.bytes (s.heap + 8) true false xs start
      × Tiles s.bytes start (last_alloc true xs) (last_mini false xs) (p ∷ ys) (s.mem_brk - 8)
  parts = Tiles-split s.bytes (s.heap + 8) true false xs (p ∷ ys) _ h.heap.tiles

  around_of :
      (b n : ℕ)
      → Around (s.heap + 8) xs end ys b n
      → Without start (FreeIn (s.heap + 8) (xs ++ p ∷ ys)) b n
  around_of b n (inl f) =
      let at_b = FreeIn-bounds _ _ _ _ xs _ b n parts.0 f in
      (
        FreeIn-append_of (s.heap + 8) xs (p ∷ ys) b n (inl f),
        λ e. (let some_size = at_b.0.1 in omega arith),
      )
  around_of b n (inr f) =
      let at_b = FreeIn-bounds _ _ _ _ ys _ b n parts.1.1 f in
      let least = parts.1.0.least in
      (FreeIn-append_of (s.heap + 8) xs (p ∷ ys) b n (inr (inr f)), λ e. omega arith)

  Used-IsOff : (x : ℕ) → Used s.heap xs end ys x → IsOff (FreeIn (s.heap + 8) (xs ++ p ∷ ys)) x
  Used-IsOff x used b n f =
      let at_b = FreeIn-bounds _ _ _ _ _ _ b n h.heap.tiles f in
      let links = link_room n at_b.0 in
      let whole : InUse (s.heap + 8) (xs ++ p ∷ ys) x = (elim used [
        | inl u ↦ InUse-append_of (s.heap + 8) xs (p ∷ ys) x (inl u)
        | inr u ↦ InUse-append_of (s.heap + 8) xs (p ∷ ys) x (inr (inr u))
      ]) in
      let off = InUse-FreeIn _ _ _ _ _ _ x b n h.heap.tiles whole f in omega arith

  -- The neighbours of a free block are in use.
  pub neighbours_used : (last_alloc true xs ≡ true) × (head_alloc ys ≡ true)
  neighbours_used =
      let order = Coalesced-suffix true xs (p ∷ ys) h.ordered in
      (
        elim order.0 [ inl used ↦ used | inr used ↦ cc ],
        (Coalesced-head ys (subst (λ b. Coalesced b ys) free order.1)).0,
      )

  pub record IsPicked (t : State) : Type 0 where
    pub opened : IsOpen t xs start end false (p.size == min_block_size) ys
    pub piece : IsPiece t.bytes start true (last_mini false xs) p
    pub kept : IsKept s xs end ys t

  picked_opened :
      (t : State)
      → IsRelinked s (FreeIn (s.heap + 8) (xs ++ p ∷ ys)) t
      → IsListed t (Without start (FreeIn (s.heap + 8) (xs ++ p ∷ ys)))
      → IsOpen t xs start end false (p.size == min_block_size) ys
  picked_opened t is listed =
      let whole = h.heap in
      let split =
        Tiles-split t.bytes (s.heap + 8) true false xs (p ∷ ys) _
          (tiles_relinked s _ whole t is.same) in
      let least = parts.1.0.least in
      let aligned = parts.1.0.aligned in
      let order = Coalesced-suffix true xs (p ∷ ys) h.ordered in
      subst (λ u. IsOpen u xs start end false (p.size == min_block_size) ys) (sym is.state)
        (record {
          framed = record {
            some_heap = whole.some_heap;
            small = whole.small;
            room = whole.room;
            aligned = whole.aligned;
            start = whole.start;
            prologue = prologue_relinked s _ whole t is.same;
          };
          left = split.0;
          right = (
            subst (λ b. Tiles t.bytes end b (p.size == min_block_size) ys (s.mem_brk - 8)) free
                split.1.1,
            epilogue_relinked s _ whole t is.same
                ∙ rw (last_alloc-append, last_mini-append, free) refl,
          );
          gap = omega arith;
          multiple = omega arith;
          ordered_left = Coalesced-prefix true xs (p ∷ ys) h.ordered;
          ordered_right = (Coalesced-head ys (subst (λ b. Coalesced b ys) free order.1)).1;
          listed = IsListed-iff _ _ _ around around_of (
              subst (λ u. IsListed u (Without start (FreeIn (s.heap + 8) (xs ++ p ∷ ys)))) is.state
                listed);
        })

  -- `remove_free` takes the block out of the lists, and nothing else changes.
  pub remove_free-IsPicked : Ends (λ _. IsPicked) (remove_free start s)
  remove_free-IsPicked =
      Ends-mono
        (remove_free-IsListed s (FreeIn (s.heap + 8) (xs ++ p ∷ ys)) start p.size
          (h.heap.some_heap, h.heap.small) h.listed
          (FreeIn-append_of (s.heap + 8) xs (p ∷ ys) start p.size (inr (inl (refl, refl, free)))))
        λ _ t (is, listed).
          let split =
            Tiles-split t.bytes (s.heap + 8) true false xs (p ∷ ys) _
              (tiles_relinked s _ h.heap t is.same) in
          record {
            opened = picked_opened t is listed;
            piece =
                subst (λ b. IsPiece t.bytes start b (last_mini false xs) p) neighbours_used.0
                  split.1.0;
            kept = record {
              base = ap State.heap is.state;
              brk = ap State.mem_brk is.state;
              limit = ap State.mem_max_addr is.state;
              payload = λ x used. is.same x (Used-IsOff x used);
            };
          }
