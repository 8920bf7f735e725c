-- ===== src/Heap/Fill/Unlisted.antt =====
-- A free piece that fills the gap goes to its list.
use mathlib.Core.Path.{subst}
use mathlib.Core.Bool.{}
use dynamic_memory_allocator.Base.{
  ℕ, ◌+◌, ◌-◌, ◌≤◌, ◌≡◌, ◌⊎◌, ◌∙◌, refl, sym, ap, true, false, List, ◌∷◌, ◌++◌, arith, ◌==◌, inl,
  inr,
}
use dynamic_memory_allocator.Machine.{State}
use dynamic_memory_allocator.Machine.Ends.{Ends, Ends-mono}
use dynamic_memory_allocator.Memlib.Word.{word}
use dynamic_memory_allocator.Block.{min_block_size, extract_size}
use dynamic_memory_allocator.Block.Header.{extract-pack_all}
use dynamic_memory_allocator.FreeList.{insert_free}
use dynamic_memory_allocator.FreeList.Chain.{Clear}
use dynamic_memory_allocator.FreeList.Segregated.{}
use dynamic_memory_allocator.FreeList.Listed.{
  Blocks, IsListed, IsListed-iff, IsRelinked, IsOff, With,
}
use dynamic_memory_allocator.FreeList.Listed.Insert.{insert_free-IsListed}
use dynamic_memory_allocator.Heap.{Piece, IsPiece, last_mini, IsHeap}
use dynamic_memory_allocator.Heap.Packed.{}
use dynamic_memory_allocator.Heap.Tiles.{extent, Tiles-end}
use dynamic_memory_allocator.Heap.Walk.{}
use dynamic_memory_allocator.Heap.Free.{
  FreeIn, FreeIn-bounds, FreeIn-append, FreeIn-append_of, IsSize, link_room, Tiles-relinked,
}
use dynamic_memory_allocator.Heap.Used.{Used, IsKept, Used-bounds, Used-IsOff}
use dynamic_memory_allocator.Heap.Open.{
  Around, IsOpen, IsOpen-IsBounded, IsReady, FreeIn-before, FreeIn-behind, IsHeap-close,
  Coalesced-join, Coalesced-used,
}
use dynamic_memory_allocator.Heap.Fill.Gap.{IsFlanked, filler}

-- The gap is a free piece with the right flags behind it, in no list yet.
pub record IsUnlisted (s : State) (xs : List Piece) (a e : ℕ) (ys : List Piece) : Type 0 where
  pub opened : IsOpen s xs a e false (e - a == min_block_size) ys
  pub piece : IsPiece s.bytes a true (last_mini false xs) (filler a e)

module _ (s : State) (xs : List Piece) (a e : ℕ) (ys : List Piece) (flanked : IsFlanked xs ys)
    (h : IsUnlisted s xs a e ys) where
  abbrev whole : List Piece
  whole = xs ++ filler a e ∷ ys

  abbrev listed_set : Blocks
  listed_set = With a (e - a) (Around (s.heap + 8) xs e ys)

  unlisted-IsHeap : IsHeap s whole
  unlisted-IsHeap =
      let gap = h.opened.gap in
      let to_e : a + (e - a) ≡ e = omega arith in
      IsHeap-close s xs a (filler a e) ys h.opened.framed h.opened.left
        (rw (flanked.left_used) (h.piece)) (rw to_e (h.opened.right))

  left_end : a ≡ s.heap + 8 + extent xs
  left_end = Tiles-end _ _ _ _ xs _ h.opened.left

  to_whole : (b n : ℕ) → listed_set b n → FreeIn (s.heap + 8) whole b n
  to_whole b n (inl here) =
      FreeIn-append_of _ xs (filler a e ∷ ys) b n (inr (inl (here.0 ∙ left_end, here.1, refl)))
  to_whole b n (inr (inl f)) = FreeIn-append_of _ xs (filler a e ∷ ys) b n (inl f)
  to_whole b n (inr (inr f)) =
      let gap = h.opened.gap in
      let to_e : s.heap + 8 + extent xs + (e - a) ≡ e = omega (arith, left_end) in
      FreeIn-append_of _ xs (filler a e ∷ ys) b n (inr (inr (rw to_e f)))

  from_whole : (b n : ℕ) → FreeIn (s.heap + 8) whole b n → listed_set b n
  from_whole b n f = elim (FreeIn-append _ xs (filler a e ∷ ys) b n f) [
    | inl g ↦ inr (inl g)
    | inr (inl here) ↦ inl (here.0 ∙ sym left_end, here.1)
    | inr (inr g) ↦
        let gap = h.opened.gap in
        let to_e : s.heap + 8 + extent xs + (e - a) ≡ e = omega (arith, left_end) in
        inr (inr (rw to_e at g))
  ]

  clear : (b n : ℕ) → Around (s.heap + 8) xs e ys b n → Clear a b
  clear b n (inl f) =
      let size = (FreeIn-bounds _ _ _ _ xs _ b n h.opened.left f).0.1 in
      let off = FreeIn-before _ _ _ _ xs _ b n h.opened.left flanked.left_used f in omega arith
  clear b n (inr f) =
      let gap = h.opened.gap in
      let off = FreeIn-behind _ _ _ _ ys _ b n h.opened.right.0 flanked.right_used f in omega arith

  placed : (b n : ℕ) → listed_set b n → IsSize n × (s.heap + 8 ≤ b) × (b + n ≤ s.mem_brk - 8)
  placed b n f = FreeIn-bounds _ _ _ _ whole _ b n unlisted-IsHeap.tiles (to_whole b n f)

  IsOff-ends : (x : ℕ) → (x ≤ s.heap) ⊎ (s.mem_brk ≤ x + 8) → IsOff listed_set x
  IsOff-ends x far b n f =
      let at_b = placed b n f in
      let links = link_room n at_b.0 in let room = h.opened.framed.room in omega arith

  inserted_heap : (t : State) → IsRelinked s listed_set t → IsListed t listed_set → IsReady t whole
  inserted_heap t is listed =
      let before = unlisted-IsHeap in
      let room = before.room in
      subst (λ u. IsReady u whole) (sym is.state)
        (record {
          heap = record {
            some_heap = before.some_heap;
            small = before.small;
            room = before.room;
            aligned = before.aligned;
            start = before.start;
            prologue = is.same s.heap (IsOff-ends s.heap (inl (omega arith))) ∙ before.prologue;
            tiles =
                Tiles-relinked s.bytes t.bytes listed_set is.same _ _ _ whole _
                  (λ b n f. ((placed b n f).0, inr (to_whole b n f))) before.tiles;
            epilogue =
                is.same (s.mem_brk - 8) (IsOff-ends (s.mem_brk - 8) (inr (omega arith)))
                ∙ before.epilogue;
          };
          ordered =
              Coalesced-join true xs (filler a e ∷ ys) h.opened.ordered_left (
                inl flanked.left_used,
                Coalesced-used ys flanked.right_used h.opened.ordered_right,
              );
          listed =
              IsListed-iff _ listed_set _ to_whole from_whole
                (subst (λ u. IsListed u listed_set) is.state listed);
        })

  inserted-IsOff : (x : ℕ) → Used s.heap xs e ys x → IsOff listed_set x
  inserted-IsOff x used b n (inl here) =
      let gap = h.opened.gap in
      let multiple = h.opened.multiple in
      let links = link_room n (omega arith, omega arith) in
      let at_x = Used-bounds s xs a e _ _ ys h.opened x used in omega arith
  inserted-IsOff x used b n (inr f) = Used-IsOff s xs a e _ _ ys h.opened x used b n f

  -- `insert_free` on the new piece puts the heap in order.
  pub insert_free-IsReady : Ends (λ _ t. IsReady t whole × IsKept s xs e ys t) (insert_free a s)
  insert_free-IsReady =
      let bounds = IsOpen-IsBounded s xs a e _ _ ys h.opened in
      let lower = bounds.lower in
      let upper = bounds.upper in
      let small = bounds.small in
      let gap = h.opened.gap in
      let multiple = h.opened.multiple in
      let size : extract_size (word s.bytes a) ≡ e - a =
        ap extract_size h.piece.header
        ∙ (extract-pack_all (e - a) false true (last_mini false xs) (omega arith)).0 in
      Ends-mono
        (insert_free-IsListed s (Around (s.heap + 8) xs e ys) a (e - a)
          (bounds.some_heap, bounds.small) h.opened.listed (omega arith) size clear)
        λ _ t (is, listed). (
          inserted_heap t is listed,
          record {
            base = ap State.heap is.state;
            brk = ap State.mem_brk is.state;
            limit = ap State.mem_max_addr is.state;
            payload = λ x used. is.same x (inserted-IsOff x used);
          },
        )
