-- ===== src/Heap/Take.antt =====
-- Taking a free neighbour of the gap out of its list, which widens the gap.
use mathlib.Core.Path.{subst}
use dynamic_memory_allocator.Base.{
  ℕ, ◌+◌, ◌≡◌, refl, sym, ap, Bool, true, false, List, [], ◌∷◌, ◌++◌, arith, ◌==◌, inl, inr,
}
use dynamic_memory_allocator.Machine.{State}
use dynamic_memory_allocator.Machine.Ends.{Ends, Ends-mono}
use dynamic_memory_allocator.Memlib.Word.{}
use dynamic_memory_allocator.Block.{min_block_size}
use dynamic_memory_allocator.FreeList.{remove_free}
use dynamic_memory_allocator.FreeList.Segregated.{}
use dynamic_memory_allocator.FreeList.Listed.{Blocks, IsListed, IsListed-iff, IsRelinked, Without}
use dynamic_memory_allocator.FreeList.Listed.Remove.{remove_free-IsListed}
use dynamic_memory_allocator.Heap.{Piece, IsPiece, Tiles, last_alloc, last_mini, Coalesced}
use dynamic_memory_allocator.Heap.Tiles.{extent, Tiles-split}
use dynamic_memory_allocator.Heap.Free.{FreeIn-bounds, FreeIn-append, FreeIn-append_of}
use dynamic_memory_allocator.Heap.Used.{IsKept, Used-IsOff}
use dynamic_memory_allocator.Heap.Open.{
  Around, IsOpen, IsOpen-IsBounded, left-relinked, right-relinked, prologue-relinked,
  Coalesced-prefix, Coalesced-head,
}

-- The state after relinking, with the gap wider. The header of the piece is still there.
pub record IsWidened (s : State) (F : Blocks) (xs : List Piece) (a e : ℕ) (pa pm : Bool)
    (ys : List Piece) (t : State) : Type 0 where
  pub relinked : IsRelinked s F t
  pub opened : IsOpen t xs a e pa pm ys

-- Relinking keeps the payloads in use.
IsRelinked-IsKept :
    (s : State) (xs : List Piece) (a e : ℕ) (pa pm : Bool) (ys : List Piece) (t : State)
    → IsOpen s xs a e pa pm ys
    → IsRelinked s (Around (s.heap + 8) xs e ys) t
    → IsKept s xs e ys t
IsRelinked-IsKept s xs a e pa pm ys t h is = record {
  base = ap State.heap is.state;
  brk = ap State.mem_brk is.state;
  limit = ap State.mem_max_addr is.state;
  payload = λ x used. is.same x (Used-IsOff s xs a e pa pm ys h x used);
}

module _ (s : State) (ws : List Piece) (p : Piece) (a e : ℕ) (pa pm : Bool) (ys : List Piece)
    (h : IsOpen s (ws ++ p ∷ []) a e pa pm ys) (free : p.alloc ≡ false) where
  abbrev before : ℕ
  before = s.heap + 8 + extent ws

  split_left :
      Tiles s.bytes (s.heap + 8) true false ws before
      × (IsPiece s.bytes before (last_alloc true ws) (last_mini false ws) p × (before + p.size ≡ a))
  split_left = Tiles-split s.bytes (s.heap + 8) true false ws (p ∷ []) a h.left

  before_listed : Around (s.heap + 8) (ws ++ p ∷ []) e ys before p.size
  before_listed =
      inl (FreeIn-append_of (s.heap + 8) ws (p ∷ []) before p.size (inr (inl (refl, refl, free))))

  without_before :
      (b n : ℕ)
      → Without before (Around (s.heap + 8) (ws ++ p ∷ []) e ys) b n
      → Around (s.heap + 8) ws e ys b n
  without_before b n (inr f, ne) = inr f
  without_before b n (inl f, ne) = elim (FreeIn-append (s.heap + 8) ws (p ∷ []) b n f) [
    | inl g ↦ inl g
    | inr (inl here) ↦ absurd (ne here.0)
    | inr (inr none_left) ↦ elim none_left [ ]
  ]

  without_before_of :
      (b n : ℕ)
      → Around (s.heap + 8) ws e ys b n
      → Without before (Around (s.heap + 8) (ws ++ p ∷ []) e ys) b n
  without_before_of b n (inl f) =
      let at_b = FreeIn-bounds _ _ _ _ ws _ b n split_left.0 f in
      (
        inl (FreeIn-append_of (s.heap + 8) ws (p ∷ []) b n (inl f)),
        λ e'. (let some_size = at_b.0.1 in omega arith),
      )
  without_before_of b n (inr f) =
      let at_b = FreeIn-bounds _ _ _ _ ys _ b n h.right.0 f in
      let gap = h.gap in
      let to_a = split_left.1.1 in let least = split_left.1.0.least in (inr f, λ e'. omega arith)

  -- The free piece before the gap leaves its list, and the gap takes it in.
  pub remove_free-before :
      Ends
        (λ _ t.
          IsWidened s (Around (s.heap + 8) (ws ++ p ∷ []) e ys) ws before e pa pm ys t
          × IsPiece t.bytes before (last_alloc true ws) (last_mini false ws) p
          × IsKept s (ws ++ p ∷ []) e ys t)
        (remove_free before s)
  remove_free-before =
      let bounds = IsOpen-IsBounded s _ a e pa pm ys h in
      let to_a = split_left.1.1 in
      let size_ok = split_left.1.0.aligned in
      let gap = h.gap in
      let multiple = h.multiple in
      Ends-mono
        (remove_free-IsListed s (Around (s.heap + 8) (ws ++ p ∷ []) e ys) before p.size
          (bounds.some_heap, bounds.small) h.listed before_listed)
        λ _ t (is, listed).
          let left =
            Tiles-split t.bytes (s.heap + 8) true false ws (p ∷ []) a
              (left-relinked s _ a e pa pm ys h t.bytes is.same) in
          (
            record {
              relinked = is;
              opened =
                  subst (λ u. IsOpen u ws before e pa pm ys) (sym is.state)
                    (record {
                      framed = record {
                        some_heap = h.framed.some_heap;
                        small = h.framed.small;
                        room = h.framed.room;
                        aligned = h.framed.aligned;
                        start = h.framed.start;
                        prologue = prologue-relinked s _ a e pa pm ys h t.bytes is.same;
                      };
                      left = left.0;
                      right = right-relinked s _ a e pa pm ys h t.bytes is.same;
                      gap = omega arith;
                      multiple = omega arith;
                      ordered_left = Coalesced-prefix true ws (p ∷ []) h.ordered_left;
                      ordered_right = h.ordered_right;
                      listed = IsListed-iff _ _ _ without_before without_before_of (
                          subst
                            (λ u.
                              IsListed u (Without before (Around (s.heap + 8) (ws ++ p ∷ []) e ys)))
                            is.state listed);
                    });
            },
            left.1.0,
            IsRelinked-IsKept s _ a e pa pm ys t h is,
          )

module _ (s : State) (xs : List Piece) (a e : ℕ) (pa pm : Bool) (p : Piece) (ys : List Piece)
    (h : IsOpen s xs a e pa pm (p ∷ ys)) (free : p.alloc ≡ false) where
  without_behind :
      (b n : ℕ)
      → Without e (Around (s.heap + 8) xs e (p ∷ ys)) b n
      → Around (s.heap + 8) xs (e + p.size) ys b n
  without_behind b n (inl f, ne) = inl f
  without_behind b n (inr (inl here), ne) = absurd (ne here.0)
  without_behind b n (inr (inr f), ne) = inr f

  without_behind_of :
      (b n : ℕ)
      → Around (s.heap + 8) xs (e + p.size) ys b n
      → Without e (Around (s.heap + 8) xs e (p ∷ ys)) b n
  without_behind_of b n (inl f) =
      let at_b = FreeIn-bounds _ _ _ _ xs _ b n h.left f in
      let gap = h.gap in (inl f, λ e'. (let some_size = at_b.0.1 in omega arith))
  without_behind_of b n (inr f) =
      let at_b = FreeIn-bounds _ _ _ _ ys _ b n h.right.0.1 f in
      let least = h.right.0.0.least in (inr (inr f), λ e'. omega arith)

  -- The free piece behind the gap leaves its list, and the gap takes it in.
  pub remove_free-behind :
      Ends
        (λ _ t.
          IsWidened s
            (Around (s.heap + 8) xs e (p ∷ ys))
            xs
            a
            (e + p.size)
            p.alloc
            (p.size == min_block_size)
            ys
            t
          × IsPiece t.bytes e pa pm p
          × IsKept s xs e (p ∷ ys) t)
        (remove_free e s)
  remove_free-behind =
      let bounds = IsOpen-IsBounded s _ a e pa pm _ h in
      let size_ok = h.right.0.0.aligned in
      let gap = h.gap in
      let multiple = h.multiple in
      Ends-mono
        (remove_free-IsListed s (Around (s.heap + 8) xs e (p ∷ ys)) e p.size
          (bounds.some_heap, bounds.small) h.listed (inr (inl (refl, refl, free))))
        λ _ t (is, listed).
          let right = right-relinked s _ a e pa pm _ h t.bytes is.same in
          (
            record {
              relinked = is;
              opened =
                  subst (λ u. IsOpen u xs a (e + p.size) p.alloc (p.size == min_block_size) ys)
                    (sym is.state)
                    (record {
                      framed = record {
                        some_heap = h.framed.some_heap;
                        small = h.framed.small;
                        room = h.framed.room;
                        aligned = h.framed.aligned;
                        start = h.framed.start;
                        prologue = prologue-relinked s _ a e pa pm _ h t.bytes is.same;
                      };
                      left = left-relinked s _ a e pa pm _ h t.bytes is.same;
                      right = (right.0.1, right.1);
                      gap = omega arith;
                      multiple = omega arith;
                      ordered_left = h.ordered_left;
                      ordered_right =
                          (Coalesced-head ys
                            (subst (λ b. Coalesced b ys) free h.ordered_right.1)).1;
                      listed = IsListed-iff _ _ _ without_behind without_behind_of (
                          subst (λ u. IsListed u (Without e (Around (s.heap + 8) xs e (p ∷ ys))))
                            is.state listed);
                    });
            },
            right.0.0,
            IsRelinked-IsKept s _ a e pa pm _ t h is,
          )
