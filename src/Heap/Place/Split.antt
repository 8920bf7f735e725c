-- ===== src/Heap/Place/Split.antt =====
-- `split_block` on a block in use with a block in use behind it, and coalescing what is cut off.
use mathlib.Core.Path.{subst}
use dynamic_memory_allocator.Base.{
  ℕ, ◌+◌, ◌-◌, ◌%◌, ◌≤◌, ◌≡◌, ◌⊎◌, refl, sym, Bool, true, false, List, [], ◌∷◌, ◌++◌, arith, ◌==◌,
  inl, inr, leb, sub64,
}
use dynamic_memory_allocator.Machine.{State, pure, ◌>>=◌, ◌>>◌}
use dynamic_memory_allocator.Machine.Ends.{Ends, ends, Ends-mono, Ends-continue}
use dynamic_memory_allocator.Memlib.Word.{}
use dynamic_memory_allocator.Block.{min_block_size, write_pack, find_next, write_prev_alloc}
use dynamic_memory_allocator.Block.PrevAlloc.{write_prev_alloc_free}
use dynamic_memory_allocator.Allocator.{split_block}
use dynamic_memory_allocator.Heap.{Piece, IsPiece, last_alloc, last_mini}
use dynamic_memory_allocator.Heap.Packed.{write_pack-IsPacked}
use dynamic_memory_allocator.Heap.Fields.{
  HasHeader, get_size-HasHeader, get_prev_alloc-HasHeader, get_prev_mini-HasHeader,
  find_next-HasHeader,
}
use dynamic_memory_allocator.Heap.Tiles.{}
use dynamic_memory_allocator.Heap.Walk.{last_alloc-append, last_mini-append}
use dynamic_memory_allocator.Heap.Used.{InUse-append_of, IsKept, IsKept-trans}
use dynamic_memory_allocator.Heap.Open.{IsOpen, IsOpen-IsBounded}
use dynamic_memory_allocator.Heap.Fill.{
  piece_in, filler, IsFilled, write_pack-IsFilled, IsOpen-inside, IsKept-inside,
}
use dynamic_memory_allocator.Heap.Coalesce.{IsFreed, IsPiece-HasHeader}
use dynamic_memory_allocator.Heap.Coalesce.Mark.{freed_header}
use dynamic_memory_allocator.Heap.Place.Taken.{IsOpen-shrink}

-- A block in use fills the gap, and the right flags stand behind it.
pub record IsTaken (s : State) (xs : List Piece) (a e : ℕ) (ys : List Piece) : Type 0 where
  pub opened : IsOpen s xs a e true (e - a == min_block_size) ys
  pub piece : IsPiece s.bytes a true (last_mini false xs) (piece_in a e true)
  pub left_used : last_alloc true xs ≡ true

-- Its front stays in use, the rest is free and in no list.
pub record IsSplit (s : State) (xs : List Piece) (a n e : ℕ) (pm : Bool) (ys : List Piece)
    (t : State) : Type 0 where
  pub freed : IsFreed t (xs ++ record { size = n; alloc = true } ∷ []) (a + n) e true pm ys
  pub kept : IsKept s xs e ys t

module _ (s : State) (xs : List Piece) (a e : ℕ) (ys : List Piece) (h : IsTaken s xs a e ys) (n : ℕ)
    (multiple : n % 16 ≡ 0) (least : 16 ≤ n) where
  abbrev kind : Bool
  kind = e - a == min_block_size

  abbrev front : Piece
  front = record { size = n; alloc = true }

  pub taken_header : HasHeader s a (e - a) true true (last_mini false xs)
  taken_header =
      let bounds = IsOpen-IsBounded s xs a e true kind ys h.opened in
      let lower = bounds.lower in
      let upper = bounds.upper in
      let gap = h.opened.gap in
      IsPiece-HasHeader s a _ _ (piece_in a e true) (omega arith) (omega arith) bounds.small h.piece

  -- Payloads in use behind a longer run are those behind a shorter one.
  pub fewer-IsKept : (t u : State) → IsKept t (xs ++ front ∷ []) e ys u → IsKept t xs e ys u
  fewer-IsKept t u k = record {
    base = k.base;
    brk = k.brk;
    limit = k.limit;
    payload = λ x used. elim used [
      | inl v ↦ k.payload x (inl (InUse-append_of (t.heap + 8) xs (front ∷ []) x (inl v)))
      | inr v ↦ k.payload x (inr v)
    ];
  }

  module _ (room : a + n + 16 ≤ e) where
    -- The shorter header.
    record IsShort (t : State) : Type 0 where
      pub opened : IsOpen t (xs ++ front ∷ []) (a + n) e true kind ys
      pub header : HasHeader t a n true true (last_mini false xs)
      pub kept : IsKept s xs e ys t

    IsShort-front : Ends (λ _. IsShort) (write_pack a n true true (last_mini false xs) s)
    IsShort-front =
        let bounds = IsOpen-IsBounded s xs a e true kind ys h.opened in
        let lower = bounds.lower in
        let upper = bounds.upper in
        let small = bounds.small in
        Ends-mono
          (write_pack-IsPacked s a n true true (last_mini false xs)
            (record { small = small; lower = omega arith; upper = omega arith; fits = omega arith })
            (λ free. let no : true ≡ false = free in cc))
          λ _ t is.
            let only = λ (x : ℕ) (far : (x + 8 ≤ a) ⊎ (e ≤ x)).
              is.same x (omega arith) (λ free large. let no : true ≡ false = free in cc) in
            let inside = IsOpen-inside s xs a e true kind ys h.opened t is.state only in
            let bounds' = IsOpen-IsBounded t xs a e true kind ys inside in
            let lower' = bounds'.lower in
            let upper' = bounds'.upper in
            let small' = bounds'.small in
            let piece : IsPiece t.bytes a (last_alloc true xs) (last_mini false xs) front = record {
              header = rw h.left_used is.header;
              footer = λ free large. let no : true ≡ false = free in cc;
              aligned = multiple;
              least = least;
            } in
            record {
              opened = IsOpen-shrink t xs a e true kind ys inside front piece refl room;
              header = record { inside = omega arith; fits = omega arith; header = is.header };
              kept = IsKept-inside s xs a e true kind ys h.opened t is.state only;
            }

    -- The rest becomes a free block.
    free_rest :
        (t : State) (short : IsShort t)
        → Ends
            (λ _. IsFilled t (xs ++ front ∷ []) (a + n) e true kind ys short.opened false true)
            (write_pack (a + n) (e - (a + n)) false true (n == min_block_size) t)
    free_rest t short =
        subst
          (λ mini.
            Ends (λ _. IsFilled t (xs ++ front ∷ []) (a + n) e true kind ys short.opened false true)
              (write_pack (a + n) (e - (a + n)) false true mini t))
          (last_mini-append false xs (front ∷ []))
          (write_pack-IsFilled t (xs ++ front ∷ []) (a + n) e true kind ys short.opened false true)

    rest-IsFreed :
        (t u : State) (short : IsShort t)
        → IsFilled t (xs ++ front ∷ []) (a + n) e true kind ys short.opened false true u
        → IsFreed u (xs ++ front ∷ []) (a + n) e true kind ys
    rest-IsFreed t u short is = record {
      opened = is.opened;
      piece =
          subst
            (λ b. IsPiece u.bytes (a + n) b (last_mini false (xs ++ front ∷ [])) (filler (a + n) e))
            (sym (last_alloc-append true xs (front ∷ []))) is.piece;
    }

    cut :
        (t : State)
        → IsShort t
        → Ends
            (λ r u. (r ≡ a + n) × IsSplit s xs a n e kind ys u)
            ((do
              block_next ← find_next a
              write_pack block_next (e - (a + n)) false true (n == min_block_size)
              next_next ← find_next block_next
              write_prev_alloc next_next false
              pure block_next)
              t)
    cut t short =
        let bounds = IsOpen-IsBounded t _ (a + n) e true kind ys short.opened in
        let upper = bounds.upper in
        let small = bounds.small in
        rw (find_next-HasHeader t a _ _ _ _ short.header (omega arith)) (
          Ends-continue (free_rest t short) λ _ u filled.
            let freed = rest-IsFreed t u short filled in
            let bounds' = IsOpen-IsBounded u _ (a + n) e true kind ys freed.opened in
            let lower' = bounds'.lower in
            let upper' = bounds'.upper in
            let small' = bounds'.small in
            let header = freed_header u _ (a + n) e true kind ys freed in
            let to_e : a + n + (e - (a + n)) ≡ e = omega arith in
            rw
              (
                find_next-HasHeader u (a + n) _ _ _ _ header (omega arith),
                to_e,
                write_prev_alloc_free u e (omega arith),
              )
              (ends (
                refl,
                record {
                  freed = freed;
                  kept = IsKept-trans s t u xs e ys short.kept (fewer-IsKept t u filled.kept);
                },
              )))

    -- `split_block` cuts the block in two.
    pub split_block-IsSplit :
        Ends (λ r t. (r ≡ a + n) × IsSplit s xs a n e kind ys t) (split_block a n s)
    unfolding split_block
    split_block-IsSplit =
        let bounds = IsOpen-IsBounded s xs a e true kind ys h.opened in
        let upper = bounds.upper in
        let small = bounds.small in
        let rest : sub64 (e - a) n ≡ e - (a + n) = omega arith in
        let enough : leb 16 (e - (a + n)) ≡ true = ground arith in
        rw
          (
            get_size-HasHeader s a _ _ _ _ taken_header,
            get_prev_alloc-HasHeader s a _ _ _ _ taken_header,
            get_prev_mini-HasHeader s a _ _ _ _ taken_header,
            rest,
            enough,
          )
          (Ends-continue IsShort-front λ _ t short. cut t short)
