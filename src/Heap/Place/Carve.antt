-- ===== src/Heap/Place/Carve.antt =====
-- `place`: what `malloc` does with the free block that it found.
use mathlib.Core.Path.{subst}
use mathlib.Core.List.{append_assoc}
use dynamic_memory_allocator.Base.{
  ℕ, ◌+◌, ◌-◌, ◌%◌, ◌≤◌, ◌<◌, ◌≡◌, refl, sym, Bool, true, false, not, List, [], ◌∷◌, ◌++◌, arith,
  ◌==◌, ==_ne, inl, inr, leb, add64, sub64, Bool-cases, if◌then◌else◌,
}
use dynamic_memory_allocator.Machine.{State, done, pure, ◌>>=◌, ◌>>◌}
use dynamic_memory_allocator.Machine.Ends.{Ends, ends, Ends-mono, Ends-continue}
use dynamic_memory_allocator.Memlib.Word.{}
use dynamic_memory_allocator.Block.{null, min_block_size, write_pack, find_next, header_to_payload}
use dynamic_memory_allocator.Allocator.{split_block, coalesce_block, place}
use dynamic_memory_allocator.Heap.{Piece, last_mini}
use dynamic_memory_allocator.Heap.Fields.{
  HasHeader, get_size-HasHeader, get_prev_alloc-HasHeader, get_prev_mini-HasHeader,
  find_next-HasHeader,
}
use dynamic_memory_allocator.Heap.Tiles.{IsPiece-same}
use dynamic_memory_allocator.Heap.Walk.{address, head_size, head_alloc, last_alloc-append}
use dynamic_memory_allocator.Heap.Used.{IsKept, IsKept-trans}
use dynamic_memory_allocator.Heap.Open.{IsOpen, IsOpen-IsBounded, IsOpen-next, IsReady}
use dynamic_memory_allocator.Heap.Fill.{
  IsFlanked, piece_in, filler, IsFilled, write_pack-IsFilled, IsMarked, IsPacked-IsMarked,
}
use dynamic_memory_allocator.Heap.Coalesce.{IsFreed, IsPiece-HasHeader}
use dynamic_memory_allocator.Heap.Coalesce.Whole.{coalesce_block-in_use}
use dynamic_memory_allocator.Heap.Pick.{IsPicked, remove_free-IsPicked, neighbours_used}
use dynamic_memory_allocator.Heap.Place.Taken.{IsOpen-close, write_prev_alloc-IsPacked}
use dynamic_memory_allocator.Heap.Place.Split.{
  IsTaken, split_block-IsSplit, taken_header, fewer-IsKept,
}

-- A free block of `k` bytes once `n` bytes of it are asked for: what is left over is split off if it
-- can be a block.
abbrev pub carved : (k n : ℕ) → List Piece
carved k n =
    if leb 16 (k - n)
    then record { size = n; alloc = true } ∷ record { size = k - n; alloc = false } ∷ []
    else record { size = k; alloc = true } ∷ []

module _ (s : State) (xs : List Piece) (a e : ℕ) (ys : List Piece) (h : IsTaken s xs a e ys)
    (next_used : head_alloc ys ≡ true) (n : ℕ) (multiple : n % 16 ≡ 0) (least : 16 ≤ n) where
  abbrev CarvedAt : ℕ → State → Type 0
  CarvedAt r t = (r ≡ a + 8) × IsReady t (xs ++ (carved (e - a) n ++ ys)) × IsKept s xs e ys t

  abbrev front : Piece
  front = record { size = n; alloc = true }

  -- What is split off goes to its list.
  rest_listed :
      (t : State)
      → IsFreed t (xs ++ front ∷ []) (a + n) e true (e - a == min_block_size) ys
      → Ends
          (λ _ u.
            IsReady u (xs ++ front ∷ filler (a + n) e ∷ ys) × IsKept t (xs ++ front ∷ []) e ys u)
          ((coalesce_block (a + n) >>= λ _. pure tt) t)
  rest_listed t freed =
      Ends-continue
        (coalesce_block-in_use t (a + n) e true _ (xs ++ front ∷ []) ys freed
          (last_alloc-append true xs (front ∷ [])) next_used)
        λ r u (at, ready, kept).
          ends
            (subst (IsReady u) (append_assoc xs (front ∷ []) (filler (a + n) e ∷ ys)) ready, kept)

  carve_room :
      a + n + 16 ≤ e
      → Ends CarvedAt (
          (do
            temp ← split_block a n
            (if not (temp == null) then (coalesce_block temp >>= λ _. pure tt) else pure tt)
            pure (header_to_payload a))
            s)
  unfolding header_to_payload
  carve_room room =
      let bounds = IsOpen-IsBounded s xs a e true _ ys h.opened in
      let upper = bounds.upper in
      let small = bounds.small in
      let payload : add64 a 8 ≡ a + 8 = omega arith in
      let size : e - (a + n) ≡ e - a - n = omega arith in
      let enough : leb 16 (e - a - n) ≡ true = ground arith in
      Ends-continue (split_block-IsSplit s xs a e ys h n multiple least room) λ r t (at, is).
        rw (at, ==_ne (a + n) null (omega arith))
          (Ends-continue (rest_listed t is.freed) λ _ u (ready, kept). ends (
            payload,
            rw (enough, ← size) ready,
            IsKept-trans s t u xs e ys is.kept
                (fewer-IsKept s xs a e ys h n multiple least t u kept),
          ))

  carve_whole :
      (fits : a + n ≤ e)
      → e < a + n + 16
      → Ends CarvedAt (
          (do
            temp ← split_block a n
            (if not (temp == null) then (coalesce_block temp >>= λ _. pure tt) else pure tt)
            pure (header_to_payload a))
            s)
  unfolding split_block header_to_payload
  carve_whole fits no_room =
      let bounds = IsOpen-IsBounded s xs a e true _ ys h.opened in
      let upper = bounds.upper in
      let small = bounds.small in
      let header = taken_header s xs a e ys h n multiple least in
      let gap = h.opened.gap in
      let rest : sub64 (e - a) n ≡ e - a - n = omega arith in
      let short : leb 16 (e - a - n) ≡ false = ground arith in
      let payload : add64 a 8 ≡ a + 8 = omega arith in
      rw
        (
          get_size-HasHeader s a _ _ _ _ header,
          get_prev_alloc-HasHeader s a _ _ _ _ header,
          get_prev_mini-HasHeader s a _ _ _ _ header,
          rest,
          short,
          payload,
        )
        (ends (
          refl,
          rw short (
              IsOpen-close s xs a e true _ ys h.opened (piece_in a e true) (rw h.left_used h.piece)
                refl (omega arith) refl refl),
          record { base = refl; brk = refl; limit = refl; payload = λ x used. refl },
        ))

  -- The end of `place`, from `split_block` on.
  carve :
      a + n ≤ e
      → Ends CarvedAt (
          (do
            temp ← split_block a n
            (if not (temp == null) then (coalesce_block temp >>= λ _. pure tt) else pure tt)
            pure (header_to_payload a))
            s)
  carve fits = elim (Bool-cases (leb (a + n + 16) e)) [
    | inl room ↦ carve_room (ground arith)
    | inr no_room ↦ carve_whole fits (ground arith)
  ]

module _ (s : State) (xs : List Piece) (p : Piece) (ys : List Piece) (h : IsReady s (xs ++ p ∷ ys))
    (free : p.alloc ≡ false) where
  abbrev start : ℕ
  start = address s xs

  abbrev end : ℕ
  end = start + p.size

  -- The whole block in use.
  module _ (t : State) (picked : IsPicked s xs p ys h free t) where
    abbrev kind : Bool
    kind = p.size == min_block_size

    same_size : end - start ≡ p.size
    same_size = omega arith

    whole_used :
        Ends
          (λ _. IsFilled t xs start end false kind ys picked.opened true true)
          (write_pack start p.size true true (last_mini false xs) t)
    whole_used =
        subst
          (λ k.
            Ends (λ _. IsFilled t xs start end false kind ys picked.opened true true)
              (write_pack start k true true (last_mini false xs) t))
          same_size (write_pack-IsFilled t xs start end false kind ys picked.opened true true)

    flanked : IsFlanked xs ys
    flanked =
        let used = neighbours_used s xs p ys h free in
        record { left_used = used.0; right_used = used.1 }

    told-IsTaken :
        (u v : State) (filled : IsFilled t xs start end false kind ys picked.opened true true u)
        → IsMarked u xs start end false kind ys filled.opened flanked true kind v
        → IsTaken v xs start end ys
    told-IsTaken u v filled marked = record {
      opened =
          subst (λ k. IsOpen v xs start end true (k == min_block_size) ys) (sym same_size)
            marked.opened;
      piece =
          let gap = filled.opened.gap in
          IsPiece-same u.bytes v.bytes start _ _ (piece_in start end true) end (omega arith)
            marked.same filled.piece;
      left_used = flanked.left_used;
    }

    picked_header : HasHeader t start p.size p.alloc true (last_mini false xs)
    picked_header =
        let bounds = IsOpen-IsBounded t xs start end false kind ys picked.opened in
        let lower = bounds.lower in
        let upper = bounds.upper in
        IsPiece-HasHeader t start _ _ p (omega arith) (omega arith) bounds.small picked.piece

    filled_next :
        (u : State)
        → IsFilled t xs start end false kind ys picked.opened true true u
        → (find_next start u ≡ done end u) × HasHeader u end (head_size ys) true false kind
    filled_next u filled =
        let bounds = IsOpen-IsBounded u xs start end false kind ys filled.opened in
        let lower = bounds.lower in
        let upper = bounds.upper in
        let small = bounds.small in
        let header =
          IsPiece-HasHeader u start _ _ (piece_in start end true) (omega arith) (omega arith) small
            filled.piece in
        let to_end : start + (end - start) ≡ end = omega arith in
        (
          rw (find_next-HasHeader u start _ _ _ _ header (omega arith), to_end) refl,
          subst (λ b. HasHeader u end (head_size ys) b false kind) flanked.right_used
              (IsOpen-next u xs start end false kind ys filled.opened),
        )

  -- `place` on a free block that is large enough ends and gives the block's payload; the heap is in
  -- order again, with the block carved up and no other piece changed, and the payloads in use hold
  -- what they held.
  pub place-IsReady :
      (n : ℕ)
      → n % 16 ≡ 0
      → 16 ≤ n
      → n ≤ p.size
      → Ends
          (λ r t.
            (r ≡ start + 8) × IsReady t (xs ++ (carved p.size n ++ ys)) × IsKept s xs end ys t)
          (place start n s)
  unfolding place
  place-IsReady n multiple least fits =
      Ends-continue (remove_free-IsPicked s xs p ys h free) λ _ t picked.
        let header = picked_header t picked in
        rw
          (
            get_size-HasHeader t start _ _ _ _ header,
            get_prev_alloc-HasHeader t start _ _ _ _ header,
            get_prev_mini-HasHeader t start _ _ _ _ header,
          )
          (Ends-continue (whole_used t picked) λ _ u filled.
            let (to_end, next) = filled_next t picked u filled in
            rw to_end (
              Ends-continue
                (write_prev_alloc-IsPacked u end (head_size ys) false (kind t picked) next)
                λ _ v is.
                  let marked =
                    IsPacked-IsMarked u xs start end false _ ys filled.opened (flanked t picked)
                      true (kind t picked) v is in
                  Ends-mono
                    (carve v xs start end ys (told-IsTaken t picked u v filled marked)
                      (flanked t picked).right_used n multiple least (omega arith))
                    λ r w (at, ready, kept). (
                      at,
                      subst (λ k. IsReady w (xs ++ (carved k n ++ ys))) (same_size t picked) ready,
                      IsKept-trans s t w xs end ys picked.kept (
                          IsKept-trans t u w xs end ys filled.kept
                            (IsKept-trans u v w xs end ys marked.kept kept)),
                    )))
