-- ===== src/Heap/Coalesce/Whole.antt =====
-- `coalesce_block` on a free block that is in no list yet: which case it takes, and what the heap is
-- afterwards.
use mathlib.Core.Path.{subst}
use mathlib.Core.List.{append-nil}
use dynamic_memory_allocator.Base.{
  ℕ, ◌+◌, ◌-◌, ◌≤◌, ◌≡◌, ◌⊎◌, ◌∙◌, refl, sym, ap, Bool, true, false, List, [], ◌∷◌, ◌++◌, arith,
  ==_ne, inl, inr, snoc-cases, Bool-cases, not, ◌&&◌, if◌then◌else◌,
}
use dynamic_memory_allocator.Machine.{State, done, pure}
use dynamic_memory_allocator.Machine.Ends.{Ends, Ends-mono}
use dynamic_memory_allocator.Memlib.Word.{}
use dynamic_memory_allocator.Block.{null, min_block_size, find_prev}
use dynamic_memory_allocator.FreeList.{}
use dynamic_memory_allocator.Allocator.{
  coalesce_neither, coalesce_prev, coalesce_next, coalesce_both, coalesce_block,
}
use dynamic_memory_allocator.Heap.{Piece, last_alloc}
use dynamic_memory_allocator.Heap.Fields.{
  get_size-HasHeader, get_alloc-HasHeader, get_prev_alloc-HasHeader, find_next-HasHeader,
}
use dynamic_memory_allocator.Heap.Tiles.{extent, Tiles-end, Tiles-split}
use dynamic_memory_allocator.Heap.Walk.{
  head_size, head_alloc, last_alloc-append, last_mini-append, find_prev-IsPiece,
}
use dynamic_memory_allocator.Heap.Used.{IsKept}
use dynamic_memory_allocator.Heap.Open.{IsOpen-IsBounded, IsOpen-next, IsReady}
use dynamic_memory_allocator.Heap.Take.{}
use dynamic_memory_allocator.Heap.Fill.{filler}
use dynamic_memory_allocator.Heap.Coalesce.{spare, IsCoalesced, IsFreed}
use dynamic_memory_allocator.Heap.Coalesce.Mark.{freed_header, coalesce_neither-IsReady}
use dynamic_memory_allocator.Heap.Coalesce.Neighbours.{
  coalesce_next-IsReady, coalesce_prev-IsReady, coalesce_both-IsReady,
}

-- The two sides of the gap: a neighbour in use, or a free one.
left_cases :
    (xs : List Piece)
    → (last_alloc true xs ≡ true)
      ⊎ ((ws : List Piece) × (p : Piece) × (xs ≡ ws ++ p ∷ []) × (p.alloc ≡ false))
left_cases xs = elim (snoc-cases xs) [
  | inl e ↦ inl (ap (last_alloc true) e)
  | inr (ws, p, e) ↦ elim (Bool-cases p.alloc) [
    | inl used ↦ inl (ap (last_alloc true) e ∙ (last_alloc-append true ws (p ∷ []) ∙ used))
    | inr free ↦ inr (ws, p, e, free)
  ]
]

module _ (s : State) (xs : List Piece) (a e : ℕ) (pa pm : Bool) (ys : List Piece)
    (h : IsFreed s xs a e pa pm ys) where
  -- The reads of `coalesce_block` before it tells the cases apart.
  coalesce_block-reads :
      (prev : ℕ)
      → (if not (last_alloc true xs) then find_prev a else pure null) s ≡ done prev s
      → coalesce_block a s
        ≡ (if last_alloc true xs && head_alloc ys
              then coalesce_neither a e (head_size ys)
              else if not (last_alloc true xs) && head_alloc ys
              then coalesce_prev prev e (e - a) (head_size ys)
              else if last_alloc true xs && not (head_alloc ys)
              then coalesce_next a e (e - a) (head_size ys)
              else coalesce_both prev e (e - a))
            s
  unfolding coalesce_block
  coalesce_block-reads prev found =
      let bounds = IsOpen-IsBounded s xs a e pa pm ys h.opened in
      let upper = bounds.upper in
      let small = bounds.small in
      let gap = h.opened.gap in
      let header = freed_header s xs a e pa pm ys h in
      let next = IsOpen-next s xs a e pa pm ys h.opened in
      let to_e : a + (e - a) ≡ e = omega arith in
      rw
        (
          get_size-HasHeader s a _ _ _ _ header,
          get_prev_alloc-HasHeader s a _ _ _ _ header,
          found,
          find_next-HasHeader s a _ _ _ _ header (omega arith),
          to_e,
          get_alloc-HasHeader s e _ _ _ _ next,
          get_size-HasHeader s e _ _ _ _ next,
        )
        refl

-- The joined block, by its bounds.
joined :
    (s : State) (xs ws : List Piece) (n m : ℕ) (zs ys : List Piece) (a e b c : ℕ) (r : ℕ)
    (t : State)
    → xs ≡ ws ++ spare n
    → ys ≡ spare m ++ zs
    → b ≡ s.heap + 8 + extent ws
    → c ≡ b + n + (e - a) + m
    → (r ≡ b) × IsReady t (ws ++ filler b c ∷ zs) × IsKept s xs e ys t
    → IsCoalesced s xs a e ys r t
joined s xs ws n m zs ys a e b c r t left right at total (here, ready, kept) =
    let size : c - b ≡ n + (e - a) + m = omega arith in
    record {
      ws = ws;
      before = n;
      behind = m;
      zs = zs;
      left = left;
      right = right;
      ready = rw size at ready;
      result = here ∙ at;
      kept = kept;
    }

spare-free : (p : Piece) → min_block_size ≤ p.size → p.alloc ≡ false → p ∷ [] ≡ spare p.size
spare-free p least free = rw (==_ne p.size 0 (omega arith), ← free) refl

last_free : (ws : List Piece) (p : Piece) → p.alloc ≡ false → last_alloc true (ws ++ p ∷ []) ≡ false
last_free ws p free = last_alloc-append true ws (p ∷ []) ∙ free

module _ (s : State) (a e : ℕ) (pa pm : Bool) where
  left_at : (xs ys : List Piece) → IsFreed s xs a e pa pm ys → a ≡ s.heap + 8 + extent xs
  left_at xs ys h = Tiles-end _ _ _ _ xs _ h.opened.left

  find_prev-freed :
      (ws : List Piece) (p : Piece) (ys : List Piece)
      → IsFreed s (ws ++ p ∷ []) a e pa pm ys
      → p.alloc ≡ false
      → (if not (last_alloc true (ws ++ p ∷ [])) then find_prev a else pure null) s
        ≡ done (s.heap + 8 + extent ws) s
  find_prev-freed ws p ys h free =
      let parts = Tiles-split s.bytes (s.heap + 8) true false ws (p ∷ []) a h.opened.left in
      rw (last_free ws p free) (
        find_prev-IsPiece s a _ _ _ _ _ _ _ p (freed_header s _ a e pa pm ys h)
          (last_mini-append false ws (p ∷ [])) parts.1.0 free parts.1.1 (omega arith)
          h.opened.framed.small)

  -- Between neighbours in use, the block only goes to its list.
  pub coalesce_block-in_use :
      (xs ys : List Piece)
      → IsFreed s xs a e pa pm ys
      → last_alloc true xs ≡ true
      → head_alloc ys ≡ true
      → Ends
          (λ r t. (r ≡ a) × IsReady t (xs ++ filler a e ∷ ys) × IsKept s xs e ys t)
          (coalesce_block a s)
  coalesce_block-in_use xs ys h used used' =
      rw (coalesce_block-reads s xs a e pa pm ys h null (rw used refl), used, used')
        (coalesce_neither-IsReady s xs a e pa pm ys h
          (record { left_used = used; right_used = used' }))

  coalesce_in_use :
      (xs ys : List Piece)
      → IsFreed s xs a e pa pm ys
      → last_alloc true xs ≡ true
      → head_alloc ys ≡ true
      → Ends (IsCoalesced s xs a e ys) (coalesce_block a s)
  coalesce_in_use xs ys h used used' =
      let gap = h.opened.gap in
      Ends-mono (coalesce_block-in_use xs ys h used used') λ r t is.
        joined s xs xs 0 0 ys ys a e a e r t (sym (append-nil xs)) refl (left_at xs ys h)
          (omega arith) is

  coalesce_free_next :
      (xs : List Piece) (q : Piece) (zs : List Piece)
      → IsFreed s xs a e pa pm (q ∷ zs)
      → last_alloc true xs ≡ true
      → q.alloc ≡ false
      → Ends (IsCoalesced s xs a e (q ∷ zs)) (coalesce_block a s)
  coalesce_free_next xs q zs h used free =
      let gap = h.opened.gap in
      simp (coalesce_block-reads s xs a e pa pm (q ∷ zs) h null (rw used refl), used, free)
        (Ends-mono (coalesce_next-IsReady s xs a e pa pm q zs h free used) λ r t is.
          joined s xs xs 0 q.size zs (q ∷ zs) a e a (e + q.size) r t (sym (append-nil xs))
            (ap (λ l. l ++ zs) (spare-free q h.opened.right.0.0.least free)) (left_at xs _ h)
            (omega arith) is)

  coalesce_free_prev :
      (ws : List Piece) (p : Piece) (ys : List Piece)
      → IsFreed s (ws ++ p ∷ []) a e pa pm ys
      → p.alloc ≡ false
      → head_alloc ys ≡ true
      → Ends (IsCoalesced s (ws ++ p ∷ []) a e ys) (coalesce_block a s)
  coalesce_free_prev ws p ys h free used =
      let gap = h.opened.gap in
      let parts = Tiles-split s.bytes (s.heap + 8) true false ws (p ∷ []) a h.opened.left in
      let to_a = parts.1.1 in
      rw
        (
          coalesce_block-reads s _ a e pa pm ys h _ (find_prev-freed ws p ys h free),
          last_free ws p free,
          used,
        )
        (Ends-mono (coalesce_prev-IsReady s ws p a e pa pm ys h free used) λ r t is.
          joined s _ ws p.size 0 ys ys a e _ e r t
            (ap (λ l. ws ++ l) (spare-free p parts.1.0.least free)) refl refl (omega arith) is)

  coalesce_free_both :
      (ws : List Piece) (p q : Piece) (zs : List Piece)
      → IsFreed s (ws ++ p ∷ []) a e pa pm (q ∷ zs)
      → p.alloc ≡ false
      → q.alloc ≡ false
      → Ends (IsCoalesced s (ws ++ p ∷ []) a e (q ∷ zs)) (coalesce_block a s)
  coalesce_free_both ws p q zs h free free' =
      let gap = h.opened.gap in
      let parts = Tiles-split s.bytes (s.heap + 8) true false ws (p ∷ []) a h.opened.left in
      let to_a = parts.1.1 in
      simp
        (
          coalesce_block-reads s _ a e pa pm (q ∷ zs) h _ (find_prev-freed ws p _ h free),
          last_free ws p free,
          free',
        )
        (Ends-mono (coalesce_both-IsReady s ws p a e pa pm q zs h free free') λ r t is.
          joined s _ ws p.size q.size zs _ a e _ (e + q.size) r t
            (ap (λ l. ws ++ l) (spare-free p parts.1.0.least free))
            (ap (λ l. l ++ zs) (spare-free q h.opened.right.0.0.least free')) refl (omega arith) is)

  coalesce_used :
      (xs ys : List Piece)
      → IsFreed s xs a e pa pm ys
      → last_alloc true xs ≡ true
      → Ends (IsCoalesced s xs a e ys) (coalesce_block a s)
  coalesce_used xs [] h used = coalesce_in_use xs [] h used refl
  coalesce_used xs (q ∷ zs) h used = elim (Bool-cases q.alloc) [
    | inl used' ↦ coalesce_in_use xs (q ∷ zs) h used used'
    | inr free ↦ coalesce_free_next xs q zs h used free
  ]

  coalesce_behind :
      (ws : List Piece) (p : Piece) (ys : List Piece)
      → IsFreed s (ws ++ p ∷ []) a e pa pm ys
      → p.alloc ≡ false
      → Ends (IsCoalesced s (ws ++ p ∷ []) a e ys) (coalesce_block a s)
  coalesce_behind ws p [] h free = coalesce_free_prev ws p [] h free refl
  coalesce_behind ws p (q ∷ zs) h free = elim (Bool-cases q.alloc) [
    | inl used ↦ coalesce_free_prev ws p (q ∷ zs) h free used
    | inr free' ↦ coalesce_free_both ws p q zs h free free'
  ]

  -- `coalesce_block` on a free block that is in no list ends, and leaves a heap in order, in which
  -- the block is joined with its free neighbours; it gives the address of the joined block.
  pub coalesce_block-IsCoalesced :
      (xs ys : List Piece)
      → IsFreed s xs a e pa pm ys
      → Ends (IsCoalesced s xs a e ys) (coalesce_block a s)
  coalesce_block-IsCoalesced xs ys h = elim (left_cases xs) [
    | inl used ↦ coalesce_used xs ys h used
    | inr (ws, p, split, free) ↦
        subst (λ l. Ends (IsCoalesced s l a e ys) (coalesce_block a s)) (sym split)
          (coalesce_behind ws p ys (subst (λ l. IsFreed s l a e pa pm ys) split h) free)
  ]
