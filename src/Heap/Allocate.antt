-- ===== src/Heap/Allocate.antt =====
-- `malloc` on a heap in order.
use mathlib.Core.Path.{subst}
use mathlib.Core.List.{}
use dynamic_memory_allocator.Base.{
  ℕ, ◌==◌, if◌then◌else◌, ◌+◌, ◌-◌, ◌%◌, ◌^◌, ◌≤◌, ◌<◌, ◌≡◌, ◌⊎◌, ◌∙◌, refl, sym, ap, Bool, true,
  false, List, [], ◌∷◌, ◌++◌, arith, inl, inr, leb, Bool-cases, ==_ne, ==_iff,
}
use dynamic_memory_allocator.Machine.{State, Bytes, pure}
use dynamic_memory_allocator.Machine.Ends.{Ends, ends, Ends-mono, Ends-continue}
use dynamic_memory_allocator.Memlib.Break.{IsBreak}
use dynamic_memory_allocator.Memlib.Word.{word}
use dynamic_memory_allocator.Block.{null, chunksize, max, dsize, round_up}
use dynamic_memory_allocator.Block.Sizes.{round_up-dsize, max-ge}
use dynamic_memory_allocator.FreeList.{}
use dynamic_memory_allocator.Allocator.{
  adjusted_size, find_or_extend, extend_heap, place, malloc_ready, malloc,
}
use dynamic_memory_allocator.Allocator.Requests.{adjusted_size-fits}
use dynamic_memory_allocator.Heap.{Piece, Tiles}
use dynamic_memory_allocator.Heap.Tiles.{extent, Tiles-split}
use dynamic_memory_allocator.Heap.Walk.{address}
use dynamic_memory_allocator.Heap.Used.{InUse, InUse-append, Used, IsKept}
use dynamic_memory_allocator.Heap.Blocks.{UsedIn, UsedIn-append_of, UsedIn-around, AroundUsed}
use dynamic_memory_allocator.Heap.Open.{IsReady}
use dynamic_memory_allocator.Heap.Find.{IsFound, find_fit-IsFound}
use dynamic_memory_allocator.Heap.Grow.{IsOffered, IsOffered-fewer, extend_heap-IsOffered}
use dynamic_memory_allocator.Heap.Place.{carved, place-IsReady}

-- A heap in order, and a break within its limit.
pub record IsSound (s : State) (ps : List Piece) : Type 0 where
  pub ready : IsReady s ps
  pub limits : IsBreak s

module _ (s : State) (ps : List Piece) (h : IsSound s ps) (n : ℕ) where
  -- A free piece that is found is on offer as the heap is.
  found-IsOffered : (r : ℕ) → IsFound s ps h.ready n r → IsOffered s ps n r s
  found-IsOffered r is = record {
    xs = is.xs;
    piece = is.piece;
    ys = is.ys;
    ready = subst (IsReady s) is.split h.ready;
    here = is.here;
    enough = is.enough;
    free = is.free;
    limits = h.limits;
    base = refl;
    grown = omega arith;
    blocks = λ b k u.
        UsedIn-around (s.heap + 8) is.xs is.piece is.ys b k is.free
          (subst (λ l. UsedIn (s.heap + 8) l b k) is.split u);
    only = λ b k v.
        subst (λ l. UsedIn (s.heap + 8) l b k) (sym is.split)
          (UsedIn-append_of (s.heap + 8) is.xs (is.piece ∷ is.ys) b k
            (elim v [ inl w ↦ inl w | inr w ↦ inr (inr w) ]));
    used = λ x u. (
      elim (InUse-append (s.heap + 8) is.xs (is.piece ∷ is.ys) x
          (subst (λ l. InUse (s.heap + 8) l x) is.split u)) [
            | inl v ↦ inl v
            | inr (inl v) ↦ let in_use : is.piece.alloc ≡ true = v.0 in let free = is.free in cc
            | inr (inr v) ↦ inr v
          ],
      refl,
    );
  }

  max_multiple : n % 16 ≡ 0 → (max n chunksize % 16 ≡ 0) × (max n chunksize ≤ n + 4096)
  unfolding max
  max_multiple multiple = ground arith

  extension_size : n % 16 ≡ 0 → n < 2 ^ 62 → round_up (max n chunksize) dsize ≡ max n chunksize
  unfolding max
  extension_size multiple small = ground (arith, round_up-dsize (max n chunksize))

  extended :
      n % 16 ≡ 0
      → n < 2 ^ 62
      → (r : ℕ) → (r ≡ null) ⊎ IsFound s ps h.ready n r
      → Ends
          (λ r t. ((r ≡ null) × (t ≡ s)) ⊎ IsOffered s ps n r t)
          ((if r == null then extend_heap (max n chunksize) else pure r) s)
  extended multiple small r (inl none) =
      let larger = max-ge n chunksize in
      let size = max_multiple multiple in
      rw ((==_iff r null).1 none) (
        Ends-mono
          (extend_heap-IsOffered s ps h.ready h.limits (max n chunksize) size.0 (omega arith)
            (max n chunksize) (extension_size multiple small) (omega arith))
          λ r t is. elim is [
            | inl failed ↦ inl failed
            | inr offered ↦ inr (IsOffered-fewer s ps _ n r t larger.0 offered)
          ])
  extended multiple small r (inr found) =
      let here = found.here in
      rw (==_ne r null (omega arith)) (ends (inr (found-IsOffered r found)))

  -- `find_or_extend` offers a free piece that is large enough, or gives `NULL` and changes nothing.
  find_or_extend-IsOffered :
      n % 16 ≡ 0
      → n < 2 ^ 62
      → Ends (λ r t. ((r ≡ null) × (t ≡ s)) ⊎ IsOffered s ps n r t) (find_or_extend n s)
  unfolding find_or_extend
  find_or_extend-IsOffered multiple small =
      Ends-continue (find_fit-IsFound s ps h.ready n) λ r t (same, is).
        subst
          (λ u.
            Ends (λ r t. ((r ≡ null) × (t ≡ s)) ⊎ IsOffered s ps n r t)
              ((if r == null then extend_heap (max n chunksize) else pure r) u))
          (sym same) (extended multiple small r is)

-- A heap in order with a block in use of its own for a request of `size` bytes: its payload starts
-- at `r`, and all that was in use lies outside the block and holds what it held. No other block
-- is in use.
pub record IsGiven (s : State) (ps : List Piece) (size r : ℕ) (t : State) : Type 0 where
  pub xs : List Piece
  pub room : ℕ
  pub zs : List Piece
  pub sound : IsSound t (xs ++ record { size = room; alloc = true } ∷ zs)
  pub here : r ≡ address t xs + 8
  pub enough : size + 8 ≤ room
  pub aligned : r % 16 ≡ 0
  pub base : t.heap ≡ s.heap
  pub grown : s.mem_brk ≤ t.mem_brk
  pub blocks :
      (b k : ℕ) → UsedIn (s.heap + 8) ps b k → AroundUsed t.heap xs (address t xs + room) zs b k
  pub only :
      (b k : ℕ) → AroundUsed t.heap xs (address t xs + room) zs b k → UsedIn (s.heap + 8) ps b k
  pub used :
      (x : ℕ)
      → InUse (s.heap + 8) ps x
      → Used t.heap xs (address t xs + room) zs x × (word t.bytes x ≡ word s.bytes x)

-- The pieces of a run come to a multiple of 16 bytes.
pub extent-multiple :
    (m : Bytes) (a : ℕ) (pa pm : Bool) (ps : List Piece) (e : ℕ)
    → Tiles m a pa pm ps e
    → extent ps % 16 ≡ 0
extent-multiple m a pa pm [] e h = refl
extent-multiple m a pa pm (p ∷ ps) e h =
    let aligned = h.0.aligned in omega (arith, extent-multiple m (a + p.size) _ _ ps e h.1)

module _ (s : State) (ps : List Piece) (size n r : ℕ) (t : State) (is : IsOffered s ps n r t)
    (holds : size + 8 ≤ n) (u : State) (r' : ℕ) (at : r' ≡ r + 8)
    (kept : IsKept t is.xs (address t is.xs + is.piece.size) is.ys u) where
  -- The block that `place` made, whatever stands behind it.
  given :
      (room : ℕ) (zs : List Piece)
      → IsReady u (is.xs ++ record { size = room; alloc = true } ∷ zs)
      → n ≤ room
      → ((x : ℕ)
          → InUse (address t is.xs + is.piece.size) is.ys x
          → InUse (address t is.xs + room) zs x)
      → ((b k : ℕ)
          → UsedIn (address t is.xs + is.piece.size) is.ys b k
          → UsedIn (address t is.xs + room) zs b k)
      → ((b k : ℕ)
          → UsedIn (address t is.xs + room) zs b k
          → UsedIn (address t is.xs + is.piece.size) is.ys b k)
      → IsGiven s ps size r' u
  given room zs ready enough behind blocks_behind blocks_of =
      let whole = ready.heap in
      let start : u.heap % 16 ≡ 0 = whole.aligned in
      let tiles =
        Tiles-split u.bytes (u.heap + 8) true false is.xs
          (record { size = room; alloc = true } ∷ zs) _ whole.tiles in
      let multiple = extent-multiple _ _ _ _ is.xs _ tiles.0 in
      let base = kept.base in
      let brk = kept.brk in
      let limit = kept.limit in
      let grown : s.mem_brk ≤ t.mem_brk = is.grown in
      let here : r ≡ address t is.xs = is.here in
      let ordered : t.heap ≤ t.mem_brk = is.limits.ordered in
      let bounded : t.mem_brk ≤ t.mem_max_addr = is.limits.bounded in
      let small : t.mem_max_addr < 2 ^ 63 = is.limits.small in
      record {
        xs = is.xs;
        room = room;
        zs = zs;
        sound = record {
          ready = ready;
          limits = record { ordered = omega arith; bounded = omega arith; small = omega arith };
        };
        here = omega arith;
        enough = omega arith;
        aligned = omega arith;
        base = base ∙ is.base;
        grown = omega arith;
        blocks = λ b k v. elim (is.blocks b k v) [
          | inl w ↦ inl (rw base w)
          | inr w ↦ inr (rw base (blocks_behind b k w))
        ];
        only = λ b k v. is.only b k (elim v [
          | inl w ↦ inl (subst (λ a. UsedIn (a + 8) is.xs b k) base w)
          | inr w ↦
              inr (blocks_of b k (subst (λ a. UsedIn (a + 8 + extent is.xs + room) zs b k) base w))
        ]);
        used = λ x v.
            let (around, held) = is.used x v in
            (
              elim around [ inl w ↦ inl (rw base w) | inr w ↦ inr (rw base (behind x w)) ],
              kept.payload x around ∙ held,
            );
      }

  IsGiven-carved : IsReady u (is.xs ++ (carved is.piece.size n ++ is.ys)) → IsGiven s ps size r' u
  IsGiven-carved ready =
      let k = is.piece.size in
      let enough : n ≤ k = is.enough in
      elim (Bool-cases (leb 16 (k - n))) [
        | inl room ↦
            given n (record { size = k - n; alloc = false } ∷ is.ys) (rw room at ready)
              (omega arith)
              (λ x v.
                let end : address t is.xs + n + (k - n) ≡ address t is.xs + k = omega arith in
                inr (rw end v))
              (λ b i v.
                let end : address t is.xs + n + (k - n) ≡ address t is.xs + k = omega arith in
                inr (rw end v))
              λ b i v. elim v [
                | inl w ↦ let no : false ≡ true = w.2 in cc
                | inr w ↦
                    let end : address t is.xs + n + (k - n) ≡ address t is.xs + k = omega arith in
                    subst (λ a. UsedIn a is.ys b i) end w
              ]
        | inr whole ↦ given k is.ys (rw whole at ready) enough (λ x v. v) (λ b i v. v) λ b i v. v
      ]

module _ (s : State) (ps : List Piece) (h : IsSound s ps) (size : ℕ) (some_bytes : 0 < size)
    (small : size < 2 ^ 61) where
  offered-IsGiven :
      (r : ℕ) (t : State)
      → IsOffered s ps (adjusted_size size) r t
      → Ends (λ r t. IsGiven s ps size r t) (place r (adjusted_size size) t)
  offered-IsGiven r t is =
      let n = adjusted_size size in
      let fits = adjusted_size-fits size (omega arith) in
      subst (λ a. Ends (λ r t. IsGiven s ps size r t) (place a n t)) (sym is.here)
        (Ends-mono (place-IsReady t is.xs is.piece is.ys is.ready is.free n fits.0 fits.1 is.enough)
          λ r' u (at, ready, kept).
            IsGiven-carved s ps size n r t is fits.2 u r' (at ∙ ap (λ b. b + 8) (sym is.here)) kept
              ready)

  -- `malloc` of some bytes on a heap in order.
  malloc_ready-IsGiven :
      Ends (λ r t. ((r ≡ null) × (t ≡ s)) ⊎ IsGiven s ps size r t) (malloc_ready size s)
  unfolding malloc_ready
  malloc_ready-IsGiven =
      let fits = adjusted_size-fits size (omega arith) in
      rw (==_ne size 0 (omega arith)) (
        Ends-continue (find_or_extend-IsOffered s ps h (adjusted_size size) fits.0 (omega arith))
          λ r t is. elim is [
            | inl (none, same) ↦ rw ((==_iff r null).1 none) (ends (inl (refl, same)))
            | inr offered ↦
                let here = offered.here in
                rw (==_ne r null (omega arith))
                  (Ends-mono (offered-IsGiven r t offered) λ r' u is'. inr is')
          ])

-- `malloc` on a sound heap ends: it gives a block of its own for the request, or `NULL` with nothing
-- changed. Only `NULL` answers a request of no bytes.
pub malloc-IsGiven :
    (s : State) (ps : List Piece)
    → IsSound s ps
    → (size : ℕ) → size < 2 ^ 61
    → Ends (λ r t. ((r ≡ null) × (t ≡ s)) ⊎ ((0 < size) × IsGiven s ps size r t)) (malloc size s)
unfolding malloc malloc_ready
malloc-IsGiven s ps h size small =
    let start = h.ready.heap.start in
    rw (==_ne s.heap_start null (omega arith)) (elim (Bool-cases (size == 0)) [
      | inl nothing ↦ rw nothing (ends (inl (refl, refl)))
      | inr bytes ↦
          let some_bytes : 0 < size = ground arith in
          Ends-mono (malloc_ready-IsGiven s ps h size some_bytes small)
            λ r t is. elim is [ inl failed ↦ inl failed | inr given ↦ inr (some_bytes, given) ]
    ])
