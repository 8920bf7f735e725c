-- ===== src/Heap/Grow.antt =====
-- `extend_heap` as a whole: the break moves or the heap stays as it is.
use mathlib.Core.Path.{subst}
use mathlib.Core.List.{}
use dynamic_memory_allocator.Base.{
  ℕ, ◌==◌, ◌+◌, ◌-◌, ◌%◌, ◌^◌, ◌≤◌, ◌<◌, ◌≡◌, ◌⊎◌, ◌∙◌, refl, sym, ap, true, false, List, [], ◌∷◌,
  ◌++◌, arith, inl, inr, none, some, ltb, Bool-cases, sub64, not, ◌&&◌,
}
use dynamic_memory_allocator.Machine.{State, done}
use dynamic_memory_allocator.Machine.Ends.{Ends, ends, Ends-mono}
use dynamic_memory_allocator.Memlib.{mem_sbrk}
use dynamic_memory_allocator.Memlib.Break.{IsBreak, new_chunk}
use dynamic_memory_allocator.Block.{null, dsize, round_up}
use dynamic_memory_allocator.Block.Sizes.{}
use dynamic_memory_allocator.Allocator.{extend_heap}
use dynamic_memory_allocator.Heap.{Piece}
use dynamic_memory_allocator.Memlib.Word.{word}
use dynamic_memory_allocator.Heap.Tiles.{extent}
use dynamic_memory_allocator.Heap.Walk.{address}
use dynamic_memory_allocator.Heap.Used.{InUse, InUse-append, Used}
use dynamic_memory_allocator.Heap.Blocks.{UsedIn, UsedIn-append, UsedIn-append_of, AroundUsed}
use dynamic_memory_allocator.Heap.Open.{IsReady}
use dynamic_memory_allocator.Heap.Coalesce.{IsCoalesced, spare}
use dynamic_memory_allocator.Heap.Extend.{moved, place_extension-IsCoalesced}

-- `mem_sbrk` moves the break within its limit, or fails and changes nothing.
pub mem_sbrk-cases :
    (s : State) (n : ℕ)
    → IsBreak s
    → n < 2 ^ 63
    → (mem_sbrk n s ≡ done none s)
      ⊎ ((s.mem_brk + n ≤ s.mem_max_addr)
          × (mem_sbrk n s ≡ done (some s.mem_brk) (moved s n (new_chunk s n))))
unfolding mem_sbrk
mem_sbrk-cases s n b signed =
    let ordered = b.ordered in
    let bounded = b.bounded in
    let small = b.small in
    let exact : (s.mem_brk + n) % 2 ^ 64 ≡ s.mem_brk + n = omega arith in
    elim (Bool-cases (ltb s.mem_max_addr (s.mem_brk + n))) [
      | inl beyond ↦ inl (rw (exact, beyond) (ground arith))
      | inr within ↦
          elim (Bool-cases (
            ltb s.mem_brk_chunk (new_chunk s n)
            && not (s.mprotect s.mem_brk_chunk (sub64 (new_chunk s n) s.mem_brk_chunk)))) [
              | inl refused ↦ inl (rw (exact, within, refused) (ground arith))
              | inr granted ↦ inr (ground arith, rw (exact, within, granted) (ground arith))
            ]
    ]

-- A run without pieces has no block in use.
no_pieces : (a : ℕ) (ys zs : List Piece) (b k : ℕ) → [] ≡ ys ++ zs → UsedIn a zs b k → ⊥
no_pieces a ys [] b k e u = u
no_pieces a [] (z ∷ zs) b k e u = cc
no_pieces a (y ∷ ys) (z ∷ zs) b k e u = cc

-- A free piece of at least `n` bytes at `r`, in a heap in order that holds all that was in use.
pub record IsOffered (s : State) (ps : List Piece) (n r : ℕ) (t : State) : Type 0 where
  pub xs : List Piece
  pub piece : Piece
  pub ys : List Piece
  pub ready : IsReady t (xs ++ piece ∷ ys)
  pub here : r ≡ address t xs
  pub enough : n ≤ piece.size
  pub free : piece.alloc ≡ false
  pub limits : IsBreak t
  pub base : t.heap ≡ s.heap
  pub grown : s.mem_brk ≤ t.mem_brk
  pub blocks :
      (b k : ℕ)
      → UsedIn (s.heap + 8) ps b k
      → AroundUsed t.heap xs (address t xs + piece.size) ys b k
  pub only :
      (b k : ℕ)
      → AroundUsed t.heap xs (address t xs + piece.size) ys b k
      → UsedIn (s.heap + 8) ps b k
  pub used :
      (x : ℕ)
      → InUse (s.heap + 8) ps x
      → Used t.heap xs (address t xs + piece.size) ys x × (word t.bytes x ≡ word s.bytes x)

pub IsOffered-fewer :
    (s : State) (ps : List Piece) (n m r : ℕ) (t : State)
    → m ≤ n
    → IsOffered s ps n r t
    → IsOffered s ps m r t
IsOffered-fewer s ps n m r t fewer is = record {
  xs = is.xs;
  piece = is.piece;
  ys = is.ys;
  ready = is.ready;
  here = is.here;
  enough = (let enough = is.enough in omega arith);
  free = is.free;
  limits = is.limits;
  base = is.base;
  grown = is.grown;
  blocks = is.blocks;
  only = is.only;
  used = is.used;
}

-- A free neighbour has no payload in use.
pub spare_unused : (m a x : ℕ) → InUse a (spare m) x → ⊥
spare_unused m a x u = elim (Bool-cases (m == 0)) [
  | inl e ↦ (rw e at u)
  | inr e ↦ elim (rw e at u) [ inl v ↦ (let no : false ≡ true = v.0 in cc) | inr v ↦ v ]
]

pub spare_no_block : (m a b k : ℕ) → UsedIn a (spare m) b k → ⊥
spare_no_block m a b k u = elim (Bool-cases (m == 0)) [
  | inl e ↦ (rw e at u)
  | inr e ↦ elim (rw e at u) [ inl v ↦ (let no : false ≡ true = v.2 in cc) | inr v ↦ v ]
]

module _ (s : State) (ps : List Piece) (h : IsReady s ps) (limits : IsBreak s) (n : ℕ)
    (multiple : n % 16 ≡ 0) (least : 16 ≤ n) where
  grown-IsOffered :
      (chunk r : ℕ) (t : State)
      → s.mem_brk + n ≤ s.mem_max_addr
      → IsCoalesced (moved s n chunk) ps (s.mem_brk - 8) (s.mem_brk - 8 + n) [] r t
      → IsOffered s ps n r t
  grown-IsOffered chunk r t within is =
      let base : t.heap ≡ s.heap = is.kept.base in
      let brk : t.mem_brk ≡ s.mem_brk + n = is.kept.brk in
      let limit : t.mem_max_addr ≡ s.mem_max_addr = is.kept.limit in
      let room = is.ready.heap.room in
      let small = limits.small in
      record {
        xs = is.ws;
        piece = record {
          size = is.before + (s.mem_brk - 8 + n - (s.mem_brk - 8)) + is.behind;
          alloc = false;
        };
        ys = is.zs;
        ready = is.ready;
        here = is.result ∙ ap (λ b. b + 8 + extent is.ws) (sym base);
        enough = omega arith;
        free = refl;
        limits = record { ordered = omega arith; bounded = omega arith; small = omega arith };
        base = base;
        grown = omega arith;
        blocks = λ b k v.
            elim (UsedIn-append (s.heap + 8) is.ws (spare is.before) b k
              (subst (λ l. UsedIn (s.heap + 8) l b k) is.left v)) [
                | inl w ↦ inl (rw base w)
                | inr w ↦ absurd (spare_no_block is.before _ b k w)
              ];
        only = λ b k v. elim v [
          | inl w ↦
              subst (λ l. UsedIn (s.heap + 8) l b k) (sym is.left)
                (UsedIn-append_of (s.heap + 8) is.ws (spare is.before) b k
                  (inl (subst (λ a. UsedIn (a + 8) is.ws b k) base w)))
          | inr w ↦ absurd (no_pieces _ (spare is.behind) is.zs b k is.right w)
        ];
        used = λ x v. (
          elim (InUse-append (s.heap + 8) is.ws (spare is.before) x
              (subst (λ l. InUse (s.heap + 8) l x) is.left v)) [
                | inl w ↦ inl (rw base w)
                | inr w ↦ absurd (spare_unused is.before _ x w)
              ],
          is.kept.payload x (inl v),
        );
      }

  -- `extend_heap` makes room at the end of the heap, or gives `NULL` and changes nothing.
  pub extend_heap-IsOffered :
      (size : ℕ)
      → round_up size dsize ≡ n
      → n < 2 ^ 63
      → Ends (λ r t. ((r ≡ null) × (t ≡ s)) ⊎ IsOffered s ps n r t) (extend_heap size s)
  unfolding extend_heap
  extend_heap-IsOffered size rounded signed =
      let ordered = limits.ordered in
      let small = limits.small in
      elim (mem_sbrk-cases s n limits signed) [
        | inl failed ↦ rw (rounded, failed) (ends (inl (refl, refl)))
        | inr (within, granted) ↦
            rw (rounded, granted, rounded)
              (Ends-mono
                (place_extension-IsCoalesced s ps h n (new_chunk s n) multiple least (omega arith))
                λ r t is. inr (grown-IsOffered (new_chunk s n) r t within is))
      ]
