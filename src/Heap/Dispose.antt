-- ===== src/Heap/Dispose.antt =====
-- `free` on a sound heap: the blocks in use but the freed one stay, with what they hold.
use mathlib.Core.Path.{subst}
use dynamic_memory_allocator.Base.{
  ℕ, ◌==◌, ◌+◌, ◌-◌, ◌≤◌, ◌≡◌, ◌∙◌, refl, sym, ap, true, false, List, ◌∷◌, ◌++◌, arith, inl, inr,
  Bool-cases, ==_iff,
}
use dynamic_memory_allocator.Machine.{State}
use dynamic_memory_allocator.Machine.Ends.{Ends, Ends-mono}
use dynamic_memory_allocator.Memlib.Break.{IsBreak}
use dynamic_memory_allocator.Memlib.Word.{word}
use dynamic_memory_allocator.Allocator.{free}
use dynamic_memory_allocator.Heap.{Piece}
use dynamic_memory_allocator.Heap.Tiles.{extent}
use dynamic_memory_allocator.Heap.Walk.{address, extent-append}
use dynamic_memory_allocator.Heap.Used.{InUse, InUse-append, InUse-append_of, Used}
use dynamic_memory_allocator.Heap.Blocks.{UsedIn, UsedIn-append, UsedIn-append_of, AroundUsed}
use dynamic_memory_allocator.Heap.Free.{FreeIn, FreeIn-append_of}
use dynamic_memory_allocator.Heap.Open.{}
use dynamic_memory_allocator.Heap.Coalesce.{IsCoalesced, spare}
use dynamic_memory_allocator.Heap.Grow.{spare_unused, spare_no_block}
use dynamic_memory_allocator.Heap.Release.{free-IsCoalesced}
use dynamic_memory_allocator.Heap.Allocate.{IsSound}

-- A sound heap, in which just the blocks in use on both sides of a freed one are in use, each holds
-- what it held, and the freed one lies in a free block.
pub record IsReleased (s : State) (xs : List Piece) (k : ℕ) (ys : List Piece) (t : State)
    : Type 0 where
  pub qs : List Piece
  pub sound : IsSound t qs
  pub base : t.heap ≡ s.heap
  pub brk : t.mem_brk ≡ s.mem_brk
  pub blocks :
      (b i : ℕ) → AroundUsed s.heap xs (address s xs + k) ys b i → UsedIn (t.heap + 8) qs b i
  pub only : (b i : ℕ) → UsedIn (t.heap + 8) qs b i → AroundUsed s.heap xs (address s xs + k) ys b i
  pub free_at : ℕ
  pub free_size : ℕ
  pub freed : FreeIn (t.heap + 8) qs free_at free_size
  pub covers : (free_at ≤ address s xs) × (address s xs + k ≤ free_at + free_size)
  pub used :
      (x : ℕ)
      → Used s.heap xs (address s xs + k) ys x
      → InUse (t.heap + 8) qs x × (word t.bytes x ≡ word s.bytes x)

extent-spare : (m : ℕ) → extent (spare m) ≡ m
extent-spare m = elim (Bool-cases (m == 0)) [
  | inl e ↦ let nothing : m ≡ 0 = (==_iff m 0).0 e in rw e (omega arith)
  | inr e ↦ rw e (omega arith)
]

module _ (s : State) (xs : List Piece) (k : ℕ) (ys : List Piece) (limits : IsBreak s) (r : ℕ)
    (t : State) (is : IsCoalesced s xs (address s xs) (address s xs + k) ys r t) where
  abbrev joined : Piece
  joined = record {
    size = is.before + (address s xs + k - address s xs) + is.behind;
    alloc = false;
  }

  abbrev qs : List Piece
  qs = is.ws ++ joined ∷ is.zs

  base : t.heap ≡ s.heap
  base = is.kept.base

  -- The pieces behind lie where they lay.
  behind_at : address s xs + k + extent (spare is.behind) ≡ t.heap + 8 + extent is.ws + joined.size
  behind_at =
      let ends = ap extent is.left ∙ extent-append is.ws (spare is.before) in
      omega (arith, base, extent-spare is.before, extent-spare is.behind, ends)

  blocks_stay :
      (b i : ℕ) → AroundUsed s.heap xs (address s xs + k) ys b i → UsedIn (t.heap + 8) qs b i
  blocks_stay b i (inl u) =
      elim (UsedIn-append (s.heap + 8) is.ws (spare is.before) b i
        (subst (λ l. UsedIn (s.heap + 8) l b i) is.left u)) [
          | inl v ↦ UsedIn-append_of (t.heap + 8) is.ws (joined ∷ is.zs) b i (inl (rw base v))
          | inr v ↦ absurd (spare_no_block is.before _ b i v)
        ]
  blocks_stay b i (inr u) =
      elim (UsedIn-append (address s xs + k) (spare is.behind) is.zs b i
        (subst (λ l. UsedIn (address s xs + k) l b i) is.right u)) [
          | inl v ↦ absurd (spare_no_block is.behind _ b i v)
          | inr v ↦
              UsedIn-append_of (t.heap + 8) is.ws (joined ∷ is.zs) b i
                (inr (inr (subst (λ a. UsedIn a is.zs b i) behind_at v)))
        ]

  only_blocks :
      (b i : ℕ) → UsedIn (t.heap + 8) qs b i → AroundUsed s.heap xs (address s xs + k) ys b i
  only_blocks b i u = elim (UsedIn-append (t.heap + 8) is.ws (joined ∷ is.zs) b i u) [
    | inl v ↦ inl (
        subst (λ l. UsedIn (s.heap + 8) l b i) (sym is.left)
          (UsedIn-append_of (s.heap + 8) is.ws (spare is.before) b i
            (inl (subst (λ a. UsedIn (a + 8) is.ws b i) base v))))
    | inr (inl v) ↦ let no : false ≡ true = v.2 in cc
    | inr (inr v) ↦ inr (
        subst (λ l. UsedIn (address s xs + k) l b i) (sym is.right)
          (UsedIn-append_of (address s xs + k) (spare is.behind) is.zs b i
            (inr (subst (λ a. UsedIn a is.zs b i) (sym behind_at) v))))
  ]

  before_at : t.heap + 8 + extent is.ws + is.before ≡ address s xs
  before_at =
      let ends = ap extent is.left ∙ extent-append is.ws (spare is.before) in
      omega (arith, base, extent-spare is.before, ends)

  Used-stay : (x : ℕ) → Used s.heap xs (address s xs + k) ys x → InUse (t.heap + 8) qs x
  Used-stay x (inl u) =
      elim (InUse-append (s.heap + 8) is.ws (spare is.before) x
        (subst (λ l. InUse (s.heap + 8) l x) is.left u)) [
          | inl v ↦ InUse-append_of (t.heap + 8) is.ws (joined ∷ is.zs) x (inl (rw base v))
          | inr v ↦ absurd (spare_unused is.before _ x v)
        ]
  Used-stay x (inr u) =
      elim (InUse-append (address s xs + k) (spare is.behind) is.zs x
        (subst (λ l. InUse (address s xs + k) l x) is.right u)) [
          | inl v ↦ absurd (spare_unused is.behind _ x v)
          | inr v ↦
              InUse-append_of (t.heap + 8) is.ws (joined ∷ is.zs) x
                (inr (inr (subst (λ a. InUse a is.zs x) behind_at v)))
        ]

  coalesced-IsReleased : IsReleased s xs k ys t
  coalesced-IsReleased =
      let base' : t.heap ≡ s.heap = base in
      let brk : t.mem_brk ≡ s.mem_brk = is.kept.brk in
      let limit : t.mem_max_addr ≡ s.mem_max_addr = is.kept.limit in
      let ordered = limits.ordered in
      let bounded = limits.bounded in
      let small = limits.small in
      record {
        qs = qs;
        sound = record {
          ready = is.ready;
          limits = record { ordered = omega arith; bounded = omega arith; small = omega arith };
        };
        base = base;
        brk = brk;
        blocks = blocks_stay;
        only = only_blocks;
        free_at = t.heap + 8 + extent is.ws;
        free_size = joined.size;
        freed =
            FreeIn-append_of (t.heap + 8) is.ws (joined ∷ is.zs) _ _ (inr (inl (refl, refl, refl)));
        covers = (omega (arith, before_at), omega (arith, before_at));
        used = λ x u. (Used-stay x u, is.kept.payload x u);
      }

-- `free` on the payload of a block in use of a sound heap ends, and the heap is sound again. The block
-- is not in use any more, and lies in a free block; every other block in use stays in use and holds
-- what it held, and none is new.
pub free-IsReleased :
    (s : State) (xs : List Piece) (k : ℕ) (ys : List Piece)
    → IsSound s (xs ++ record { size = k; alloc = true } ∷ ys)
    → Ends (λ _ t. IsReleased s xs k ys t) (free (address s xs + 8) s)
free-IsReleased s xs k ys h =
    Ends-mono (free-IsCoalesced s xs (record { size = k; alloc = true }) ys h.ready refl)
      λ _ t (r, is). coalesced-IsReleased s xs k ys h.limits r t is
