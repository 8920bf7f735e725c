-- ===== src/Heap/Begin.antt =====
-- `mm_init` on fresh memory.
use mathlib.Core.Path.{subst}
use dynamic_memory_allocator.Base.{
  ℕ, zero, suc, ◌==◌, ◌+◌, ◌-◌, ◌%◌, ◌≤◌, ◌<◌, ◌≡◌, ◌≢◌, ◌⊎◌, ◌∙◌, refl, sym, ap, Bool, true, false,
  not, List, [], ◌∷◌, ◌++◌, arith, inl, inr, Bool-cases, ==_ne, ==_iff, ltb,
}
use dynamic_memory_allocator.Machine.{State, pure, modify, ◌>>=◌, ◌>>◌}
use dynamic_memory_allocator.Machine.Ends.{Ends, ends, Ends-mono, Ends-continue, Ends-done}
use dynamic_memory_allocator.Memlib.{store}
use dynamic_memory_allocator.Memlib.Break.{IsBreak}
use dynamic_memory_allocator.Memlib.Word.{
  word, put, put_word, store-put, word-put_two_first, word-put_two_second,
}
use dynamic_memory_allocator.Block.{null, chunksize, dsize, round_up, pack_all}
use dynamic_memory_allocator.Block.Sizes.{}
use dynamic_memory_allocator.Block.Header.{pack_all-lt}
use dynamic_memory_allocator.FreeList.{seg_length, set_seg, set_mini}
use dynamic_memory_allocator.FreeList.Listed.{IsListed}
use dynamic_memory_allocator.Allocator.{extend_heap, clear_seg, init_at, mm_init}
use dynamic_memory_allocator.Heap.{Piece}
use dynamic_memory_allocator.Heap.Free.{FreeIn, FreeIn-append_of}
use dynamic_memory_allocator.Heap.Blocks.{UsedIn, UsedIn-around}
use dynamic_memory_allocator.Heap.Open.{IsReady}
use dynamic_memory_allocator.Heap.Extend.{moved}
use dynamic_memory_allocator.Heap.Grow.{mem_sbrk-cases, IsOffered, extend_heap-IsOffered}
use dynamic_memory_allocator.Heap.Allocate.{IsSound}

-- The entries from `i` on, `k` of them, are cleared.
record IsCleared (s : State) (k i : ℕ) (t : State) : Type 0 where
  pub state : t ≡ record s { seg_list = t.seg_list }
  pub cleared : (c : ℕ) → i ≤ c → c < i + k → t.seg_list c ≡ null
  pub others : (c : ℕ) → (c < i) ⊎ (i + k ≤ c) → t.seg_list c ≡ s.seg_list c

clear_seg-IsCleared : (k i : ℕ) (s : State) → Ends (λ _. IsCleared s k i) (clear_seg k i s)
unfolding clear_seg
clear_seg-IsCleared zero i s = ends (record {
  state = refl;
  cleared = λ c lower upper. absurd (omega arith);
  others = λ c far. refl;
})
clear_seg-IsCleared (suc k) i s =
    Ends-mono (clear_seg-IsCleared k (i + 1) (set_seg i null s)) λ _ t is. record {
      state = is.state;
      cleared = λ c lower upper. elim (Bool-cases (c == i)) [
        | inl here ↦
            let same = (==_iff c i).0 here in is.others c (inl (omega arith)) ∙ rw here refl
        | inr other ↦
            let ne : c ≢ i = λ e. (let k = (==_iff c i).1 e in cc) in
            is.cleared c (omega arith) (omega arith)
      ];
      others = λ c far. is.others c (omega arith) ∙ rw (==_ne c i (omega arith)) refl;
    }

-- Fresh memory: nothing is in the heap, which starts at a multiple of 16. The function that stands
-- for the array is null behind it.
pub record IsFresh (s : State) : Type 0 where
  pub some_heap : 0 < s.heap
  pub empty : s.mem_brk ≡ s.heap
  pub aligned : s.heap % 16 ≡ 0
  pub limits : IsBreak s
  pub beyond : (c : ℕ) → seg_length ≤ c → s.seg_list c ≡ null

-- Prologue and epilogue with no block between them.
module _ (s : State) (fresh : IsFresh s) (chunk : ℕ) (within : s.mem_brk + 16 ≤ s.mem_max_addr)
    (t : State) (is : IsCleared (moved s 16 chunk) seg_length 0 t) where
  abbrev ends_written : State
  ends_written = record (set_mini null t) {
    bytes =
        put_word (put_word t.bytes s.heap (pack_all 0 true false false)) (s.heap + 8)
          (pack_all 0 true true false);
    heap_start = s.heap + 8;
  }

  all_null : (c : ℕ) → t.seg_list c ≡ null
  all_null c = elim (Bool-cases (ltb c seg_length)) [
    | inl inside ↦ is.cleared c (omega arith) (ground arith)
    | inr outside ↦ is.others c (inr (ground arith)) ∙ fresh.beyond c (ground arith)
  ]

  empty-IsListed : IsListed ends_written (FreeIn (s.heap + 8) [])
  empty-IsListed = record {
    seg = λ c. [];
    minis = [];
    seg_lists = λ c. record { chain = all_null c; back = tt; spread = tt; inside = tt };
    mini = record { chain = refl; spread = tt; inside = tt };
    sizes = λ a n f. elim f [ ];
    spread = λ a n b k f. elim f [ ];
    seg_in = λ c a i. elim i [ ];
    seg_has = λ a n f. elim f [ ];
    mini_in = λ a i. elim i [ ];
    mini_has = λ a f. elim f [ ];
  }

  empty_ready : IsReady ends_written []
  empty_ready =
      let base : t.heap ≡ s.heap = ap State.heap is.state in
      let brk : t.mem_brk ≡ s.mem_brk + 16 = ap State.mem_brk is.state in
      let some_heap = fresh.some_heap in
      let empty = fresh.empty in
      let aligned = fresh.aligned in
      let ordered = fresh.limits in
      let small = ordered.small in
      let last : t.mem_brk - 8 ≡ s.heap + 8 = omega arith in
      record {
        heap = record {
          some_heap = omega arith;
          small = omega arith;
          room = omega arith;
          aligned = omega arith;
          start = omega arith;
          prologue =
              ap (word ends_written.bytes) base
              ∙ word-put_two_first t.bytes s.heap _ (s.heap + 8) _ (omega arith)
                  (pack_all-lt 0 true false false (omega arith));
          tiles = omega arith;
          epilogue =
              ap (word ends_written.bytes) last
              ∙ word-put_two_second t.bytes s.heap _ (s.heap + 8) _
                  (pack_all-lt 0 true true false (omega arith));
        };
        ordered = tt;
        listed = empty-IsListed;
      }

  empty_limits : IsBreak ends_written
  empty_limits =
      let base : t.heap ≡ s.heap = ap State.heap is.state in
      let brk : t.mem_brk ≡ s.mem_brk + 16 = ap State.mem_brk is.state in
      let limit : t.mem_max_addr ≡ s.mem_max_addr = ap State.mem_max_addr is.state in
      let small = fresh.limits.small in
      let ordered = fresh.limits.ordered in
      record { ordered = omega arith; bounded = omega arith; small = omega arith }

-- A heap in order with a free block of at least `chunksize` bytes, and no block in use.
pub record HasChunk (t : State) : Type 0 where
  pub ps : List Piece
  pub sound : IsSound t ps
  pub at : ℕ
  pub size : ℕ
  pub free : FreeIn (t.heap + 8) ps at size
  pub large : chunksize ≤ size
  pub unused : (b k : ℕ) → UsedIn (t.heap + 8) ps b k → ⊥

-- What `mm_init` answers: true with such a heap, or false.
abbrev pub IsBegun : State → Bool → State → Type 0
IsBegun s b t = (b ≡ false) ⊎ ((b ≡ true) × (t.heap ≡ s.heap) × HasChunk t)

chunk_rounded : round_up chunksize dsize ≡ chunksize
unfolding round_up
chunk_rounded = refl

module _ (s : State) (fresh : IsFresh s) where
  IsBegun-end :
      (chunk : ℕ) (within : s.mem_brk + 16 ≤ s.mem_max_addr) (t : State)
      (is : IsCleared (moved s 16 chunk) seg_length 0 t) (r : ℕ) (u : State)
      → ((r ≡ null) × (u ≡ ends_written s fresh chunk within t is))
        ⊎ IsOffered (ends_written s fresh chunk within t is) [] chunksize r u
      → Ends (IsBegun s) (pure (not (r == null)) u)
  IsBegun-end chunk within t is r u (inl (nothing, same)) =
      rw ((==_iff r null).1 nothing) (ends (inl refl))
  IsBegun-end chunk within t is r u (inr offered) =
      let here = offered.here in
      rw (==_ne r null (omega arith)) (
        ends (
          inr (
            refl,
            offered.base ∙ ap State.heap is.state,
            record {
              ps = offered.xs ++ offered.piece ∷ offered.ys;
              sound = record { ready = offered.ready; limits = offered.limits };
              at = r;
              size = offered.piece.size;
              free =
                  FreeIn-append_of _ offered.xs (offered.piece ∷ offered.ys) _ _
                    (inr (inl (here, refl, offered.free)));
              large = offered.enough;
              unused = λ b k v.
                  offered.only b k
                    (UsedIn-around _ offered.xs offered.piece offered.ys b k offered.free v);
            },
          )))

  -- From the cleared lists on.
  IsBegun-cleared :
      (chunk : ℕ) (within : s.mem_brk + 16 ≤ s.mem_max_addr) (t : State)
      → IsCleared (moved s 16 chunk) seg_length 0 t
      → Ends (IsBegun s) (
          (do
            modify (set_mini null)
            store s.heap (pack_all 0 true false false)
            store (s.heap + 8) (pack_all 0 true true false)
            modify (λ s'. record s' { heap_start = s.heap + 8 })
            block ← extend_heap chunksize
            pure (not (block == null)))
            t)
  IsBegun-cleared chunk within t is =
      let base : t.heap ≡ s.heap = ap State.heap is.state in
      let brk : t.mem_brk ≡ s.mem_brk + 16 = ap State.mem_brk is.state in
      let empty = fresh.empty in
      rw
        (
          store-put (set_mini null t) s.heap (pack_all 0 true false false) (omega arith),
          store-put (put (set_mini null t) s.heap (pack_all 0 true false false)) (s.heap + 8)
              (pack_all 0 true true false) (omega arith),
        )
        (Ends-continue
          (extend_heap-IsOffered (ends_written s fresh chunk within t is) []
            (empty_ready s fresh chunk within t is) (empty_limits s fresh chunk within t is)
            chunksize (omega arith) (omega arith) chunksize chunk_rounded (omega arith))
          λ r u offered. IsBegun-end chunk within t is r u offered)

  begun :
      (chunk : ℕ)
      → s.mem_brk + 16 ≤ s.mem_max_addr
      → Ends (IsBegun s) (init_at s.mem_brk (moved s 16 chunk))
  unfolding init_at clear_seg
  begun chunk within =
      subst (λ b. Ends (IsBegun s) (init_at b (moved s 16 chunk))) (sym fresh.empty)
        (IsBegun-cleared chunk within _
          (Ends-done (clear_seg-IsCleared seg_length 0 (moved s 16 chunk))))

  -- `mm_init` on fresh memory ends, and if it answers true the heap is in order, holds a free block of
  -- at least `chunksize` bytes, and no block is in use.
  pub mm_init-IsBegun : Ends (IsBegun s) (mm_init s)
  unfolding mm_init
  mm_init-IsBegun = elim (mem_sbrk-cases s 16 fresh.limits (omega arith)) [
    | inl failed ↦ rw failed (ends (inl refl))
    | inr (within, granted) ↦ rw granted (begun _ within)
  ]
