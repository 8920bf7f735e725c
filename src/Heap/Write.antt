-- ===== src/Heap/Write.antt =====
-- A client's write to the payload of a block in use leaves the heap in order.
use mathlib.Core.Path.{subst}
use dynamic_memory_allocator.Base.{
  ℕ, ◌+◌, ◌-◌, ◌%◌, ◌≤◌, ◌≡◌, ◌⊎◌, ◌∙◌, refl, sym, Bool, true, false, List, [], ◌∷◌, arith, inl,
  inr,
}
use dynamic_memory_allocator.Machine.{State, Bytes, write, done}
use dynamic_memory_allocator.Machine.ReadWrite.{}
use dynamic_memory_allocator.Memlib.{mem_write}
use dynamic_memory_allocator.Memlib.Word.{word}
use dynamic_memory_allocator.Block.{}
use dynamic_memory_allocator.FreeList.Listed.{IsListed-same}
use dynamic_memory_allocator.Heap.{Piece, Tiles}
use dynamic_memory_allocator.Heap.Tiles.{Tiles-same, IsPiece-same}
use dynamic_memory_allocator.Heap.Free.{FreeIn, FreeIn-bounds}
use dynamic_memory_allocator.Heap.Blocks.{UsedIn, UsedIn-bounds}
use dynamic_memory_allocator.Heap.Open.{}
use dynamic_memory_allocator.Heap.Allocate.{IsSound}

-- A block in use and a free one lie apart.
UsedIn-FreeIn :
    (m : Bytes) (a : ℕ) (pa pm : Bool) (ps : List Piece) (e b k c n : ℕ)
    → Tiles m a pa pm ps e
    → UsedIn a ps b k
    → FreeIn a ps c n
    → (b + k ≤ c) ⊎ (c + n ≤ b)
UsedIn-FreeIn m a pa pm [] e b k c n h u f = elim u [ ]
UsedIn-FreeIn m a pa pm (p ∷ ps) e b k c n h (inl u) (inl f) =
    let used : p.alloc ≡ true = u.2 in let free : p.alloc ≡ false = f.2 in cc
UsedIn-FreeIn m a pa pm (p ∷ ps) e b k c n h (inl u) (inr f) =
    let rest = FreeIn-bounds m (a + p.size) _ _ ps e c n h.1 f in inl (omega arith)
UsedIn-FreeIn m a pa pm (p ∷ ps) e b k c n h (inr u) (inl f) =
    let rest = UsedIn-bounds m (a + p.size) _ _ ps e b k h.1 u in inr (omega arith)
UsedIn-FreeIn m a pa pm (p ∷ ps) e b k c n h (inr u) (inr f) =
    UsedIn-FreeIn m (a + p.size) _ _ ps e b k c n h.1 u f

-- Memory that differs in the payload of one block in use only has the same pieces.
Tiles-payload :
    (m m' : Bytes) (a : ℕ) (pa pm : Bool) (ps : List Piece) (e b k : ℕ)
    → ((x : ℕ) → (x ≤ b) ⊎ (b + k ≤ x) → word m' x ≡ word m x)
    → UsedIn a ps b k
    → Tiles m a pa pm ps e
    → Tiles m' a pa pm ps e
Tiles-payload m m' a pa pm [] e b k same u h = h
Tiles-payload m m' a pa pm (p ∷ ps) e b k same (inl u) h = (
  record {
    header = same a (omega arith) ∙ h.0.header;
    footer =
        λ free large. (let used : p.alloc ≡ true = u.2 in let free' : p.alloc ≡ false = free in cc);
    aligned = h.0.aligned;
    least = h.0.least;
  },
  Tiles-same m m' (a + p.size) _ _ ps e (λ x lower upper. same x (omega arith)) h.1,
)
Tiles-payload m m' a pa pm (p ∷ ps) e b k same (inr u) h =
    let at_b = UsedIn-bounds m (a + p.size) _ _ ps e b k h.1 u in
    (
      IsPiece-same m m' a pa pm p (a + p.size) (omega arith) (λ x lower upper. same x (omega arith))
          h.0,
      Tiles-payload m m' (a + p.size) _ _ ps e b k same u h.1,
    )

module _ (s : State) (ps : List Piece) (h : IsSound s ps) (b k : ℕ)
    (used : UsedIn (s.heap + 8) ps b k) where
  block_at : (16 ≤ k) × (s.heap + 8 ≤ b) × (b + k ≤ s.mem_brk - 8)
  block_at = UsedIn-bounds _ _ _ _ ps _ b k h.ready.heap.tiles used

  free_apart :
      (c i : ℕ) → FreeIn (s.heap + 8) ps c i → (16 ≤ i) × (i % 16 ≡ 0) × ((b + k ≤ c) ⊎ (c + i ≤ b))
  free_apart c i f =
      let size = (FreeIn-bounds _ _ _ _ ps _ c i h.ready.heap.tiles f).0 in
      (size.1, size.0, UsedIn-FreeIn _ _ _ _ ps _ b k c i h.ready.heap.tiles used f)

  -- A state that differs in the payload of a block in use only is as sound.
  pub payload-IsSound :
      (t : State)
      → t ≡ record s { bytes = t.bytes }
      → ((y : ℕ) → (y ≤ b) ⊎ (b + k ≤ y) → word t.bytes y ≡ word s.bytes y)
      → IsSound t ps
  payload-IsSound t state same =
      let whole = h.ready.heap in
      let room = whole.room in
      let at_b = block_at in
      subst (λ u. IsSound u ps) (sym state)
        (record {
          ready = record {
            heap = record {
              some_heap = whole.some_heap;
              small = whole.small;
              room = whole.room;
              aligned = whole.aligned;
              start = whole.start;
              prologue = same s.heap (omega arith) ∙ whole.prologue;
              tiles = Tiles-payload s.bytes t.bytes _ _ _ ps _ b k same used whole.tiles;
              epilogue = same (s.mem_brk - 8) (omega arith) ∙ whole.epilogue;
            };
            ordered = h.ready.ordered;
            listed =
                IsListed-same s (record s { bytes = t.bytes }) _ refl
                  (λ c i f. let apart = free_apart c i f in same c (omega arith))
                  (λ c i f. let apart = free_apart c i f in same (c + 8) (omega arith))
                  (λ c i f large.
                    let apart = free_apart c i f in
                    let more : 32 ≤ i = ground arith in same (c + 16) (omega arith))
                  h.ready.listed;
          };
          limits = record {
            ordered = h.limits.ordered;
            bounded = h.limits.bounded;
            small = h.limits.small;
          };
        })

  module _ (x v n : ℕ) (lower : b + 8 ≤ x) (upper : x + n ≤ b + k) where
    abbrev written : State
    written = record s { bytes = write s.bytes x v n }

    -- A write in the payload of a block in use goes through.
    pub mem_write-payload : mem_write x v n s ≡ done tt written
    unfolding mem_write
    mem_write-payload = let at_b = block_at in let room = h.ready.heap.room in ground arith
