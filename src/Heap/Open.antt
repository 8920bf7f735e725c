-- ===== src/Heap/Open.antt =====
-- A heap that an operation is at work on: pieces up to a gap, the gap, and pieces behind it, whose
-- first one need not have the right flags yet.
use dynamic_memory_allocator.Base.{
  ℕ, ◌+◌, ◌-◌, ◌%◌, ◌^◌, ◌≤◌, ◌<◌, ◌≡◌, ◌⊎◌, ◌∙◌, refl, sym, ap, Bool, true, false, List, [], ◌∷◌,
  ◌++◌, arith, ◌==◌, inl, inr,
}
use dynamic_memory_allocator.Machine.{State, Bytes}
use dynamic_memory_allocator.Memlib.Word.{word}
use dynamic_memory_allocator.Block.{min_block_size, pack_all}
use dynamic_memory_allocator.FreeList.Chain.{}
use dynamic_memory_allocator.FreeList.Listed.{Blocks, IsListed, IsOff}
use dynamic_memory_allocator.Heap.{Piece, IsPiece, Tiles, last_alloc, last_mini, Coalesced, IsHeap}
use dynamic_memory_allocator.Heap.Fields.{HasHeader}
use dynamic_memory_allocator.Heap.Tiles.{extent, Tiles-end, Tiles-same, Tiles-append}
use dynamic_memory_allocator.Heap.Walk.{head_size, head_alloc, last_alloc-append, last_mini-append}
use dynamic_memory_allocator.Heap.Free.{
  FreeIn, FreeIn-bounds, IsSize, link_room, Placed, Tiles-relinked,
}

-- Pieces up to the epilogue at `z`.
abbrev pub Tail : Bytes → (a : ℕ) (pa pm : Bool) → List Piece → (z : ℕ) → Type 0
Tail m a pa pm ps z =
    Tiles m a pa pm ps z × (word m z ≡ pack_all 0 true (last_alloc pa ps) (last_mini pm ps))

-- What no operation on the blocks changes.
pub record IsFramed (s : State) : Type 0 where
  pub some_heap : 0 < s.heap
  pub small : s.mem_brk < 2 ^ 64
  pub room : s.heap + 16 ≤ s.mem_brk
  pub aligned : s.heap % 16 ≡ 0
  pub start : s.heap_start ≡ s.heap + 8
  pub prologue : word s.bytes s.heap ≡ pack_all 0 true false false

-- The free pieces on both sides of the gap.
abbrev pub Around : ℕ → List Piece → ℕ → List Piece → Blocks
Around a xs e ys b n = FreeIn a xs b n ⊎ FreeIn e ys b n

-- The gap lies from `a` to `e`; `pa` and `pm` are the flags that the piece behind it shows.
pub record IsOpen (s : State) (xs : List Piece) (a e : ℕ) (pa pm : Bool) (ys : List Piece)
    : Type 0 where
  pub framed : IsFramed s
  pub left : Tiles s.bytes (s.heap + 8) true false xs a
  pub right : Tail s.bytes e pa pm ys (s.mem_brk - 8)
  pub gap : a + 16 ≤ e
  pub multiple : (e - a) % 16 ≡ 0
  pub ordered_left : Coalesced true xs
  pub ordered_right : Coalesced true ys
  pub listed : IsListed s (Around (s.heap + 8) xs e ys)

-- A heap in order, its free pieces in the lists.
pub record IsReady (s : State) (ps : List Piece) : Type 0 where
  pub heap : IsHeap s ps
  pub ordered : Coalesced true ps
  pub listed : IsListed s (FreeIn (s.heap + 8) ps)

-- The bounds of an open heap.
pub record IsBounded (s : State) (a e : ℕ) (ys : List Piece) : Type 0 where
  pub lower : s.heap + 8 ≤ a
  pub upper : e + extent ys + 8 ≡ s.mem_brk
  pub before : a + 16 ≤ e
  pub some_heap : 0 < s.heap
  pub small : s.mem_brk < 2 ^ 64

pub IsOpen-IsBounded :
    (s : State) (xs : List Piece) (a e : ℕ) (pa pm : Bool) (ys : List Piece)
    → IsOpen s xs a e pa pm ys
    → IsBounded s a e ys
IsOpen-IsBounded s xs a e pa pm ys h =
    let end = Tiles-end _ _ _ _ ys _ h.right.0 in
    let start = Tiles-end _ _ _ _ xs _ h.left in
    let room = h.framed.room in
    record {
      lower = omega arith;
      upper = omega arith;
      before = h.gap;
      some_heap = h.framed.some_heap;
      small = h.framed.small;
    }

-- Free pieces keep away from a neighbour that is in use.
pub FreeIn-before :
    (m : Bytes) (a : ℕ) (pa pm : Bool) (ps : List Piece) (e b n : ℕ)
    → Tiles m a pa pm ps e
    → last_alloc pa ps ≡ true
    → FreeIn a ps b n
    → b + n + 16 ≤ e
FreeIn-before m a pa pm [] e b n h last f = elim f [ ]
FreeIn-before m a pa pm (p ∷ []) e b n h last (inl f) = let both : p.alloc ≡ false = f.2 in cc
FreeIn-before m a pa pm (p ∷ q ∷ ps) e b n h last (inl f) =
    let least = h.1.0.least in
    let end = Tiles-end m (a + p.size + q.size) _ _ ps e h.1.1 in omega arith
FreeIn-before m a pa pm (p ∷ ps) e b n h last (inr f) =
    FreeIn-before m (a + p.size) _ _ ps e b n h.1 last f

pub FreeIn-behind :
    (m : Bytes) (a : ℕ) (pa pm : Bool) (ps : List Piece) (e b n : ℕ)
    → Tiles m a pa pm ps e
    → head_alloc ps ≡ true
    → FreeIn a ps b n
    → a + 16 ≤ b
FreeIn-behind m a pa pm [] e b n h head f = elim f [ ]
FreeIn-behind m a pa pm (p ∷ ps) e b n h head (inl f) = let both : p.alloc ≡ false = f.2 in cc
FreeIn-behind m a pa pm (p ∷ ps) e b n h head (inr f) =
    let least = h.0.least in
    let rest = FreeIn-bounds m (a + p.size) _ _ ps e b n h.1 f in omega arith

-- Writing the header of what stands at `e`, in use, gives it new flags.
pub Tail-reflag :
    (m m' : Bytes) (e : ℕ) (pa pm pa' pm' : Bool) (ys : List Piece) (z : ℕ)
    → Tail m e pa pm ys z
    → head_alloc ys ≡ true
    → word m' e ≡ pack_all (head_size ys) true pa' pm'
    → ((x : ℕ) → e + 8 ≤ x → word m' x ≡ word m x)
    → Tail m' e pa' pm' ys z
Tail-reflag m m' e pa pm pa' pm' [] z h head new same = (h.0, ap (word m') (sym h.0) ∙ new)
Tail-reflag m m' e pa pm pa' pm' (p ∷ ys) z h head new same =
    let least = h.0.0.least in
    let end = Tiles-end m (e + p.size) _ _ ys z h.0.1 in
    (
      (
        record {
          header = rw head new;
          footer = λ free large. let both : p.alloc ≡ false = free in cc;
          aligned = h.0.0.aligned;
          least = least;
        },
        Tiles-same m m' (e + p.size) _ _ ys z (λ x lower upper. same x (omega arith)) h.0.1,
      ),
      same z (omega arith) ∙ h.1,
    )

-- The heap is whole again once the gap is a piece and the flags behind it are right.
pub IsHeap-close :
    (s : State) (xs : List Piece) (a : ℕ) (p : Piece) (ys : List Piece)
    → IsFramed s
    → Tiles s.bytes (s.heap + 8) true false xs a
    → IsPiece s.bytes a (last_alloc true xs) (last_mini false xs) p
    → Tail s.bytes (a + p.size) p.alloc (p.size == min_block_size) ys (s.mem_brk - 8)
    → IsHeap s (xs ++ p ∷ ys)
IsHeap-close s xs a p ys framed left piece right = record {
  some_heap = framed.some_heap;
  small = framed.small;
  room = framed.room;
  aligned = framed.aligned;
  start = framed.start;
  prologue = framed.prologue;
  tiles = Tiles-append s.bytes (s.heap + 8) true false xs (p ∷ ys) a _ left (piece, right.0);
  epilogue = rw (last_alloc-append, last_mini-append) (right.1);
}

pub Coalesced-last :
    (pa : Bool) (xs : List Piece) (p : Piece)
    → Coalesced pa (xs ++ p ∷ [])
    → p.alloc ≡ false
    → last_alloc pa xs ≡ true
Coalesced-last pa [] p h free = ground arith
Coalesced-last pa (x ∷ xs) p h free = Coalesced-last x.alloc xs p h.1 free

pub Coalesced-prefix : (pa : Bool) (xs ys : List Piece) → Coalesced pa (xs ++ ys) → Coalesced pa xs
Coalesced-prefix pa [] ys h = tt
Coalesced-prefix pa (x ∷ xs) ys h = (h.0, Coalesced-prefix x.alloc xs ys h.1)

pub Coalesced-suffix :
    (pa : Bool) (xs ys : List Piece) → Coalesced pa (xs ++ ys) → Coalesced (last_alloc pa xs) ys
Coalesced-suffix pa [] ys h = h
Coalesced-suffix pa (x ∷ xs) ys h = Coalesced-suffix x.alloc xs ys h.1

pub Coalesced-join :
    (pa : Bool) (xs ys : List Piece)
    → Coalesced pa xs
    → Coalesced (last_alloc pa xs) ys
    → Coalesced pa (xs ++ ys)
Coalesced-join pa [] ys h k = k
Coalesced-join pa (x ∷ xs) ys h k = (h.0, Coalesced-join x.alloc xs ys h.1 k)

pub Coalesced-head :
    (ys : List Piece) → Coalesced false ys → (head_alloc ys ≡ true) × Coalesced true ys
Coalesced-head [] h = (refl, tt)
Coalesced-head (y ∷ ys) h = (ground arith, (inl refl, h.1))

pub Coalesced-used :
    (ys : List Piece) → head_alloc ys ≡ true → Coalesced true ys → Coalesced false ys
Coalesced-used [] used h = tt
Coalesced-used (y ∷ ys) used h = (inr used, h.1)

-- The header behind the gap.
pub IsOpen-next :
    (s : State) (xs : List Piece) (a e : ℕ) (pa pm : Bool) (ys : List Piece)
    → IsOpen s xs a e pa pm ys
    → HasHeader s e (head_size ys) (head_alloc ys) pa pm
IsOpen-next s xs a e pa pm [] h =
    let bounds = IsOpen-IsBounded s xs a e pa pm [] h in
    let upper = bounds.upper in
    let lower = bounds.lower in
    let gap = h.gap in
    record {
      inside = omega arith;
      fits = omega arith;
      header = ap (word s.bytes) h.right.0 ∙ h.right.1;
    }
IsOpen-next s xs a e pa pm (p ∷ ys) h =
    let bounds = IsOpen-IsBounded s xs a e pa pm (p ∷ ys) h in
    let upper = bounds.upper in
    let lower = bounds.lower in
    let small = bounds.small in
    let gap = h.gap in
    let aligned = h.right.0.0.aligned in
    record { inside = omega arith; fits = omega arith; header = h.right.0.0.header }

-- The set of an open heap lies on both sides of the gap.
module _ (s : State) (xs : List Piece) (a e : ℕ) (pa pm : Bool) (ys : List Piece)
    (h : IsOpen s xs a e pa pm ys) where
  pub Around-bounds :
      (b n : ℕ)
      → Around (s.heap + 8) xs e ys b n
      → IsSize n × (((s.heap + 8 ≤ b) × (b + n ≤ a)) ⊎ ((e ≤ b) × (b + n + 8 ≤ s.mem_brk)))
  Around-bounds b n (inl f) =
      let at_b = FreeIn-bounds _ _ _ _ xs _ b n h.left f in (at_b.0, inl (at_b.1, at_b.2))
  Around-bounds b n (inr f) =
      let at_b = FreeIn-bounds _ _ _ _ ys _ b n h.right.0 f in
      let room = h.framed.room in (at_b.0, inr (at_b.1, omega arith))

  -- No word of the gap is a link.
  pub IsOff-gap : (x : ℕ) → a ≤ x → x + 8 ≤ e → IsOff (Around (s.heap + 8) xs e ys) x
  IsOff-gap x lower upper b n f =
      let at_b = Around-bounds b n f in let room = link_room n at_b.0 in omega arith

  pub IsOff-ends :
      (x : ℕ) → (x ≤ s.heap) ⊎ (s.mem_brk ≤ x + 8) → IsOff (Around (s.heap + 8) xs e ys) x
  IsOff-ends x far b n f =
      let at_b = Around-bounds b n f in
      let room = link_room n at_b.0 in
      let lower = h.framed.room in
      let gap = h.gap in
      let sides = IsOpen-IsBounded s xs a e pa pm ys h in let upper = sides.upper in omega arith

  pub Placed-left : (b n : ℕ) → Around (s.heap + 8) xs e ys b n → Placed (s.heap + 8) xs a b n
  Placed-left b n (inl f) = ((FreeIn-bounds _ _ _ _ xs _ b n h.left f).0, inr f)
  Placed-left b n (inr f) =
      let gap = h.gap in
      let at_b = FreeIn-bounds _ _ _ _ ys _ b n h.right.0 f in (at_b.0, inl (inr (omega arith)))

  pub Placed-right : (b n : ℕ) → Around (s.heap + 8) xs e ys b n → Placed e ys (s.mem_brk - 8) b n
  Placed-right b n (inl f) =
      let gap = h.gap in
      let at_b = FreeIn-bounds _ _ _ _ xs _ b n h.left f in (at_b.0, inl (inl (omega arith)))
  Placed-right b n (inr f) = ((FreeIn-bounds _ _ _ _ ys _ b n h.right.0 f).0, inr f)

  -- Relinking leaves both sides of the gap and the ends of the heap as they are.
  module _ (m : Bytes)
      (same : (x : ℕ) → IsOff (Around (s.heap + 8) xs e ys) x → word m x ≡ word s.bytes x) where
    pub left-relinked : Tiles m (s.heap + 8) true false xs a
    left-relinked = Tiles-relinked s.bytes m _ same _ _ _ xs a Placed-left h.left

    pub right-relinked : Tail m e pa pm ys (s.mem_brk - 8)
    right-relinked =
        let room = h.framed.room in
        (
          Tiles-relinked s.bytes m _ same e pa pm ys _ Placed-right h.right.0,
          same _ (IsOff-ends _ (inr (omega arith))) ∙ h.right.1,
        )

    pub prologue-relinked : word m s.heap ≡ pack_all 0 true false false
    prologue-relinked = same _ (IsOff-ends _ (inl (omega arith))) ∙ h.framed.prologue
