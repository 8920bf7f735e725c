-- ===== src/Heap/Used.antt =====
-- The words of the payloads, which the operations on other blocks leave alone.
use dynamic_memory_allocator.Base.{
  ℕ, ◌+◌, ◌≤◌, ◌≡◌, ◌⊎◌, ◌∙◌, Bool, true, false, List, [], ◌∷◌, ◌++◌, arith, inl, inr,
}
use dynamic_memory_allocator.Machine.{State, Bytes}
use dynamic_memory_allocator.Memlib.Word.{word}
use dynamic_memory_allocator.FreeList.Listed.{IsOff}
use dynamic_memory_allocator.Heap.{Piece, Tiles}
use dynamic_memory_allocator.Heap.Tiles.{extent, Tiles-end}
use dynamic_memory_allocator.Heap.Free.{FreeIn, FreeIn-bounds, link_room}
use dynamic_memory_allocator.Heap.Open.{Around, IsOpen}

-- The eight bytes at `x` lie in the payload of a piece in use of the run that starts at `a`.
abbrev pub InUse : ℕ → List Piece → ℕ → Type 0
InUse a [] x = ⊥
InUse a (p ∷ ps) x =
    ((p.alloc ≡ true) × (a + 8 ≤ x) × (x + 8 ≤ a + p.size)) ⊎ InUse (a + p.size) ps x

pub InUse-bounds :
    (m : Bytes) (a : ℕ) (pa pm : Bool) (ps : List Piece) (e x : ℕ)
    → Tiles m a pa pm ps e
    → InUse a ps x
    → (a + 8 ≤ x) × (x + 8 ≤ e)
InUse-bounds m a pa pm [] e x h u = elim u [ ]
InUse-bounds m a pa pm (p ∷ ps) e x h (inl u) =
    let end = Tiles-end m (a + p.size) _ _ ps e h.1 in (u.1, omega arith)
InUse-bounds m a pa pm (p ∷ ps) e x h (inr u) =
    let rest = InUse-bounds m (a + p.size) _ _ ps e x h.1 u in (omega arith, rest.1)

-- No free piece overlaps the payload of a piece in use.
pub InUse-FreeIn :
    (m : Bytes) (a : ℕ) (pa pm : Bool) (ps : List Piece) (e x b n : ℕ)
    → Tiles m a pa pm ps e
    → InUse a ps x
    → FreeIn a ps b n
    → (x + 8 ≤ b) ⊎ (b + n ≤ x)
InUse-FreeIn m a pa pm [] e x b n h u f = elim u [ ]
InUse-FreeIn m a pa pm (p ∷ ps) e x b n h (inl u) (inl f) =
    let used : p.alloc ≡ true = u.0 in let free : p.alloc ≡ false = f.2 in cc
InUse-FreeIn m a pa pm (p ∷ ps) e x b n h (inl u) (inr f) =
    let rest = FreeIn-bounds m (a + p.size) _ _ ps e b n h.1 f in inl (omega arith)
InUse-FreeIn m a pa pm (p ∷ ps) e x b n h (inr u) (inl f) =
    let rest = InUse-bounds m (a + p.size) _ _ ps e x h.1 u in inr (omega arith)
InUse-FreeIn m a pa pm (p ∷ ps) e x b n h (inr u) (inr f) =
    InUse-FreeIn m (a + p.size) _ _ ps e x b n h.1 u f

pub InUse-append :
    (a : ℕ) (ps qs : List Piece) (x : ℕ)
    → InUse a (ps ++ qs) x
    → InUse a ps x ⊎ InUse (a + extent ps) qs x
InUse-append a [] qs x u = let same : a ≡ a + 0 = omega arith in inr (rw (← same) u)
InUse-append a (p ∷ ps) qs x (inl u) = inl (inl u)
InUse-append a (p ∷ ps) qs x (inr u) = elim (InUse-append (a + p.size) ps qs x u) [
  | inl v ↦ inl (inr v)
  | inr v ↦
      let same : a + p.size + extent ps ≡ a + (p.size + extent ps) = omega arith in
      inr (rw same at v)
]

pub InUse-append_of :
    (a : ℕ) (ps qs : List Piece) (x : ℕ)
    → InUse a ps x ⊎ InUse (a + extent ps) qs x
    → InUse a (ps ++ qs) x
InUse-append_of a [] qs x (inl u) = elim u [ ]
InUse-append_of a [] qs x (inr u) = let same : a + 0 ≡ a = omega arith in rw same at u
InUse-append_of a (p ∷ ps) qs x (inl (inl u)) = inl u
InUse-append_of a (p ∷ ps) qs x (inl (inr u)) = inr (InUse-append_of (a + p.size) ps qs x (inl u))
InUse-append_of a (p ∷ ps) qs x (inr u) =
    let same : a + (p.size + extent ps) ≡ a + p.size + extent ps = omega arith in
    inr (InUse-append_of (a + p.size) ps qs x (inr (rw same at u)))

-- The payloads in use on both sides of a gap.
abbrev pub Used : ℕ → List Piece → ℕ → List Piece → ℕ → Type 0
Used heap xs e ys x = InUse (heap + 8) xs x ⊎ InUse e ys x

-- The heap and its ends stay where they are, and so does what the payloads in use hold.
pub record IsKept (s : State) (xs : List Piece) (e : ℕ) (ys : List Piece) (t : State) : Type 0 where
  pub base : t.heap ≡ s.heap
  pub brk : t.mem_brk ≡ s.mem_brk
  pub limit : t.mem_max_addr ≡ s.mem_max_addr
  pub payload : (x : ℕ) → Used s.heap xs e ys x → word t.bytes x ≡ word s.bytes x

pub IsKept-trans :
    (s t u : State) (xs : List Piece) (e : ℕ) (ys : List Piece)
    → IsKept s xs e ys t
    → IsKept t xs e ys u
    → IsKept s xs e ys u
IsKept-trans s t u xs e ys h k = record {
  base = k.base ∙ h.base;
  brk = k.brk ∙ h.brk;
  limit = k.limit ∙ h.limit;
  payload = λ x used. k.payload x (rw h.base used) ∙ h.payload x used;
}

-- A free piece that joins the gap has no payload in use.
pub IsKept-before :
    (s t : State) (ws : List Piece) (p : Piece) (e : ℕ) (ys : List Piece)
    → p.alloc ≡ false
    → IsKept s ws e ys t
    → IsKept s (ws ++ p ∷ []) e ys t
IsKept-before s t ws p e ys free h = record {
  base = h.base;
  brk = h.brk;
  limit = h.limit;
  payload = λ x used. elim used [
    | inr u ↦ h.payload x (inr u)
    | inl u ↦ elim (InUse-append (s.heap + 8) ws (p ∷ []) x u) [
      | inl v ↦ h.payload x (inl v)
      | inr (inl v) ↦ let in_use : p.alloc ≡ true = v.0 in cc
      | inr (inr v) ↦ elim v [ ]
    ]
  ];
}

pub IsKept-behind :
    (s t : State) (xs : List Piece) (p : Piece) (e : ℕ) (ys : List Piece)
    → p.alloc ≡ false
    → IsKept s xs (e + p.size) ys t
    → IsKept s xs e (p ∷ ys) t
IsKept-behind s t xs p e ys free h = record {
  base = h.base;
  brk = h.brk;
  limit = h.limit;
  payload = λ x used. elim used [
    | inl u ↦ h.payload x (inl u)
    | inr (inl u) ↦ let in_use : p.alloc ≡ true = u.0 in cc
    | inr (inr u) ↦ h.payload x (inr u)
  ];
}

module _ (s : State) (xs : List Piece) (a e : ℕ) (pa pm : Bool) (ys : List Piece)
    (h : IsOpen s xs a e pa pm ys) where
  pub Used-bounds :
      (x : ℕ)
      → Used s.heap xs e ys x
      → ((s.heap + 16 ≤ x) × (x + 8 ≤ a)) ⊎ ((e + 8 ≤ x) × (x + 16 ≤ s.mem_brk))
  Used-bounds x (inl u) = let at_x = InUse-bounds _ _ _ _ xs _ x h.left u in inl (omega arith)
  Used-bounds x (inr u) =
      let at_x = InUse-bounds _ _ _ _ ys _ x h.right.0 u in
      let room = h.framed.room in inr (omega arith)

  -- Links are written in free pieces only.
  pub Used-IsOff : (x : ℕ) → Used s.heap xs e ys x → IsOff (Around (s.heap + 8) xs e ys) x
  Used-IsOff x (inl u) b n (inl f) =
      let size = (FreeIn-bounds _ _ _ _ xs _ b n h.left f).0 in
      let links = link_room n size in
      let off = InUse-FreeIn _ _ _ _ xs _ x b n h.left u f in omega arith
  Used-IsOff x (inr u) b n (inr f) =
      let size = (FreeIn-bounds _ _ _ _ ys _ b n h.right.0 f).0 in
      let links = link_room n size in
      let off = InUse-FreeIn _ _ _ _ ys _ x b n h.right.0 u f in omega arith
  Used-IsOff x (inl u) b n (inr f) =
      let at_x = Used-bounds x (inl u) in
      let at_b = FreeIn-bounds _ _ _ _ ys _ b n h.right.0 f in
      let links = link_room n at_b.0 in
      let gap = h.gap in omega (arith, InUse-bounds _ _ _ _ xs _ x h.left u)
  Used-IsOff x (inr u) b n (inl f) =
      let at_b = FreeIn-bounds _ _ _ _ xs _ b n h.left f in
      let links = link_room n at_b.0 in
      let gap = h.gap in omega (arith, InUse-bounds _ _ _ _ ys _ x h.right.0 u)
