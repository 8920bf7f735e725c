-- ===== src/Heap/Tiles.antt =====
-- Runs of pieces: their bounds, joining and splitting them, and memory that agrees on them.
use dynamic_memory_allocator.Base.{ℕ, ◌+◌, ◌-◌, ◌≤◌, ◌≡◌, ◌∙◌, Bool, List, [], ◌∷◌, ◌++◌, arith}
use dynamic_memory_allocator.Machine.{Bytes}
use dynamic_memory_allocator.Memlib.Word.{word}
use dynamic_memory_allocator.Block.{}
use dynamic_memory_allocator.Heap.{Piece, IsPiece, Tiles, last_alloc, last_mini}

abbrev pub extent : List Piece → ℕ
extent [] = 0
extent (p ∷ ps) = p.size + extent ps

pub Tiles-end :
    (m : Bytes) (a : ℕ) (pa pm : Bool) (ps : List Piece) (e : ℕ)
    → Tiles m a pa pm ps e
    → e ≡ a + extent ps
Tiles-end m a pa pm [] e h = omega arith
Tiles-end m a pa pm (p ∷ ps) e h = omega (arith, Tiles-end m (a + p.size) _ _ ps e h.1)

-- The words of the run are the same in both memories.
abbrev pub SameFrom : (m m' : Bytes) (a e : ℕ) → Type 0
SameFrom m m' a e = (x : ℕ) → a ≤ x → x + 8 ≤ e → word m' x ≡ word m x

pub IsPiece-same :
    (m m' : Bytes) (a : ℕ) (pa pm : Bool) (p : Piece) (e : ℕ)
    → a + p.size ≤ e
    → SameFrom m m' a e
    → IsPiece m a pa pm p
    → IsPiece m' a pa pm p
IsPiece-same m m' a pa pm p e room same h =
    let least = h.least in
    record {
      header = same a (omega arith) (omega arith) ∙ h.header;
      footer =
          λ free large. same (a + p.size - 8) (omega arith) (omega arith) ∙ h.footer free large;
      aligned = h.aligned;
      least = h.least;
    }

pub Tiles-same :
    (m m' : Bytes) (a : ℕ) (pa pm : Bool) (ps : List Piece) (e : ℕ)
    → SameFrom m m' a e
    → Tiles m a pa pm ps e
    → Tiles m' a pa pm ps e
Tiles-same m m' a pa pm [] e same h = h
Tiles-same m m' a pa pm (p ∷ ps) e same h =
    let ends = Tiles-end m (a + p.size) _ _ ps e h.1 in
    (
      IsPiece-same m m' a pa pm p e (omega arith) same h.0,
      Tiles-same m m' (a + p.size) _ _ ps e (λ x lower upper. same x (omega arith) upper) h.1,
    )

pub Tiles-append :
    (m : Bytes) (a : ℕ) (pa pm : Bool) (ps qs : List Piece) (b e : ℕ)
    → Tiles m a pa pm ps b
    → Tiles m b (last_alloc pa ps) (last_mini pm ps) qs e
    → Tiles m a pa pm (ps ++ qs) e
Tiles-append m a pa pm [] qs b e h k = rw (h) k
Tiles-append m a pa pm (p ∷ ps) qs b e h k = (h.0, Tiles-append m (a + p.size) _ _ ps qs b e h.1 k)

pub Tiles-split :
    (m : Bytes) (a : ℕ) (pa pm : Bool) (ps qs : List Piece) (e : ℕ)
    → Tiles m a pa pm (ps ++ qs) e
    → Tiles m a pa pm ps (a + extent ps)
      × Tiles m (a + extent ps) (last_alloc pa ps) (last_mini pm ps) qs e
Tiles-split m a pa pm [] qs e h = let same : a ≡ a + 0 = omega arith in (same, rw (← same) h)
Tiles-split m a pa pm (p ∷ ps) qs e h =
    let rest = Tiles-split m (a + p.size) _ _ ps qs e h.1 in
    let same : a + p.size + extent ps ≡ a + (p.size + extent ps) = omega arith in
    ((h.0, rw same at rest.0), rw same at rest.1)
