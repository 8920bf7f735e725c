-- ===== src/Heap/Walk.antt =====
-- Walking from block to block: `find_next` and `find_prev` on a heap of pieces.
use mathlib.Core.List.{append_assoc}
use dynamic_memory_allocator.Base.{
  ℕ, ◌+◌, ◌-◌, ◌^◌, ◌≤◌, ◌<◌, ◌≡◌, ◌≢◌, ◌∙◌, refl, sym, ap, Bool, true, false, List, [], ◌∷◌, ◌++◌,
  arith, ◌==◌, Bool-cases, inl, inr, ==_iff,
}
use dynamic_memory_allocator.Machine.{State, done}
use dynamic_memory_allocator.Memlib.Word.{word}
use dynamic_memory_allocator.Block.{min_block_size, find_next, find_prev}
use dynamic_memory_allocator.Heap.{Piece, IsPiece, last_alloc, last_mini, IsHeap}
use dynamic_memory_allocator.Heap.Fields.{
  HasHeader, find_next-HasHeader, find_prev-mini, find_prev-footer,
}
use dynamic_memory_allocator.Heap.Tiles.{extent, Tiles-end, Tiles-split}

-- What stands behind a run of pieces: the next piece, or the epilogue.
abbrev pub head_size : List Piece → ℕ
head_size [] = 0
head_size (p ∷ ps) = p.size

abbrev pub head_alloc : List Piece → Bool
head_alloc [] = true
head_alloc (p ∷ ps) = p.alloc

pub extent-append : (ps qs : List Piece) → extent (ps ++ qs) ≡ extent ps + extent qs
extent-append [] qs = omega arith
extent-append (p ∷ ps) qs = omega (arith, extent-append ps qs)

pub last_alloc-append :
    (b : Bool) (ps qs : List Piece) → last_alloc b (ps ++ qs) ≡ last_alloc (last_alloc b ps) qs
last_alloc-append b [] qs = refl
last_alloc-append b (p ∷ ps) qs = last_alloc-append p.alloc ps qs

pub last_mini-append :
    (b : Bool) (ps qs : List Piece) → last_mini b (ps ++ qs) ≡ last_mini (last_mini b ps) qs
last_mini-append b [] qs = refl
last_mini-append b (p ∷ ps) qs = last_mini-append (p.size == min_block_size) ps qs

-- The address behind the first pieces of the heap.
abbrev pub address : State → List Piece → ℕ
address s xs = s.heap + 8 + extent xs

pub IsHeap-end : (s : State) (ps : List Piece) → IsHeap s ps → s.mem_brk - 8 ≡ address s ps
IsHeap-end s ps h = Tiles-end s.bytes (s.heap + 8) true false ps (s.mem_brk - 8) h.tiles

pub IsHeap-piece :
    (s : State) (xs : List Piece) (p : Piece) (ys : List Piece)
    → IsHeap s (xs ++ p ∷ ys)
    → IsPiece s.bytes (address s xs) (last_alloc true xs) (last_mini false xs) p
IsHeap-piece s xs p ys h =
    (Tiles-split s.bytes (s.heap + 8) true false xs (p ∷ ys) (s.mem_brk - 8) h.tiles).1.0

pub IsHeap-bounds :
    (s : State) (xs ys : List Piece)
    → IsHeap s (xs ++ ys)
    → address s xs + extent ys + 8 ≡ s.mem_brk
IsHeap-bounds s xs ys h =
    let room = h.room in omega (arith, IsHeap-end s (xs ++ ys) h, extent-append xs ys)

pub IsHeap-header :
    (s : State) (xs ys : List Piece)
    → IsHeap s (xs ++ ys)
    → HasHeader s
        (address s xs)
        (head_size ys)
        (head_alloc ys)
        (last_alloc true xs)
        (last_mini false xs)
IsHeap-header s xs [] h =
    let room = h.room in
    let small = h.small in
    let end = IsHeap-bounds s xs [] h in
    let at : s.mem_brk - 8 ≡ address s xs = omega arith in
    record {
      inside = omega arith;
      fits = omega arith;
      header =
          ap (word s.bytes) (sym at) ∙ (h.epilogue ∙ rw (last_alloc-append, last_mini-append) refl);
    }
IsHeap-header s xs (p ∷ ys) h =
    let end = IsHeap-bounds s xs (p ∷ ys) h in
    let small = h.small in
    let piece = IsHeap-piece s xs p ys h in
    let least = piece.least in
    let aligned = piece.aligned in
    record { inside = omega arith; fits = omega arith; header = piece.header }

-- `find_next` leads from a block to the one behind it, or to the epilogue.
pub find_next-IsHeap :
    (s : State) (xs : List Piece) (p : Piece) (ys : List Piece)
    → IsHeap s (xs ++ p ∷ ys)
    → find_next (address s xs) s ≡ done (address s (xs ++ p ∷ [])) s
find_next-IsHeap s xs p ys h =
    let end = IsHeap-bounds s xs (p ∷ ys) h in
    let small = h.small in
    let there : address s xs + p.size ≡ address s (xs ++ p ∷ []) =
      omega (arith, extent-append xs (p ∷ [])) in
    find_next-HasHeader s _ _ _ _ _ (IsHeap-header s xs (p ∷ ys) h) (omega arith)
    ∙ ap (λ a. done a s) there

-- `find_prev` at a header behind a free piece, by the mini flag or by the footer.
pub find_prev-IsPiece :
    (s : State) (a b size : ℕ) (alloc pa pm pa' pm' : Bool) (p : Piece)
    → HasHeader s a size alloc pa pm
    → pm ≡ (p.size == min_block_size)
    → IsPiece s.bytes b pa' pm' p
    → p.alloc ≡ false
    → b + p.size ≡ a
    → s.heap ≤ b
    → s.mem_brk < 2 ^ 64
    → find_prev a s ≡ done b s
find_prev-IsPiece s a b size alloc pa pm pa' pm' p header flag piece free to_a lower small =
    let least = piece.least in
    let aligned = piece.aligned in
    let inside = header.inside in
    elim (Bool-cases (p.size == min_block_size)) [
      | inl mini ↦
          let sixteen : p.size ≡ 16 = (==_iff _ _).0 mini in
          let back : a - 16 ≡ b = omega arith in
          find_prev-mini s a size alloc pa pm header (flag ∙ mini) (omega arith) (omega arith)
          ∙ ap (λ x. done x s) back
      | inr large ↦
          let other : p.size ≢ 16 = λ e. (let k = (==_iff p.size 16).1 e in cc) in
          let back : a - p.size ≡ b = omega arith in
          let foot_at : a - 8 ≡ b + p.size - 8 = omega arith in
          let foot : HasHeader s (a - 8) p.size p.alloc pa' pm' = record {
            inside = omega arith;
            fits = omega arith;
            header = ap (word s.bytes) foot_at ∙ piece.footer free other;
          } in
          find_prev-footer s a size alloc pa pm p.size p.alloc pa' pm' header foot (flag ∙ large)
            (omega arith) (omega arith) (omega arith) (omega arith)
          ∙ ap (λ x. done x s) back
    ]

-- `find_prev` leads from a block, or from the epilogue, back to a free block before it.
pub find_prev-IsHeap :
    (s : State) (xs : List Piece) (p : Piece) (ys : List Piece)
    → IsHeap s (xs ++ p ∷ ys)
    → p.alloc ≡ false
    → find_prev (address s (xs ++ p ∷ [])) s ≡ done (address s xs) s
find_prev-IsHeap s xs p ys h free =
    let there : address s xs + p.size ≡ address s (xs ++ p ∷ []) =
      omega (arith, extent-append xs (p ∷ [])) in
    let h' : IsHeap s ((xs ++ p ∷ []) ++ ys) = rw append_assoc h in
    find_prev-IsPiece s _ _ _ _ _ _ _ _ p (IsHeap-header s (xs ++ p ∷ []) ys h')
      (last_mini-append false xs (p ∷ [])) (IsHeap-piece s xs p ys h) free there (omega arith)
      h.small
