-- ===== src/Heap/Coalesce.antt =====
-- A free block that is in no list yet, and what it is joined to with its free neighbours.
pub mod Mark
pub mod Neighbours
pub mod Whole
use mathlib.Core.Path.{subst}
use mathlib.Core.List.{append-nil}
use dynamic_memory_allocator.Base.{
  ℕ, zero, suc, ◌+◌, ◌-◌, ◌%◌, ◌^◌, ◌≤◌, ◌<◌, ◌≡◌, ◌≢◌, ◌⊎◌, ◌∙◌, refl, sym, ap, Bool, true, false,
  List, [], ◌∷◌, ◌++◌, arith, ◌==◌, ==_ne, inl, inr, add64, snoc-cases, Bool-cases, not, ◌&&◌,
  if◌then◌else◌,
}
use dynamic_memory_allocator.Machine.{State, done, pure, ◌>>◌}
use dynamic_memory_allocator.Machine.Ends.{Ends, ends, Ends-mono, Ends-continue}
use dynamic_memory_allocator.Memlib.Word.{word}
use dynamic_memory_allocator.Block.{
  null, min_block_size, pack_all, find_next, find_prev, write_pack,
}
use dynamic_memory_allocator.FreeList.{insert_free}
use dynamic_memory_allocator.Allocator.{
  coalesce_neither, coalesce_prev, mark_after, coalesce_next, coalesce_both, coalesce_block,
}
use dynamic_memory_allocator.Heap.{Piece, IsPiece, Tiles, last_alloc, last_mini, Coalesced}
use dynamic_memory_allocator.Heap.Fields.{
  HasHeader, get_size-HasHeader, get_alloc-HasHeader, get_prev_alloc-HasHeader,
  get_prev_mini-HasHeader, is_mini_block-HasHeader, find_next-HasHeader,
}
use dynamic_memory_allocator.Heap.Tiles.{extent, Tiles-end, Tiles-split, IsPiece-same}
use dynamic_memory_allocator.Heap.Walk.{
  head_size, head_alloc, last_alloc-append, last_mini-append, find_prev-IsPiece,
}
use dynamic_memory_allocator.Heap.Used.{IsKept, IsKept-trans, IsKept-before, IsKept-behind}
use dynamic_memory_allocator.Heap.Open.{
  IsOpen, IsOpen-IsBounded, IsBounded, IsOpen-next, IsReady, IsOff-gap, Coalesced-last,
  Coalesced-head,
}
use dynamic_memory_allocator.Heap.Take.{IsWidened, remove_free-before, remove_free-behind}
use dynamic_memory_allocator.Heap.Fill.{
  IsFlanked, filler, IsFilled, write_pack-IsFilled, IsMarked, write_pack-IsMarked, IsUnlisted,
  insert_free-IsReady,
}

-- A free neighbour of `n` bytes, or none.
abbrev pub spare : ℕ → List Piece
spare n = if n == 0 then [] else record { size = n; alloc = false } ∷ []

-- The pieces `xs`, a free block from `a` to `e` and the pieces `ys`, joined to a heap in order; `r`
-- is the address of the joined block. The payloads in use hold what they held.
pub record IsCoalesced (s : State) (xs : List Piece) (a e : ℕ) (ys : List Piece) (r : ℕ) (t : State)
    : Type 0 where
  pub ws : List Piece
  pub before : ℕ
  pub behind : ℕ
  pub zs : List Piece
  pub left : xs ≡ ws ++ spare before
  pub right : ys ≡ spare behind ++ zs
  pub ready : IsReady t (ws ++ record { size = before + (e - a) + behind; alloc = false } ∷ zs)
  pub result : r ≡ s.heap + 8 + extent ws
  pub kept : IsKept s xs e ys t

-- Coalescing after a step that kept the payloads.
pub IsCoalesced-since :
    (s t u : State) (xs : List Piece) (a e : ℕ) (ys : List Piece) (r : ℕ)
    → IsKept s xs e ys t
    → IsCoalesced t xs a e ys r u
    → IsCoalesced s xs a e ys r u
IsCoalesced-since s t u xs a e ys r kept is = record {
  ws = is.ws;
  before = is.before;
  behind = is.behind;
  zs = is.zs;
  left = is.left;
  right = is.right;
  ready = is.ready;
  result = is.result ∙ ap (λ b. b + 8 + extent is.ws) kept.base;
  kept = IsKept-trans s t u xs e ys kept is.kept;
}

-- A piece gives its header.
pub IsPiece-HasHeader :
    (s : State) (a : ℕ) (pa pm : Bool) (p : Piece)
    → s.heap ≤ a
    → a + p.size ≤ s.mem_brk
    → s.mem_brk < 2 ^ 64
    → IsPiece s.bytes a pa pm p
    → HasHeader s a p.size p.alloc pa pm
IsPiece-HasHeader s a pa pm p lower upper small h =
    let least = h.least in
    let aligned = h.aligned in
    record { inside = omega arith; fits = omega arith; header = h.header }

-- A free block in the gap, which shows the right flags, while its successor need not.
pub record IsFreed (s : State) (xs : List Piece) (a e : ℕ) (pa pm : Bool) (ys : List Piece)
    : Type 0 where
  pub opened : IsOpen s xs a e pa pm ys
  pub piece : IsPiece s.bytes a (last_alloc true xs) (last_mini false xs) (filler a e)
