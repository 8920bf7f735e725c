-- ===== src/Heap.antt =====
-- The heap of mm.c as a list of pieces: what the headers, the footers and the flags in memory say.
pub mod Packed
pub mod Fields
pub mod Tiles
pub mod Walk
pub mod Free
pub mod Open
pub mod Used
pub mod Blocks
pub mod Take
pub mod Fill
pub mod Coalesce
pub mod Release
pub mod Pick
pub mod Place
pub mod Extend
pub mod Grow
pub mod Find
pub mod Allocate
pub mod Begin
pub mod Dispose
pub mod Write
pub mod Served
pub mod Room
pub mod Move
pub mod Cleared
pub mod Client
use dynamic_memory_allocator.Base.{
  ℕ, ◌+◌, ◌-◌, ◌%◌, ◌^◌, ◌≤◌, ◌<◌, ◌≡◌, ◌≢◌, ◌⊎◌, Bool, true, false, List, [], ◌∷◌, ◌==◌,
}
use dynamic_memory_allocator.Machine.{State, Bytes}
use dynamic_memory_allocator.Memlib.Word.{word}
use dynamic_memory_allocator.Block.{min_block_size, pack_all}

-- A block without its contents.
pub record Piece : Type 0 where
  pub size : ℕ
  pub alloc : Bool

-- Header and footer of the block at `a`, whose predecessor has the flags `pa` and `pm`.
pub record IsPiece (m : Bytes) (a : ℕ) (pa pm : Bool) (p : Piece) : Type 0 where
  pub header : word m a ≡ pack_all p.size p.alloc pa pm
  pub footer :
      p.alloc ≡ false
      → p.size ≢ min_block_size
      → word m (a + p.size - 8) ≡ pack_all p.size p.alloc pa pm
  pub aligned : p.size % 16 ≡ 0
  pub least : min_block_size ≤ p.size

-- From `a` to `e`, memory holds exactly these blocks, with the right flags on their predecessors.
abbrev pub Tiles : Bytes → (a : ℕ) (pa pm : Bool) → List Piece → (e : ℕ) → Type 0
Tiles m a pa pm [] e = a ≡ e
Tiles m a pa pm (p ∷ ps) e =
    IsPiece m a pa pm p × Tiles m (a + p.size) p.alloc (p.size == min_block_size) ps e

-- The flags that the last of the pieces, or what stands before them, leaves to its successor.
abbrev pub last_alloc : Bool → List Piece → Bool
last_alloc pa [] = pa
last_alloc pa (p ∷ ps) = last_alloc p.alloc ps

abbrev pub last_mini : Bool → List Piece → Bool
last_mini pm [] = pm
last_mini pm (p ∷ ps) = last_mini (p.size == min_block_size) ps

-- No two free pieces stand next to each other, nor a free one behind a free predecessor.
abbrev pub Coalesced : Bool → List Piece → Type 0
Coalesced pa [] = Unit
Coalesced pa (p ∷ ps) = ((pa ≡ true) ⊎ (p.alloc ≡ true)) × Coalesced p.alloc ps

-- The whole heap: prologue, pieces, epilogue.
pub record IsHeap (s : State) (ps : List Piece) : Type 0 where
  pub some_heap : 0 < s.heap
  pub small : s.mem_brk < 2 ^ 64
  pub room : s.heap + 16 ≤ s.mem_brk
  pub aligned : s.heap % 16 ≡ 0
  pub start : s.heap_start ≡ s.heap + 8
  pub prologue : word s.bytes s.heap ≡ pack_all 0 true false false
  pub tiles : Tiles s.bytes (s.heap + 8) true false ps (s.mem_brk - 8)
  pub epilogue :
      word s.bytes (s.mem_brk - 8) ≡ pack_all 0 true (last_alloc true ps) (last_mini false ps)
