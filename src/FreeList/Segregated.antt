-- ===== src/FreeList/Segregated.antt =====
-- When a class of the segregated list is in order, and what an operation on it leaves alone.
use dynamic_memory_allocator.Base.{ℕ, ◌+◌, ◌^◌, ◌≤◌, ◌<◌, ◌≡◌, List, All}
use dynamic_memory_allocator.Machine.{State, Bytes}
use dynamic_memory_allocator.Machine.ReadWrite.{Apart}
use dynamic_memory_allocator.Memlib.Word.{word}
use dynamic_memory_allocator.Block.{next_offset, extract_size}
use dynamic_memory_allocator.FreeList.{find_class}
use dynamic_memory_allocator.FreeList.Chain.{Chain, Back, Spread}

-- The heap lies above address 0 and below 2 ^ 64.
abbrev pub IsArena : State → Type 0
IsArena s = (0 < s.heap) × (s.mem_brk < 2 ^ 64)

-- The header and the links of a block lie in the heap.
abbrev pub Inside : State → ℕ → Type 0
Inside s a = (s.heap ≤ a) × (a + 24 ≤ s.mem_brk)

-- The class of the block at `a`, by its header.
abbrev pub class_at : State → ℕ → ℕ
class_at s a = find_class (extract_size (word s.bytes a))

-- From `p` on, the doubly linked list of exactly these blocks.
pub record IsFreeList (s : State) (p : ℕ) (xs : List ℕ) : Type 0 where
  pub chain : Chain next_offset s.bytes p xs
  pub back : Back s.bytes xs
  pub spread : Spread xs
  pub inside : All (Inside s) xs

-- The word at `x` is no link of these blocks.
abbrev pub OffLinks : ℕ → List ℕ → Type 0
OffLinks x = All (λ a. Apart x 8 (a + 8) 16)

-- Memory differs in the links of these blocks only.
abbrev pub SameOffLinks : Bytes → Bytes → List ℕ → Type 0
SameOffLinks m m' xs = (x : ℕ) → OffLinks x xs → word m' x ≡ word m x

-- The same for mini blocks, which have one link.
abbrev pub OffMiniLinks : ℕ → List ℕ → Type 0
OffMiniLinks x = All (λ a. Apart x 8 (a + 8) 8)

abbrev pub SameOffMiniLinks : Bytes → Bytes → List ℕ → Type 0
SameOffMiniLinks m m' xs = (x : ℕ) → OffMiniLinks x xs → word m' x ≡ word m x
