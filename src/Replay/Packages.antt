-- ===== src/Replay/Packages.antt =====
-- The two allocators that the driver can be linked with, and the heap that it starts them on.
use dynamic_memory_allocator.Base.{
  ℕ, ◌%◌, ◌^◌, ◌≤◌, ◌<◌, ◌≡◌, ◌⊎◌, refl, false, true, some, [], arith, inl, inr,
}
use dynamic_memory_allocator.Machine.{State, Cmd}
use dynamic_memory_allocator.Machine.Ends.{Ends, Ends-mono}
use dynamic_memory_allocator.Memlib.{mem_reset_brk}
use dynamic_memory_allocator.FreeList.{seg_length}
use dynamic_memory_allocator.Allocator.{mm_init, malloc, free, realloc}
use dynamic_memory_allocator.Check.{mm_checkheap}
use dynamic_memory_allocator.Naive
use dynamic_memory_allocator.Heap.Begin.{IsFresh, mm_init-IsBegun}
use dynamic_memory_allocator.Heap.Served.{IsServed}
use dynamic_memory_allocator.Replay.{Package, from_empty_heap}

-- mm.c
abbrev pub mm : Package
mm = record {
  mm_init = mm_init;
  mm_malloc = malloc;
  mm_free = free;
  mm_realloc = realloc;
  mm_checkheap = λ line. mm_checkheap;
}

-- mm-naive.c
abbrev pub mm_naive : Package
mm_naive = record {
  mm_init = Naive.mm_init;
  mm_malloc = Naive.malloc;
  mm_free = Naive.free;
  mm_realloc = Naive.realloc;
  mm_checkheap = Naive.mm_checkheap;
}

-- A heap that `mem_init` has mapped, at a multiple of 16; the function that stands for the array
-- of lists is null behind it.
pub record IsMapped (s : State) : Type 0 where
  pub some_heap : 0 < s.heap
  pub aligned : s.heap % 16 ≡ 0
  pub ordered : s.heap ≤ s.mem_max_addr
  pub small : s.mem_max_addr < 2 ^ 63
  pub beyond : (c : ℕ) → seg_length ≤ c → s.seg_list c ≡ 0

-- What a run that starts with `mem_reset_brk` and `mm_init` comes to.
pub from_empty_heap-IsServed :
    {A : Type 0} {P : A → State → Type 0}
    → (content : ℕ → ℕ) (exit : A) (run : Cmd A) (s : State) → IsMapped s
    → ((t : State) → IsFresh t → Ends P (run t))
    → Ends P (from_empty_heap (some content) exit run s)
unfolding mem_reset_brk
from_empty_heap-IsServed content exit run s h rest =
    let ordered = h.ordered in
    rest _ (record {
      some_heap = h.some_heap;
      empty = refl;
      aligned = h.aligned;
      limits = record { ordered = omega arith; bounded = ordered; small = h.small };
      beyond = h.beyond;
    })

-- `mm_init` fails, or no request is served yet.
pub mm_init-IsServed :
    (s : State) → IsFresh s → Ends (λ b t. (b ≡ false) ⊎ ((b ≡ true) × IsServed t [])) (mm_init s)
mm_init-IsServed s fresh = Ends-mono (mm_init-IsBegun s fresh) λ b t begun. elim begun [
  | inl failed ↦ inl failed
  | inr (ready, base, chunk) ↦ inr (
    ready,
    record { ps = chunk.ps; sound = chunk.sound; held = tt; distinct = tt; only = chunk.unused },
  )
]
