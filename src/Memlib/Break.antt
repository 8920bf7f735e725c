-- ===== src/Memlib/Break.antt =====
-- `mem_sbrk`: when the break moves, and what it leaves alone.
use dynamic_memory_allocator.Base.{ℕ, ◌+◌, ◌^◌, ◌≤◌, ◌<◌, ◌≡◌, none, arith}
use dynamic_memory_allocator.Machine.{State, done}
use dynamic_memory_allocator.Memlib.{mem_sbrk, round_address_up}

-- The chunk boundary that the break is to reach.
abbrev pub new_chunk : State → ℕ → ℕ
new_chunk s incr = round_address_up (s.mem_brk + incr) s.pagesize

-- The break, its chunk and the limit, as the memory system keeps them.
pub record IsBreak (s : State) : Type 0 where
  pub ordered : s.heap ≤ s.mem_brk
  pub bounded : s.mem_brk ≤ s.mem_max_addr
  pub small : s.mem_max_addr < 2 ^ 63

-- A request of a negative `intptr_t`, or beyond the limit, fails and changes nothing.
pub mem_sbrk-fails :
    (s : State) (incr : ℕ)
    → IsBreak s
    → incr < 2 ^ 64
    → s.mem_max_addr < s.mem_brk + incr
    → mem_sbrk incr s ≡ done none s
unfolding mem_sbrk
mem_sbrk-fails s incr b word beyond = ground arith
