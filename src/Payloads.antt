-- ===== src/Payloads.antt =====
-- mdriver.c, the random data with which the driver fills payloads and checks them. The callers access
-- the arrays of the trace at the same index, which is a fault outside them.
pub mod Garbled
use dynamic_memory_allocator.Base.{
  ℕ, zero, suc, ◌+◌, ◌%◌, ◌^◌, Bool, true, false, ◌==◌, ltb, if◌then◌else◌, add64,
}
use dynamic_memory_allocator.Machine.{Cmd, pure, ◌>>=◌, ◌>>◌}
use dynamic_memory_allocator.Memlib.{mem_read, mem_write}
use dynamic_memory_allocator.Traces.{Trace}
use dynamic_memory_allocator.Ranges.{DebugMode, dbg_none}

-- RANDOM_DATA_LEN and MAXFILL
abbrev pub random_data_len : ℕ
random_data_len = 2 ^ 16

abbrev pub maxfill : ℕ
maxfill = 2048

-- How many bytes of a payload are filled and checked; `randint_t` is a byte.
unfoldable pub fill_size : ℕ → ℕ
fill_size size = if ltb maxfill size then maxfill else size

-- `random_data[(base + i) % RANDOM_DATA_LEN]`
unfoldable pub random_byte : (ℕ → ℕ) → (base i : ℕ) → ℕ
random_byte random_data base i = random_data (add64 base i % random_data_len)

-- The `for` from `i` on, with `k` bytes left.
unfoldable pub fill_loop : (ℕ → ℕ) → ℕ → (block base i : ℕ) → Cmd (Unit {0})
unfolding random_byte
fill_loop random_data zero block base i = pure tt
fill_loop random_data (suc k) block base i = do
  mem_write (add64 block i) (random_byte random_data base i) 1
  fill_loop random_data k block base (i + 1)

abbrev pub set_base : Trace → (index base : ℕ) → Trace
set_base trace index base = record trace {
  block_rand_base = λ i. if i == index then base else trace.block_rand_base i;
}

-- `base` is what `random()` gives.
unfoldable pub randomize_block : DebugMode → (ℕ → ℕ) → Trace → (index base : ℕ) → Cmd Trace
unfolding fill_size fill_loop
randomize_block dbg_none random_data trace index base = pure trace
randomize_block _ random_data trace index base = do
  fill_loop random_data (fill_size (trace.block_sizes index)) (trace.blocks index) base 0
  pure (set_base trace index base)

-- The number of garbled bytes from `i` on, with `k` bytes left.
unfoldable pub count_garbled : (ℕ → ℕ) → ℕ → (block base i : ℕ) → Cmd ℕ
unfolding random_byte
count_garbled random_data zero block base i = pure 0
count_garbled random_data (suc k) block base i = do
  b ← mem_read (add64 block i) 1
  n ← count_garbled random_data k block base (i + 1)
  pure (if b == random_byte random_data base i then n else suc n)

-- `index` is an unsigned int, where -1 stands for `free(NULL)`.
unfoldable pub check_index : DebugMode → (ℕ → ℕ) → Trace → ℕ → Cmd Bool
unfolding fill_size count_garbled
check_index mode random_data trace index = if index == 0xffffffff then pure true else elim mode [
  | dbg_none ↦ pure true
  | _ ↦ do
    n ←
        count_garbled random_data (fill_size (trace.block_sizes index)) (trace.blocks index)
          (trace.block_rand_base index) 0
    pure (n == 0)
]
