-- ===== src/Memlib.antt =====
-- memlib.c in its dense mode: the simulated break, and the reads, writes, copies and fills that
-- the driver build substitutes for the C library's.
pub mod Word
pub mod Break
pub mod Copy
use dynamic_memory_allocator.Base.{
  ℕ, zero, suc, ◌+◌, ◌-◌, ◌*◌, ◌%◌, ◌^◌, Bool, not, ◌&&◌, Option, none, some, ltb, leb, ◌==◌,
  if◌then◌else◌, add64, sub64, bit_and, bit_or,
}
use dynamic_memory_allocator.Machine.{
  State, Cmd, done, fault, out_of_rounds, pure, ◌>>=◌, ◌>>◌, get, read, write,
}

-- memlib.h and config.h
abbrev pub max_dense_heap : ℕ
max_dense_heap = 100 * 2 ^ 20

-- `addr & ~(align - 1)`, for an alignment that is a power of two.
unfoldable pub round_address_down : ℕ → ℕ → ℕ
round_address_down addr align = bit_and addr (sub64 (2 ^ 64 - 1) (align - 1))

unfoldable pub round_address_up : ℕ → ℕ → ℕ
round_address_up addr align = bit_and (sub64 (add64 addr align) 1) (sub64 (2 ^ 64 - 1) (align - 1))

-- `addr` is what `mmap` returned; `none` is a call of `exit`.
unfoldable pub mem_init : Option ℕ → State → Option State
unfolding round_address_down
mem_init none s = none
mem_init (some addr) s =
    if not (round_address_down addr s.pagesize == addr)
    then none
    else some (record s {
      heap = addr;
      mem_max_addr = add64 addr max_dense_heap;
      mem_brk = addr;
      mem_brk_chunk = addr;
    })

-- `fresh` is the content of the new mapping that `mmap` puts over the whole heap, `none` its
-- failure, which is a call of `exit`.
unfoldable pub mem_reset_brk : Option (ℕ → ℕ) → State → Option State
mem_reset_brk none s = none
mem_reset_brk (some fresh) s = some (record s {
  bytes = λ a. if leb s.heap a && ltb a (s.heap + max_dense_heap) then fresh a else s.bytes a;
  mem_brk = s.heap;
  mem_brk_chunk = s.heap;
})

-- An `intptr_t` is its 64-bit pattern, negative from 2 ^ 63 on; `none` is `(void *)-1`.
unfoldable pub mem_sbrk : ℕ → Cmd (Option ℕ)
unfolding round_address_up
mem_sbrk incr s =
    let old_brk = s.mem_brk in
    let new_brk = add64 old_brk incr in
    let new_brk_chunk = round_address_up new_brk s.pagesize in
    if leb (2 ^ 63) incr
    then done none s
    else if ltb s.mem_max_addr (add64 s.mem_brk incr)
    then done none s
    else if ltb s.mem_brk_chunk new_brk_chunk
        && not (s.mprotect s.mem_brk_chunk (sub64 new_brk_chunk s.mem_brk_chunk))
    then done none s
    else done (some old_brk) (record s { mem_brk_chunk = new_brk_chunk; mem_brk = new_brk })

unfoldable pub mem_heap_lo : Cmd ℕ
mem_heap_lo = get (λ s. s.heap)

unfoldable pub mem_heap_hi : Cmd ℕ
mem_heap_hi = get (λ s. sub64 s.mem_brk 1)

unfoldable pub mem_heapsize : Cmd ℕ
mem_heapsize = get (λ s. sub64 s.mem_brk s.heap)

-- An access outside the heap is a fault.
abbrev pub in_heap : State → ℕ → ℕ → Bool
in_heap s addr len = leb s.heap addr && leb (addr + len) s.mem_brk

unfoldable pub mem_read : ℕ → ℕ → Cmd ℕ
mem_read addr len s = if in_heap s addr len then done (read s.bytes addr len) s else fault

unfoldable pub mem_write : ℕ → ℕ → ℕ → Cmd (Unit {0})
mem_write addr val len s =
    if in_heap s addr len then done tt (record s { bytes = write s.bytes addr val len }) else fault

-- A word of memory, as `*p` on a pointer to one reads and writes it.
unfoldable pub load : ℕ → Cmd ℕ
unfolding mem_read
load a = mem_read a 8

unfoldable pub store : ℕ → ℕ → Cmd (Unit {0})
unfolding mem_write
store a v = mem_write a v 8

-- The loop of `mem_memcpy` and the last, shorter move.
unfoldable pub memcpy_loop : ℕ → (dst src num_bytes : ℕ) → Cmd (Unit {0})
memcpy_loop zero dst src n = λ _. out_of_rounds
memcpy_loop (suc k) dst src n =
    if leb 8 n
    then (do
      word ← mem_read src 8
      mem_write dst word 8
      memcpy_loop k (add64 dst 8) (add64 src 8) (n - 8))
    else if n == 0
    then pure tt
    else do word ← mem_read src n; mem_write dst word n

unfoldable pub mem_memcpy : (dst src num_bytes : ℕ) → Cmd ℕ
unfolding memcpy_loop mem_read mem_write
mem_memcpy dst src n = do memcpy_loop (suc n) dst src n; pure dst

-- `byte << (8 * i)` for the `n` values of `i` from 0 on, joined by `|`.
unfoldable pub fill_word : ℕ → ℕ → ℕ
fill_word byte zero = 0
fill_word byte (suc n) = bit_or (fill_word byte n) (byte * 2 ^ (8 * n) % 2 ^ 64)

unfoldable pub memset_loop : ℕ → (dst word num_bytes : ℕ) → Cmd (Unit {0})
memset_loop zero dst word n = λ _. out_of_rounds
memset_loop (suc k) dst word n =
    if leb 8 n
    then (do mem_write dst word 8; memset_loop k (add64 dst 8) word (n - 8))
    else if n == 0
    then pure tt
    else mem_write dst word n

unfoldable pub mem_memset : (dst c num_bytes : ℕ) → Cmd ℕ
unfolding memset_loop fill_word mem_write
mem_memset dst c n = do memset_loop (suc n) dst (fill_word (bit_and c 0xff) 8) n; pure dst
