-- ===== src/Machine/Memory.antt =====
-- Memory as bytes at addresses, and little-endian words in it: the direct accesses of `mem_read`
-- and `mem_write` in memlib.c.
use dynamic_memory_allocator.Base.{ℕ, zero, suc, ◌+◌, ◌*◌, ◌/◌, ◌%◌, ◌==◌, if◌then◌else◌}

abbrev pub Bytes : Type 0
Bytes = ℕ → ℕ

-- One byte is replaced.
unfoldable pub set_byte : Bytes → ℕ → ℕ → Bytes
set_byte m a v b = if b == a then v else m b

-- `memcpy(&rdata, addr, len)`, zero-extended.
unfoldable pub read : Bytes → ℕ → ℕ → ℕ
read m a zero = 0
read m a (suc n) = m a % 256 + 256 * read m (a + 1) n

-- `memcpy(addr, &val, len)`.
unfoldable pub write : Bytes → ℕ → ℕ → ℕ → Bytes
unfolding set_byte
write m a v zero = m
write m a v (suc n) = set_byte (write m (a + 1) (v / 256) n) a (v % 256)
