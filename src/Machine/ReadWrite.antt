-- ===== src/Machine/ReadWrite.antt =====
-- A read after a write.
use dynamic_memory_allocator.Base.{
  ℕ, zero, suc, ◌+◌, ◌*◌, ◌/◌, ◌%◌, ◌^◌, ◌≤◌, ◌<◌, ◌≡◌, ◌⊎◌, refl, arith, mod_digits,
}
use native.Mathlib.Nat.{pow-suc, one-le-pow}
use dynamic_memory_allocator.Machine.Memory.{Bytes, set_byte, read, write}

-- Two ranges of addresses that share none.
abbrev pub Apart : (a n b k : ℕ) → Type 0
Apart a n b k = (a + n ≤ b) ⊎ (b + k ≤ a)

pub read-set_byte-Apart :
    (m : Bytes) (a v b k : ℕ) → Apart a 1 b k → read (set_byte m a v) b k ≡ read m b k
unfolding read set_byte
read-set_byte-Apart m a v b zero h = refl
read-set_byte-Apart m a v b (suc k) h = ground (arith, read-set_byte-Apart m a v (b + 1) k)

pub write_outside : (m : Bytes) (a v n b : ℕ) → Apart a n b 1 → write m a v n b ≡ m b
unfolding write set_byte
write_outside m a v zero b h = refl
write_outside m a v (suc n) b h = ground (arith, write_outside m (a + 1) (v / 256) n b)

-- A read elsewhere does not see the write.
pub read-write-Apart :
    (m : Bytes) (a v n b k : ℕ) → Apart a n b k → read (write m a v n) b k ≡ read m b k
unfolding write
read-write-Apart m a v zero b k h = refl
read-write-Apart m a v (suc n) b k h = ground (
  arith,
  read-set_byte-Apart (write m (a + 1) (v / 256) n) a (v % 256) b k,
  read-write-Apart m (a + 1) (v / 256) n b k,
)

pub read-lt : (m : Bytes) (a n : ℕ) → read m a n < 256 ^ n
unfolding read
read-lt m a zero = omega arith
read-lt m a (suc n) = omega (arith, pow-suc 256 n, read-lt m (a + 1) n)

mod_digit : (v n : ℕ) → v % 256 + 256 * ((v / 256) % 256 ^ n) ≡ v % 256 ^ suc n
mod_digit v n =
    rw pow-suc (mod_digits 256 v (256 ^ n) (omega arith) (one-le-pow n 256 (omega arith)))

set_byte_self : (m : Bytes) (a v : ℕ) → set_byte m a v a ≡ v
unfolding set_byte
set_byte_self m a v = ground arith

-- A read of the same range gives the value back, cut to the width.
pub read-write_self : (m : Bytes) (a v n : ℕ) → read (write m a v n) a n ≡ v % 256 ^ n
unfolding read write
read-write_self m a v zero = omega arith
read-write_self m a v (suc n) =
    rw
      (
        set_byte_self,
        read-set_byte-Apart (write m (a + 1) (v / 256) n) a (v % 256) (a + 1) n (omega arith),
        read-write_self m (a + 1) (v / 256) n,
      )
      (omega (arith, mod_digit v n))

-- A read of `k + n` bytes, as one of `k` and one of `n`.
pub read-add : (m : Bytes) (a k n : ℕ) → read m a (k + n) ≡ read m a k + 256 ^ k * read m (a + k) n
unfolding read
read-add m a zero n =
    let len : 0 + n ≡ n = omega arith in
    let at_a : a + 0 ≡ a = omega arith in rw (len, at_a) (omega arith)
read-add m a (suc k) n =
    let len : suc k + n ≡ suc (k + n) = omega arith in
    let at_k : a + suc k ≡ a + 1 + k = omega arith in
    rw (len, at_k, pow-suc, read-add m (a + 1) k n) (omega arith)
