-- ===== src/Base/Bits.antt =====
-- `&` and `|` with the masks of the program, as arithmetic.
use Prim.Native.Nat.{min, max, digits, bitwise, bit_and-bitwise, bit_or-bitwise}
use native.Mathlib.Nat.{le_refl, pow-suc, one-le-pow}
use dynamic_memory_allocator.Base.{
  ℕ, zero, suc, ◌+◌, ◌-◌, ◌*◌, ◌/◌, ◌%◌, ◌^◌, ◌≤◌, ◌<◌, ◌≡◌, refl, arith, bit_and, bit_or,
  mod_digits,
}

-- The native operations mean a recursion on binary digits with fuel; here the fuel is dropped.
module _ (z : ℕ → ℕ) (f : ℕ → ℕ → ℕ) where
  digits_enough : (n m a b : ℕ) → a ≤ n → a ≤ m → digits z f n a b ≡ digits z f m a b
  digits_enough zero zero a b p q = refl
  digits_enough zero (suc m) zero b p q = refl
  digits_enough zero (suc m) (suc a) b p q = absurd (omega arith)
  digits_enough (suc n) zero zero b p q = refl
  digits_enough (suc n) zero (suc a) b p q = absurd (omega arith)
  digits_enough (suc n) (suc m) zero b p q = refl
  digits_enough (suc n) (suc m) (suc a) b p q =
      rw (digits_enough n m (suc a / 2) (b / 2) (omega arith) (omega arith))

  bitwise-step :
      (a b : ℕ)
      → bitwise z f (suc a) b ≡ bitwise z f (suc a / 2) (b / 2) * 2 + f (suc a % 2) (b % 2)
  bitwise-step a b =
      omega (arith, digits_enough a (suc a / 2) (suc a / 2) (b / 2) (omega arith) (le_refl _))

-- One digit of each operation.
pub bit_or-digit : (a b : ℕ) → bit_or a b ≡ bit_or (a / 2) (b / 2) * 2 + max (a % 2) (b % 2)
bit_or-digit zero b = simp bit_or-bitwise (omega arith)
bit_or-digit (suc a) b = simp bit_or-bitwise (bitwise-step (λ y. y) max a b)

pub bit_and-digit : (a b : ℕ) → bit_and a b ≡ bit_and (a / 2) (b / 2) * 2 + min (a % 2) (b % 2)
bit_and-digit zero b = simp bit_and-bitwise (omega arith)
bit_and-digit (suc a) b = simp bit_and-bitwise (bitwise-step (λ y. 0) min a b)

bit_and-zero_bounded : (n a : ℕ) → a ≤ n → bit_and a 0 ≡ 0
bit_and-zero_bounded n zero h = refl
bit_and-zero_bounded zero (suc a) h = absurd (omega arith)
bit_and-zero_bounded (suc n) (suc a) h =
    omega (arith, bit_and-digit (suc a) 0, bit_and-zero_bounded n (suc a / 2) (omega arith))

pub bit_and-zero : (a : ℕ) → bit_and a 0 ≡ 0
bit_and-zero a = bit_and-zero_bounded a a (le_refl a)

bit_or-zero_bounded : (n a : ℕ) → a ≤ n → bit_or a 0 ≡ a
bit_or-zero_bounded n zero h = refl
bit_or-zero_bounded zero (suc a) h = absurd (omega arith)
bit_or-zero_bounded (suc n) (suc a) h =
    omega (arith, bit_or-digit (suc a) 0, bit_or-zero_bounded n (suc a / 2) (omega arith))

pub bit_or-zero : (a : ℕ) → bit_or a 0 ≡ a
bit_or-zero a = bit_or-zero_bounded a a (le_refl a)

-- The single bits that a header uses.
pub bit_and-one : (a : ℕ) → bit_and a 1 ≡ a % 2
bit_and-one a = omega (arith, bit_and-digit a 1, bit_and-zero (a / 2))

pub bit_and-two : (a : ℕ) → bit_and a 2 ≡ a / 2 % 2 * 2
bit_and-two a = omega (arith, bit_and-digit a 2, bit_and-one (a / 2))

pub bit_and-four : (a : ℕ) → bit_and a 4 ≡ a / 4 % 2 * 4
bit_and-four a = omega (arith, bit_and-digit a 4, bit_and-two (a / 2))

pub bit_or-one : (a : ℕ) → bit_or a 1 ≡ a / 2 * 2 + 1
bit_or-one a = omega (arith, bit_or-digit a 1, bit_or-zero (a / 2))

pub bit_or-two : (a : ℕ) → bit_or a 2 ≡ a / 4 * 4 + 2 + a % 2
bit_or-two a = omega (arith, bit_or-digit a 2, bit_or-one (a / 2))

pub bit_or-four : (a : ℕ) → bit_or a 4 ≡ a / 8 * 8 + 4 + a % 4
bit_or-four a = omega (arith, bit_or-digit a 4, bit_or-two (a / 2))

half_mask : (p : ℕ) → 0 < p → ((p * 2 - 1) / 2 ≡ p - 1) × ((p * 2 - 1) % 2 ≡ 1)
half_mask p pos = omega arith

-- A mask of `k` ones.
pub bit_and_mask : (k a : ℕ) → bit_and a (2 ^ k - 1) ≡ a % 2 ^ k
bit_and_mask zero a = omega (arith, bit_and-zero a)
bit_and_mask (suc k) a =
    let pos : 0 < 2 ^ k = one-le-pow k 2 (omega arith) in
    rw
      (pow-suc, bit_and-digit, (half_mask (2 ^ k) pos).0, (half_mask (2 ^ k) pos).1, bit_and_mask k)
      (omega (arith, mod_digits 2 a (2 ^ k) (omega arith) pos))

-- The mask that clears the four lowest bits of a 64-bit word.
pub bit_and-size_mask : (a : ℕ) → a < 2 ^ 64 → bit_and a (2 ^ 64 - 1 - 0xf) ≡ a / 16 * 16
bit_and-size_mask a h = omega (
  arith,
  bit_and-digit a (2 ^ 64 - 1 - 0xf),
  bit_and-digit (a / 2) (2 ^ 63 - 8),
  bit_and-digit (a / 2 / 2) (2 ^ 62 - 4),
  bit_and-digit (a / 2 / 2 / 2) (2 ^ 61 - 2),
  bit_and_mask 60 (a / 2 / 2 / 2 / 2),
)
