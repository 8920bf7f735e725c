-- ===== src/Block/Sizes.antt =====
-- Rounding a request up to a block size.
use native.Mathlib.Nat.{mod-eq_of_lt, div-add-mod, mod-lt, mul-mod_right}
use dynamic_memory_allocator.Base.{ℕ, ◌+◌, ◌-◌, ◌*◌, ◌/◌, ◌%◌, ◌^◌, ◌≤◌, ◌<◌, ◌≡◌, arith}
use dynamic_memory_allocator.Block.{round_up, max, dsize}

round_up-exact :
    (size n : ℕ) → 0 < n → size + (n - 1) < 2 ^ 64 → round_up size n ≡ n * ((size + (n - 1)) / n)
unfolding round_up
round_up-exact size n pos fits =
    let one_less : (n + 2 ^ 64 - 1) % 2 ^ 64 ≡ n - 1 = omega arith in
    let sum : (size + (n - 1)) % 2 ^ 64 ≡ size + (n - 1) = omega arith in
    rw (one_less, sum) (mod-eq_of_lt (omega (arith, div-add-mod (size + (n - 1)) n)))

-- Where nothing wraps around, the result is the least multiple of `n` that is no smaller.
pub round_up_lem :
    (size n : ℕ)
    → 0 < n
    → size + (n - 1) < 2 ^ 64
    → (round_up size n % n ≡ 0) × (size ≤ round_up size n) × (round_up size n < size + n)
unfolding round_up
round_up_lem size n pos fits =
    let total = size + (n - 1) in
    rw (round_up-exact size n pos fits) (
      mul-mod_right n (total / n),
      omega (arith, div-add-mod total n, mod-lt total pos),
      omega (arith, div-add-mod total n),
    )

-- At the alignment, on every word: the result is a block size below 2 ^ 64, also where the
-- addition wraps around.
pub round_up-dsize :
    (size : ℕ) → size < 2 ^ 64 → round_up size dsize ≡ (size + 15) % 2 ^ 64 / 16 * 16
unfolding round_up
round_up-dsize size h = omega arith

pub max-ge : (x y : ℕ) → (x ≤ max x y) × (y ≤ max x y)
unfolding max
max-ge x y = ground arith
