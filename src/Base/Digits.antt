-- ===== src/Base/Digits.antt =====
-- Remainders digit by digit.
use Prim.Native.Nat.{ℕ, ◌+◌, ◌*◌, ◌/◌, ◌%◌, ◌<◌}
use mathlib.Core.Path.{◌≡◌, sym, ap, ◌∙◌}
use native.Mathlib.Nat.{div-add-mod, add-mul-mod_self_left, mod-eq_of_lt, mod-lt}
use native.Mathlib.Omega.{arith}

below_product : (d q r p : ℕ) → r < d → q < p → r + d * q < p * d
below_product d q r p h k = grind arith

-- A number modulo a product of bases: its lowest digit, and what is above it.
pub mod_digits : (d v p : ℕ) → 0 < d → 0 < p → v % d + d * (v / d % p) ≡ v % (p * d)
mod_digits d v p dpos ppos =
    let q = v / d in
    let low = v % d + d * (q % p) in
    let fits : low < p * d = below_product d (q % p) (v % d) p (mod-lt v dpos) (mod-lt q ppos) in
    let whole : v ≡ low + p * d * (q / p) =
      omega (arith, div-add-mod v d, ap (λ (t : ℕ). d * t) (div-add-mod q p)) in
    sym (
      ap (λ (t : ℕ). t % (p * d)) whole
      ∙ add-mul-mod_self_left low (p * d) (q / p)
      ∙ mod-eq_of_lt fits)
