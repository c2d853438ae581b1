-- ===== src/Decimal/Truncating.antt =====
-- Exact products and quotients that are cut off after the last quantum keep what is asked of the
-- decimal context's rounding, so what is asked can hold.
use epigone.Prelude.{ℕ, suc, ◌*◌, ◌/◌, ◌^◌, ◌≤◌, ◌<◌, arith}
use epigone.Prelude.Int.{◌-ℤ◌, ℤ, pos, negsuc}
use epigone.Decimal.{Rounding, IsFaithful}
use native.Mathlib.Nat.{le-div_iff_mul-le, div-le_of_le-mul}

unfoldable pub mag : ℤ → ℕ
mag (pos n) = n
mag (negsuc n) = suc n

unfoldable pub cut : ℤ → ℤ → ℕ → ℤ
cut (pos a) (pos b) q = pos q
cut (negsuc a) (negsuc b) q = pos q
cut (pos a) (negsuc b) q = pos 0 -ℤ pos q
cut (negsuc a) (pos b) q = pos 0 -ℤ pos q

unfoldable pub truncating : Rounding
unfolding cut mag
truncating = record {
  mul = λ a b. cut a b (mag a * mag b / 10 ^ 30);
  div = λ a b. cut a b (mag a * 10 ^ 30 / mag b);
}

lower : (a b c : ℕ) → 0 < b → c * b ≤ 100 * a → c * 10 ^ 28 ≤ a * 10 ^ 30 / b
lower a b c h k = (le-div_iff_mul-le h).1 (omega (arith, k))

upper : (a b c : ℕ) → 0 < b → 100 * a ≤ c * b → a * 10 ^ 30 / b ≤ c * 10 ^ 28
upper a b c h k = div-le_of_le-mul b (omega (arith, k))

pub truncating-IsFaithful : IsFaithful truncating
unfolding truncating
truncating-IsFaithful = record {
  div_lower = λ a b c h l k. omega (arith, lower a b c h k);
  div_upper = λ a b c h l k. omega (arith, upper a b c h k);
}
