-- ===== src/Pricing/Tests.antt =====
-- Orders of a few assets, at the venue's precision.
use native.Mathlib.Nat.{div-le_of_le-mul, mul-le-mul_left}
use epigone.Decimal.Truncating.{mag, cut, truncating, truncating-IsFaithful}
use epigone.Pricing.Size.{IsSized, relative_size-scale_fraction, IsShrinking}
use epigone.Pricing.Price.{IsLegal, IsWithin, cap_price, ioc_limit_price_lem}
use epigone.Prelude.{ℕ, suc, ◌*◌, ◌/◌, ◌^◌, ◌≤◌, ◌≡◌, refl, ◌⊎◌, true, none, some, arith}
use epigone.Prelude.Int.{◌+ℤ◌, ◌-ℤ◌, ◌≤ℤ◌, -ℤ_parts, pos, negsuc}
use epigone.Decimal.{Decimal, whole, hundredths, ◌<ℤ◌}
use epigone.Pricing.{
  quantum, rounded, quantize, round_size, digits, integer_digits, allowed_places, price_places,
  round_price, scale_fraction, relative_size, slippage_bound, ioc_limit_price, round_down, round_up,
}

test_prices :
    (round_price (pos (1234567 * 10 ^ 28)) (pos 2) round_down ≡ some (whole 12345))
    × (round_price (pos (1234567 * 10 ^ 28)) (pos 2) round_up ≡ some (whole 12346))
    × (round_price (pos (123456 * 10 ^ 22)) (pos 0) round_down ≡ some (pos (1234 * 10 ^ 24)))
unfolding round_price quantize rounded price_places allowed_places integer_digits digits ◌-ℤ◌
test_prices = (refl, refl, refl)

test_sizes :
    (round_size (pos (1239 * 10 ^ 27)) (pos 2) ≡ some (pos (123 * 10 ^ 28)))
    × (round_size (pos 7) (pos 2) ≡ none)
unfolding round_size
test_sizes = (refl, refl)

product_le : (a b : ℕ) → b ≤ 10 ^ 30 → a * b ≤ 10 ^ 30 * a
product_le a b h = omega (arith, mul-le-mul_left a h)

cut_le :
    (a : ℕ) (b : Decimal) → b ≤ℤ whole 1 → cut (pos a) b (mag (pos a) * mag b / 10 ^ 30) ≤ℤ pos a
unfolding cut mag
cut_le a (pos b) h =
    omega
      (arith, div-le_of_le-mul (10 ^ 30) {m = a * b} {n = a} (product_le a b (omega (arith, h))))
cut_le a (negsuc b) h = omega (arith, -ℤ_parts (pos 0) (pos (a * suc b / 10 ^ 30)))

mul_le : (a b : Decimal) → pos 0 <ℤ a → b ≤ℤ whole 1 → truncating.mul a b ≤ℤ a
unfolding truncating
mul_le (pos a) b h k = cut_le a b k
mul_le (negsuc a) b h k = absurd (omega (arith, h))

truncating-IsShrinking : IsShrinking truncating
truncating-IsShrinking = record { mul_le = mul_le }

test_trim :
    (scale_fraction truncating (some (pos 40)) (some (pos 30)) ≡ some (hundredths 25))
    × (relative_size truncating (whole 8) (hundredths 25) (pos 3) ≡ some (whole 2))
unfolding scale_fraction relative_size round_size quantize rounded truncating ◌-ℤ◌ cut mag
test_trim = (refl, refl)

relative_size-scale_fraction_example :
    let asked = truncating.mul (whole 8) (truncating.div (pos 10) (pos 40)) in
    (fraction : Decimal) × (scale_fraction truncating (some (pos 40)) (some (pos 30))
      ≡ some fraction)
    × (((asked <ℤ pos (quantum 3)) × (relative_size truncating (whole 8) fraction (pos 3) ≡ none))
        ⊎ ((sold : Decimal) × (relative_size truncating (whole 8) fraction (pos 3) ≡ some sold)
            × IsSized 3 asked sold
            × (sold ≤ℤ whole 8)))
relative_size-scale_fraction_example =
    relative_size-scale_fraction truncating (whole 8) 40 30 3 truncating-IsFaithful
      truncating-IsShrinking (omega arith) (omega arith) (omega arith) (omega arith)

ioc_limit_price_lem_example :
    (pos 0 <ℤ whole 100)
    × IsLegal (pos 2) (whole 101)
    × IsWithin true (cap_price truncating (whole 100) true) (whole 101)
unfolding ioc_limit_price slippage_bound round_price quantize rounded price_places allowed_places
    integer_digits digits ◌-ℤ◌ ◌+ℤ◌ truncating cut mag
ioc_limit_price_lem_example =
    ioc_limit_price_lem truncating (whole 100) true (pos 2) (whole 101) refl
