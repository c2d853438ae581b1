-- ===== src/Decimal.antt =====
-- Python's Decimal, and the datetimes beside it. An amount is an integer number of quanta of
-- 10^-30: the venue's figures have a few decimals, and a quotient of at least 0.01 that keeps 28
-- digits ends by the thirtieth. Sums, differences and comparisons are those of the integers; what
-- the 28-digit context rounds, a product or a quotient, is a parameter.
pub mod Truncating
use epigone.Prelude.{ℕ, suc, ◌+◌, ◌*◌, ◌^◌, ◌≤◌, ◌<◌, Bool, List, [], ◌∷◌, leb, if◌then◌else◌}
use epigone.Prelude.Int.{pos_part, neg_part, ◌+ℤ◌, ◌≤ℤ◌, ltb_ℤ, ℤ, pos, negsuc}

abbrev pub Decimal : Type 0
Decimal = ℤ

-- Microseconds since the epoch; `timedelta`s count microseconds too.
abbrev pub Time : Type 0
Time = ℕ

abbrev pub seconds : ℕ → ℕ
seconds n = n * 1000000

-- n dollars, or n hundredths of one.
abbrev pub whole : ℕ → Decimal
whole n = pos (n * 10 ^ 30)

abbrev pub hundredths : ℕ → Decimal
hundredths n = pos (n * 10 ^ 28)

abbrev pub leb_ℤ : ℤ → ℤ → Bool
leb_ℤ a b = leb (pos_part a + neg_part b) (pos_part b + neg_part a)

infix 50 ◌<ℤ◌
abbrev pub ◌<ℤ◌ : ℤ → ℤ → Type 0
a <ℤ b = pos_part a + neg_part b < pos_part b + neg_part a

abbrev pub min_ℤ : ℤ → ℤ → ℤ
min_ℤ a b = if ltb_ℤ b a then b else a

abbrev pub max_ℤ : ℤ → ℤ → ℤ
max_ℤ a b = if ltb_ℤ a b then b else a

abbrev pub abs : ℤ → ℤ
abs (pos n) = pos n
abs (negsuc n) = pos (suc n)

-- `sum(values, Decimal(0))`
abbrev pub sum_ℤ : List ℤ → ℤ
sum_ℤ [] = pos 0
sum_ℤ (x ∷ xs) = x +ℤ sum_ℤ xs

-- The two operations that the decimal context rounds. A quotient by zero raises in Python: no
-- theorem reads one.
pub record Rounding : Type 0 where
  pub mul : Decimal → Decimal → Decimal
  pub div : Decimal → Decimal → Decimal

-- What is relied on: rounding is monotone and keeps what 28 digits can write, so a quotient or a
-- product meets a bound of whole hundredths, up to one, when the exact value does.
pub record IsFaithful (r : Rounding) : Type 0 where
  pub div_lower :
      (a b : ℕ) (c : ℕ) → 0 < b → c ≤ 100 → c * b ≤ 100 * a → hundredths c ≤ℤ r.div (pos a) (pos b)
  pub div_upper :
      (a b : ℕ) (c : ℕ) → 0 < b → c ≤ 100 → 100 * a ≤ c * b → r.div (pos a) (pos b) ≤ℤ hundredths c
