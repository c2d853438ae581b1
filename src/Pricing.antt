-- ===== src/Pricing.antt =====
-- src/epigone/execute/pricing.py: sizes and prices that the venue accepts. `none` is the
-- UnpriceableError. A figure of more than the context's 28 digits, at which `quantize` raises, is
-- not met.
use epigone.Prelude.{
  ℕ, zero, suc, ◌+◌, ◌-◌, ◌*◌, ◌/◌, ◌^◌, min, Bool, true, false, ◌||◌, not, Option, none, some, ltb,
  leb, if◌then◌else◌,
}
use epigone.Prelude.Int.{pos_part, ◌+ℤ◌, ◌-ℤ◌, ltb_ℤ, ℤ, pos, negsuc}
use epigone.Decimal.{Decimal, whole, hundredths, leb_ℤ, abs, Rounding}
use epigone.Policy.{open_position_notional}
pub mod Size
pub mod Digits
pub mod Price
mod Tests

-- ROUND_DOWN and ROUND_UP: towards zero and away from it
pub data Direction : Type 0 where
  round_down round_up : Direction

abbrev pub max_wire_decimals : ℕ
max_wire_decimals = 8

abbrev pub price_significant_figures : ℕ
price_significant_figures = 5

abbrev pub perp_price_decimal_budget : ℕ
perp_price_decimal_budget = 6

abbrev pub slippage_cap : Decimal
slippage_cap = hundredths 1

-- `Decimal(1).scaleb(-places)`
abbrev pub quantum : ℕ → ℕ
quantum places = 10 ^ (30 - places)

-- A magnitude at a multiple of q
pub rounded : Direction → ℕ → ℕ → ℕ
rounded round_down q n = n / q * q
rounded round_up q n = (n + q - 1) / q * q

-- `quantize`
unfoldable pub quantize : Direction → ℕ → Decimal → Decimal
unfolding rounded
quantize d places (pos n) = pos (rounded d (quantum places) n)
quantize d places (negsuc n) = pos 0 -ℤ pos (rounded d (quantum places) (suc n))

unfoldable pub round_size : Decimal → ℤ → Option Decimal
unfolding quantize
round_size size sz =
    let coarse = quantize round_down (pos_part sz) size in
    if ltb_ℤ sz (pos 0) || ltb_ℤ (pos max_wire_decimals) sz
    then none
    else if leb_ℤ coarse (pos 0)
    then none
    else some coarse

-- How many decimal digits a number has, 1 for 0; the number itself is fuel enough.
unfoldable pub digits : ℕ → ℕ → ℕ
digits zero n = 1
digits (suc fuel) n = elim (ltb n 10) [ true ↦ 1 | false ↦ suc (digits fuel (n / 10)) ]

-- The magnitude of an amount, in quanta
abbrev pub magnitude : Decimal → ℕ
magnitude (pos n) = n
magnitude (negsuc n) = suc n

-- `integer_digits`
unfoldable pub integer_digits : Decimal → ℕ
unfolding digits
integer_digits price =
    let units = magnitude price / 10 ^ 30 in if leb 1 units then digits units units else 0

-- `allowed`: the last of the five figures stands so many places behind the point. A price below 1
-- has its first digit, `adjusted()`, where its quanta have it.
unfoldable pub allowed_places : Decimal → ℕ
unfolding integer_digits
allowed_places price =
    let whole_digits = integer_digits price in
    if leb price_significant_figures whole_digits
    then 0
    else if ltb 0 whole_digits
    then price_significant_figures - whole_digits
    else price_significant_figures - 1 + 31 - digits (magnitude price) (magnitude price)

-- `max(PERP_PRICE_DECIMAL_BUDGET - sz_decimals, 0)`
abbrev pub price_decimals : ℤ → ℕ
price_decimals sz = pos_part (pos perp_price_decimal_budget -ℤ sz)

unfoldable pub price_places : Decimal → ℤ → ℕ
price_places price sz = min (price_decimals sz) (allowed_places price)

unfoldable pub round_price : Decimal → ℤ → Direction → Option Decimal
round_price price sz d =
    let capped = quantize d (price_places price sz) price in
    if leb_ℤ capped (pos 0) then none else some capped

-- Whether a leg's trigger stands above the entry: a long's target, a short's stop
abbrev pub is_above : Bool → Bool → Bool
is_above is_long take_profit = if is_long then take_profit else not take_profit

module _ (r : Rounding) where
  open r use {mul, div}

  unfoldable pub clamped_size : Decimal → Decimal → Decimal → ℤ → Option Decimal
  unfolding round_size
  clamped_size size asked granted sz =
      if leb_ℤ asked (pos 0)
      then none
      else if leb_ℤ asked granted
      then some size
      else round_size (div (mul size granted) asked) sz

  -- The UnpriceableStakeError of the notional is a `none` too.
  unfoldable pub open_size : Decimal → Decimal → Decimal → ℤ → Option Decimal
  unfolding round_size
  open_size stake leverage mark sz =
      if leb_ℤ mark (pos 0) then none else elim (open_position_notional r stake leverage) [
        | none ↦ none
        | some notional ↦ round_size (div notional mark) sz
      ]

  pub scale_fraction : Option Decimal → Option Decimal → Option Decimal
  scale_fraction none new = none
  scale_fraction (some prev) none = none
  scale_fraction (some prev) (some new) =
      if leb_ℤ prev (pos 0) then none else some (div (abs (new -ℤ prev)) prev)

  pub relative_size : Decimal → Decimal → ℤ → Option Decimal
  unfolding round_size
  relative_size held fraction sz =
      if leb_ℤ held (pos 0) then none else round_size (mul held fraction) sz

  -- The bound that the slippage cap gives
  unfoldable pub slippage_bound : Decimal → Bool → Decimal
  slippage_bound mark is_buy =
      if is_buy then mul mark (whole 1 +ℤ slippage_cap) else mul mark (whole 1 -ℤ slippage_cap)

  unfoldable pub ioc_limit_price : Decimal → Bool → ℤ → Option Decimal
  ioc_limit_price mark is_buy sz =
      if leb_ℤ mark (pos 0)
      then none
      else round_price (slippage_bound mark is_buy) sz (if is_buy then round_down else round_up)

  -- The trigger before it is rounded
  pub trigger_exact : Decimal → Decimal → Bool → Decimal
  trigger_exact entry pct above =
      let move = div (mul entry pct) (whole 100) in if above then entry +ℤ move else entry -ℤ move

  pub trigger_price : Decimal → Decimal → Bool → Bool → ℤ → Option Decimal
  trigger_price entry pct is_long take_profit sz =
      let above = is_above is_long take_profit in
      if leb_ℤ entry (pos 0)
      then none
      else round_price (trigger_exact entry pct above) sz (if above then round_down else round_up)
