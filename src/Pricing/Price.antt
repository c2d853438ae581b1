-- ===== src/Pricing/Price.antt =====
-- The prices of execute/pricing.py are legal at the venue and never worse than the bound.
use epigone.Pricing.Size.{quantum_pos, down_bounds, up_bounds}
use mathlib.Core.Option.{some-injective}
use native.Mathlib.Nat.{
  one-le-pow, div-le_of_le-mul, div-lt_iff_lt-mul, zero-mul, zero-div, div-eq_of_lt,
}
use epigone.Pricing.Digits.{pow_split, figures}
-- A perp price: a positive multiple of the quantum of so many places, as many as the asset
-- allows at most; and of at most five significant figures, or whole.
use epigone.Prelude.{
  ℕ, zero, suc, ◌+◌, ◌-◌, ◌*◌, ◌/◌, ◌^◌, ◌≤◌, ◌<◌, ◌≡◌, refl, ap, subst, ◌⊎◌, inl, inr, Bool, true,
  false, none, some, arith, leb, if◌then◌else◌, Bool-cases,
}
use epigone.Prelude.Int.{◌+ℤ◌, ◌-ℤ◌, ◌≤ℤ◌, -ℤ_parts, ℤ, pos, negsuc, int_laws}
use epigone.Decimal.{Decimal, hundredths, leb_ℤ, ◌<ℤ◌, Rounding}
use epigone.Pricing.{
  quantum, rounded, quantize, price_decimals, price_places, round_price, is_above, slippage_bound,
  ioc_limit_price, trigger_exact, trigger_price, Direction, round_down, round_up,
}

abbrev pub IsLegal : ℤ → Decimal → Type 0
IsLegal sz price =
    (places : ℕ) × (m : ℕ) × (price ≡ pos (m * quantum places))
    × (0 < m)
    × (places ≤ price_decimals sz)
    × ((places ≡ 0) ⊎ (m ≤ 10 ^ 5))

-- On the side of the exact price that the direction names, and less than one quantum from it.
abbrev pub IsNear : Direction → ℕ → Decimal → Decimal → Type 0
IsNear round_down places exact price = (price ≤ℤ exact) × (exact <ℤ price +ℤ pos (quantum places))
IsNear round_up places exact price = (exact ≤ℤ price) × (price <ℤ exact +ℤ pos (quantum places))

count_of : Direction → ℕ → ℕ → ℕ
count_of round_down q n = n / q
count_of round_up q n = (n + q - 1) / q

rounded_count : (d : Direction) (q n : ℕ) → rounded d q n ≡ count_of d q n * q
unfolding rounded count_of
rounded_count round_down q n = refl
rounded_count round_up q n = refl

-- A price of fewer than 10^5 quanta is rounded to at most as many.
count_of-le : (d : Direction) (e n : ℕ) → n < 10 ^ (5 + e) → count_of d (10 ^ e) n ≤ 10 ^ 5
unfolding count_of
count_of-le round_down e n h = div-le_of_le-mul (10 ^ e) (omega (arith, h, pow_split 5 e))
count_of-le round_up e n h =
    let q_pos : 0 < 10 ^ e = one-le-pow e 10 (omega arith) in
    let below =
      (div-lt_iff_lt-mul {k = 10 ^ e} {x = n + 10 ^ e - 1} {y = 10 ^ 5 + 1} q_pos).1
        (omega (arith, h, q_pos, pow_split 5 e)) in
    omega (arith, below)

pos_of_product : (m q : ℕ) → 0 < m * q → 0 < m
pos_of_product zero q h = ground (arith, zero-mul q)
pos_of_product (suc m) q h = omega arith

rounded-zero : (d : Direction) (q : ℕ) → 0 < q → rounded d q 0 ≡ 0
unfolding rounded
rounded-zero round_down q h = rw (zero-div q) (zero-mul q)
rounded-zero round_up q h = rw (div-eq_of_lt {n = 0 + q - 1} {m = q} (omega arith)) (zero-mul q)

round_price_zero : (sz : ℤ) (d : Direction) → round_price (pos 0) sz d ≡ none
unfolding round_price quantize
round_price_zero sz d = ground (
  arith,
  rounded-zero d (quantum (price_places (pos 0) sz)) (quantum_pos (price_places (pos 0) sz)),
)

places_le : (price : Decimal) (sz : ℤ) → price_places price sz ≤ price_decimals sz
unfolding price_places
places_le price sz = omega arith

near : (d : Direction) (places n : ℕ) → IsNear d places (pos n) (pos (rounded d (quantum places) n))
near round_down places n =
    let bounds = down_bounds (quantum places) n (quantum_pos places) in
    (omega (arith, bounds), omega (int_laws, bounds))
near round_up places n =
    let bounds = up_bounds (quantum places) n (quantum_pos places) in
    (omega (arith, bounds), omega (int_laws, bounds))

few_figures :
    (n : ℕ) (sz : ℤ) (d : Direction)
    → (price_places (pos n) sz ≡ 0) ⊎ (count_of d (quantum (price_places (pos n) sz)) n ≤ 10 ^ 5)
few_figures n sz d = elim (figures (pos n) sz) [
  | inl cut ↦ inl cut
  | inr few ↦ inr (count_of-le d (30 - price_places (pos n) sz) n few)
]

round_price_pos :
    (n : ℕ) (sz : ℤ) (d : Direction) (price : Decimal)
    → round_price (pos n) sz d ≡ some price
    → IsLegal sz price × IsNear d (price_places (pos n) sz) (pos n) price
unfolding round_price quantize
round_price_pos n sz d price h =
    let places : ℕ = price_places (pos n) sz in
    elim (Bool-cases (leb (rounded d (quantum places) n) 0)) [
      | inl gone ↦ ground (arith, gone, h)
      | inr left ↦
          let same =
            some-injective (pos (rounded d (quantum places) n)) price (ground (arith, left, h)) in
          let multiple = ap (λ m. pos m) (rounded_count d (quantum places) n) in
          subst (λ x. IsLegal sz x × IsNear d places (pos n) x) same
            (
              (
                places,
                count_of d (quantum places) n,
                multiple,
                pos_of_product (count_of d (quantum places) n) (quantum places)
                    (ground (arith, left, rounded_count d (quantum places) n)),
                places_le (pos n) sz,
                few_figures n sz d,
              ),
              near d places n,
            )
    ]

round_price_neg : (n : ℕ) (sz : ℤ) (d : Direction) → round_price (negsuc n) sz d ≡ none
unfolding round_price quantize
round_price_neg n sz d =
    let up : ℕ = rounded d (quantum (price_places (negsuc n) sz)) (suc n) in
    let parts = -ℤ_parts (pos 0) (pos up) in ground (arith, parts)

-- Every price that is given is legal at the venue, its last digit at most as far behind the point
-- as the asset allows, and either whole or of at most five significant figures; it stands on the
-- side of the exact price that the direction names, less than one unit of its last place away. No
-- price is given for an amount that is not positive.
pub round_price_lem :
    (exact : Decimal) (sz : ℤ) (d : Direction) (price : Decimal)
    → round_price exact sz d ≡ some price
    → IsLegal sz price × (pos 0 <ℤ exact) × IsNear d (price_places exact sz) exact price
round_price_lem (negsuc n) sz d price h = ground (arith, h, round_price_neg n sz d)
round_price_lem (pos zero) sz d price h = ground (arith, h, round_price_zero sz d)
round_price_lem (pos (suc n)) sz d price h =
    let (legal, close) = round_price_pos (suc n) sz d price h in (legal, omega arith, close)

-- Where an order's limit may stand, from the bound of the slippage cap.
abbrev pub IsWithin : Bool → Decimal → Decimal → Type 0
IsWithin true bound limit = limit ≤ℤ bound
IsWithin false bound limit = bound ≤ℤ limit

IsNear-IsWithin :
    (is_buy : Bool) (places : ℕ) (bound limit : Decimal)
    → IsNear (if is_buy then round_down else round_up) places bound limit
    → IsWithin is_buy bound limit
IsNear-IsWithin true places bound limit h = h.0
IsNear-IsWithin false places bound limit h = h.0

-- The slippage cap is 1 percent of the mark, above it for a buy and below it for a sell.
abbrev pub cap_price : Rounding → Decimal → Bool → Decimal
cap_price r mark true = r.mul mark (hundredths 101)
cap_price r mark false = r.mul mark (hundredths 99)

slippage_bound_lem :
    (r : Rounding) (mark : Decimal) (is_buy : Bool)
    → slippage_bound r mark is_buy ≡ cap_price r mark is_buy
unfolding slippage_bound ◌+ℤ◌ ◌-ℤ◌
slippage_bound_lem r mark true = refl
slippage_bound_lem r mark false = refl

-- The limit of a market order is a legal price that never passes the slippage cap of 1 percent: a
-- buy's is at most 1.01 times the mark, a sell's at least 0.99 times the mark, each product rounded
-- as Decimal does. None is given without a positive mark.
pub ioc_limit_price_lem :
    (r : Rounding) (mark : Decimal) (is_buy : Bool) (sz : ℤ) (limit : Decimal)
    → ioc_limit_price r mark is_buy sz ≡ some limit
    → (pos 0 <ℤ mark) × IsLegal sz limit × IsWithin is_buy (cap_price r mark is_buy) limit
unfolding ioc_limit_price
ioc_limit_price_lem r mark is_buy sz limit h = elim (Bool-cases (leb_ℤ mark (pos 0))) [
  | inl worthless ↦ ground (arith, worthless, h)
  | inr priced ↦
      let bound = slippage_bound r mark is_buy in
      let d : Direction = if is_buy then round_down else round_up in
      let (legal, above, close) = round_price_lem bound sz d limit (ground (arith, priced, h)) in
      (
        ground (arith, priced),
        legal,
        subst (λ (b : Decimal). IsWithin is_buy b limit) (slippage_bound_lem r mark is_buy)
            (IsNear-IsWithin is_buy (price_places bound sz) bound limit close),
      )
]

-- A leg's trigger is a legal price on the entry's side of the exact one, so a stop and a target
-- are both reached marginally early and never late. None is given without a positive entry.
trigger_price_lem :
    (r : Rounding) (entry pct : Decimal) (is_long take_profit : Bool) (sz : ℤ) (trigger : Decimal)
    → trigger_price r entry pct is_long take_profit sz ≡ some trigger
    → (pos 0 <ℤ entry)
      × IsLegal sz trigger
      × IsWithin
          (is_above is_long take_profit)
          (trigger_exact r entry pct (is_above is_long take_profit))
          trigger
unfolding trigger_price
trigger_price_lem r entry pct is_long take_profit sz trigger h =
    elim (Bool-cases (leb_ℤ entry (pos 0))) [
      | inl worthless ↦ ground (arith, worthless, h)
      | inr priced ↦
          let above : Bool = is_above is_long take_profit in
          let exact = trigger_exact r entry pct above in
          let d : Direction = if above then round_down else round_up in
          let (legal, _, close) = round_price_lem exact sz d trigger (ground (arith, priced, h)) in
          (
            ground (arith, priced),
            legal,
            IsNear-IsWithin above (price_places exact sz) exact trigger close,
          )
    ]
