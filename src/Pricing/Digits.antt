-- ===== src/Pricing/Digits.antt =====
-- What the digits that execute/pricing.py counts say of a price.
use epigone.Prelude.{
  ℕ, zero, suc, ◌+◌, ◌-◌, ◌*◌, ◌/◌, ◌^◌, ◌≤◌, ◌<◌, ◌≡◌, ap, ◌∙◌, ◌⊎◌, inl, inr, arith, ltb, leb,
  if◌then◌else◌, Bool-cases,
}
use epigone.Prelude.Int.{ℤ}
use epigone.Decimal.{Decimal}
use epigone.Pricing.{digits, magnitude, integer_digits, allowed_places, price_places}
use native.Mathlib.Numerals.{unary_clauses}
use native.Mathlib.Nat.{pow-succ', pow-le-pow_right, mul_assoc, add-zero, mul-one}

lt-pow-digits : (fuel n : ℕ) → n ≤ fuel → n < 10 ^ digits fuel n
unfolding digits
lt-pow-digits zero n h = omega arith
lt-pow-digits (suc fuel) n h = elim (Bool-cases (ltb n 10)) [
  | inl small ↦ rw (small, digits) (ground arith)
  | inr more ↦
      rw (more, digits)
        (rw (pow-succ' 10 (digits fuel (n / 10)))
          (omega (arith, lt-pow-digits fuel (n / 10) (ground arith))))
]

pub pow_split : (j k : ℕ) → 10 ^ (j + k) ≡ 10 ^ j * 10 ^ k
pow_split j zero = simp (add-zero, mul-one)
pow_split j (suc k) =
    simp unary_clauses (ap (λ (t : ℕ). t * 10) (pow_split j k) ∙ mul_assoc (10 ^ j) (10 ^ k) 10)

-- A price whose whole units are below 10^k
lt-pow-whole : (n k : ℕ) → n / 10 ^ 30 < 10 ^ k → n < 10 ^ (30 + k)
lt-pow-whole n k h = rw (pow_split 30 k) (omega (arith, h))

lt-pow-later : (n j k : ℕ) → n < 10 ^ j → j ≤ k → n < 10 ^ k
lt-pow-later n j k h le =
    omega (arith, h, pow-le-pow_right {n = 10} (omega arith) {i = j} {j = k} le)

-- With `places` figures behind the point, the price's quanta in the last of them are fewer than
-- 10^5, or the price is cut at the point.
figures_at :
    (n places digits_of whole_digits : ℕ)
    → n < 10 ^ digits_of
    → (n / 10 ^ 30 < 10 ^ whole_digits)
    → (whole_digits ≡ 0 → n < 10 ^ 30)
    → places ≤ (
        if leb 5 whole_digits
        then 0
        else if ltb 0 whole_digits
        then 5 - whole_digits
        else 35 - digits_of)
    → (places ≡ 0) ⊎ (n < 10 ^ (5 + (30 - places)))
figures_at n places digits_of whole_digits lt whole_lt small le =
    elim (Bool-cases (leb 5 whole_digits)) [
      | inl big ↦ inl (ground arith)
      | inr fits ↦ elim (Bool-cases (ltb 0 whole_digits)) [
        | inl above ↦ inr (
            lt-pow-later n (30 + whole_digits) (5 + (30 - places))
              (lt-pow-whole n whole_digits whole_lt) (ground arith))
        | inr below ↦ elim (Bool-cases (leb digits_of 35)) [
          | inl few ↦ inr (lt-pow-later n digits_of (5 + (30 - places)) lt (ground arith))
          | inr many ↦
              inr (lt-pow-later n 30 (5 + (30 - places)) (small (ground arith)) (ground arith))
        ]
      ]
    ]

integer_digits_lt : (price : Decimal) → magnitude price / 10 ^ 30 < 10 ^ integer_digits price
unfolding integer_digits
integer_digits_lt price =
    let units : ℕ = magnitude price / 10 ^ 30 in
    let lt : units < 10 ^ digits units units = lt-pow-digits units units (omega arith) in
    elim (Bool-cases (leb 1 units)) [
      | inl some_units ↦ rw (some_units, integer_digits) lt
      | inr none_yet ↦ rw (none_yet, integer_digits) (ground arith)
    ]

digits_pos : (fuel n : ℕ) → 0 < digits fuel n
unfolding digits
digits_pos zero n = omega arith
digits_pos (suc fuel) n = ground arith

integer_digits_zero : (price : Decimal) → integer_digits price ≡ 0 → magnitude price < 10 ^ 30
unfolding integer_digits
integer_digits_zero price h =
    ground (arith, digits_pos (magnitude price / 10 ^ 30) (magnitude price / 10 ^ 30))

pub figures :
    (price : Decimal) (sz : ℤ)
    → (price_places price sz ≡ 0) ⊎ (magnitude price < 10 ^ (5 + (30 - price_places price sz)))
unfolding price_places allowed_places integer_digits
figures price sz =
    let n : ℕ = magnitude price in
    figures_at n (price_places price sz) (digits n n) (integer_digits price)
      (lt-pow-digits n n (omega arith)) (integer_digits_lt price) (integer_digits_zero price)
      (ground arith)
