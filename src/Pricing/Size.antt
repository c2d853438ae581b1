-- ===== src/Pricing/Size.antt =====
-- The sizes of execute/pricing.py never ask for more than was sized.
use epigone.Prelude.{
  ℕ, suc, ◌+◌, ◌-◌, ◌*◌, ◌/◌, ◌≤◌, ◌<◌, ◌≡◌, refl, sym, ◌∙◌, subst, ◌⊎◌, inl, inr, true, ◌||◌, none,
  some, arith, leb, Bool-cases,
}
use epigone.Prelude.Int.{pos_part, ◌+ℤ◌, ◌-ℤ◌, ◌≤ℤ◌, ltb_ℤ, +ℤ_parts, -ℤ_parts, ℤ, pos, negsuc}
use epigone.Decimal.{Decimal, whole, leb_ℤ, ◌<ℤ◌, abs, Rounding, IsFaithful}
use epigone.Pricing.{
  max_wire_decimals, quantum, rounded, quantize, round_size, scale_fraction, relative_size,
  round_down, round_up,
}
use mathlib.Core.Option.{some-injective}
use native.Mathlib.Nat.{one-le-pow, div-mul-le_self, lt-div-mul-add}

pub quantum_pos : (places : ℕ) → 0 < quantum places
quantum_pos places = one-le-pow (30 - places) 10 (omega arith)

pub down_bounds :
    (q n : ℕ) → 0 < q → (rounded round_down q n ≤ n) × (n < rounded round_down q n + q)
unfolding rounded
down_bounds q n h = (div-mul-le_self n q, lt-div-mul-add h)

pub up_bounds : (q n : ℕ) → 0 < q → (n ≤ rounded round_up q n) × (rounded round_up q n < n + q)
unfolding rounded
up_bounds q n h = (
  omega (arith, h, lt-div-mul-add {a = n + q - 1} h),
  omega (arith, h, div-mul-le_self (n + q - 1) q),
)

-- A size that the venue accepts, next below the one that was asked.
abbrev pub IsSized : ℕ → Decimal → Decimal → Type 0
IsSized d size coarse =
    (pos 0 <ℤ coarse)
    × ((k : ℕ) × (coarse ≡ pos (k * quantum d)))
    × (coarse ≤ℤ size)
    × (size <ℤ coarse +ℤ pos (quantum d))

quantize_down_neg : (d n : ℕ) → leb_ℤ (quantize round_down d (negsuc n)) (pos 0) ≡ true
unfolding quantize
quantize_down_neg d n =
    let parts = -ℤ_parts (pos 0) (pos (rounded round_down (quantum d) (suc n))) in
    ground (arith, parts)

grid : (d n : ℕ) → pos (rounded round_down (quantum d) n) ≡ pos (n / quantum d * quantum d)
unfolding rounded
grid d n = refl

round_size_at :
    (d : ℕ) (size : Decimal)
    → d ≤ 8
    → ((size <ℤ pos (quantum d)) × (round_size size (pos d) ≡ none))
      ⊎ ((coarse : Decimal) × (round_size size (pos d) ≡ some coarse) × IsSized d size coarse)
unfolding round_size quantize
round_size_at d (negsuc n) h =
    inl (omega (arith, quantum_pos d), ground (arith, h, quantize_down_neg d n))
round_size_at d (pos n) h =
    let bounds = down_bounds (quantum d) n (quantum_pos d) in
    elim (Bool-cases (leb (rounded round_down (quantum d) n) 0)) [
      | inl none_left ↦ inl (ground (arith, bounds), ground (arith, none_left, h))
      | inr left ↦ inr (
        pos (rounded round_down (quantum d) n),
        ground (arith, h, left),
        (
          ground (arith, left),
          (n / quantum d, grid d n),
          ground (arith, bounds),
          ground
              (arith, bounds, +ℤ_parts (pos (rounded round_down (quantum d) n)) (pos (quantum d))),
        ),
      )
    ]

-- A size at a precision within the wire's is the greatest multiple of the venue's quantum that is
-- at most what was asked, and it is refused exactly where that is nothing; a precision outside the
-- wire's is always refused.
pub round_size_lem :
    (size : Decimal) (sz : ℤ)
    → (((ltb_ℤ sz (pos 0) || ltb_ℤ (pos max_wire_decimals) sz) ≡ true)
        × (round_size size sz ≡ none))
      ⊎ ((size <ℤ pos (quantum (pos_part sz))) × (round_size size sz ≡ none))
      ⊎ ((coarse : Decimal) × (round_size size sz ≡ some coarse)
          × IsSized (pos_part sz) size coarse)
unfolding round_size
round_size_lem size (negsuc n) = inl (ground arith, ground arith)
round_size_lem size (pos d) = elim (Bool-cases (leb d 8)) [
  | inl fits ↦ inr (round_size_at d size (ground arith))
  | inr fine ↦ inl (ground arith, ground arith)
]

-- What is relied on: a product by at most 1 is at most the other factor, as 28 digits write it.
pub record IsShrinking (r : Rounding) : Type 0 where
  pub mul_le : (a : Decimal) (b : Decimal) → pos 0 <ℤ a → b ≤ℤ whole 1 → r.mul a b ≤ℤ a

pub round_size-le :
    (size : Decimal) (sz : ℤ) (coarse : Decimal)
    → round_size size sz ≡ some coarse
    → (pos 0 <ℤ coarse) × (coarse ≤ℤ size)
round_size-le size sz coarse h = elim (round_size_lem size sz) [
  | inl (_, refused) ↦ ground (arith, h, refused)
  | inr (inl (_, refused)) ↦ ground (arith, h, refused)
  | inr (inr (sized, same, (above, _, below, _))) ↦
      subst (λ (x : Decimal). (pos 0 <ℤ x) × (x ≤ℤ size)) (some-injective _ _ (sym same ∙ h))
        (above, below)
]

pub relative_size-positive :
    (r : Rounding) (held fraction : Decimal) (sz : ℤ) (target : Decimal)
    → relative_size r held fraction sz ≡ some target
    → pos 0 <ℤ target
unfolding relative_size
relative_size-positive r held fraction sz target h = elim (Bool-cases (leb_ℤ held (pos 0))) [
  | inl empty ↦ ground (arith, h, empty)
  | inr holding ↦ (round_size-le (r.mul held fraction) sz target (ground (arith, h, holding))).0
]

pub relative_size-holding :
    (r : Rounding) (held fraction : Decimal) (sz : ℤ) (target : Decimal)
    → relative_size r held fraction sz ≡ some target
    → pos 0 <ℤ held
unfolding relative_size
relative_size-holding r held fraction sz target h = elim (Bool-cases (leb_ℤ held (pos 0))) [
  | inl empty ↦ ground (arith, h, empty)
  | inr holding ↦ ground (arith, holding)
]

abs-sub : (new prev : ℕ) → new ≤ prev → abs (pos new -ℤ pos prev) ≡ pos (prev - new)
unfolding ◌-ℤ◌
abs-sub new prev h = ground arith

-- A leader who trims a size above nothing to one that is no larger has a copy that holds something
-- trim by the same part of its own: with `asked` the holding times (old size less new) over the old
-- size, each product and quotient rounded as Decimal does, the order is the greatest multiple of
-- the venue's quantum that is at most `asked`, which is above nothing and at most what is held; and
-- none is made exactly where `asked` is less than one quantum. The coin's precision is at most 8, and of the rounding are
-- relied on IsFaithful and IsShrinking: that it keeps a quotient within its bounds, and does not
-- raise a product by at most 1.
pub relative_size-scale_fraction :
    (r : Rounding) (held : Decimal) (prev new d : ℕ)
    → IsFaithful r
    → IsShrinking r
    → 0 < prev
    → new ≤ prev
    → pos 0 <ℤ held
    → d ≤ 8
    → let asked = r.mul held (r.div (pos (prev - new)) (pos prev)) in
      (fraction : Decimal) × (scale_fraction r (some (pos prev)) (some (pos new)) ≡ some fraction)
      × (((asked <ℤ pos (quantum d)) × (relative_size r held fraction (pos d) ≡ none))
          ⊎ ((sold : Decimal) × (relative_size r held fraction (pos d) ≡ some sold)
              × IsSized d asked sold
              × (sold ≤ℤ held)))
unfolding scale_fraction relative_size
relative_size-scale_fraction r held prev new d faithful shrinking above trims holding fits =
    let fraction = r.div (pos (prev - new)) (pos prev) in
    let part = faithful.div_upper (prev - new) prev 100 above (omega arith) (omega arith) in
    let less = shrinking.mul_le held fraction holding part in
    (
      fraction,
      ground (arith, above, abs-sub new prev trims),
      elim (round_size_at d (r.mul held fraction) fits) [
        | inl (small, refused) ↦ inl (small, ground (arith, holding, refused))
        | inr (sold, sized, (up, multiple, below, next)) ↦ inr (
          sold,
          ground (arith, holding, sized),
          (up, multiple, below, next),
          omega (arith, less, below),
        )
      ],
    )
