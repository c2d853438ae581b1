-- ===== src/Policy/Leverage.antt =====
-- The leverage that a copied open runs at: `resolve_leverage` of execute/policy.py.
use epigone.Prelude.{ℕ, ◌+◌, ◌≤◌, ◌<◌, max, ◌≡◌, refl, subst, ◌⊎◌, Option, none, some, arith}
use epigone.Prelude.Int.{◌≤ℤ◌, pos, negsuc}
use epigone.Decimal.{Decimal, whole, ◌<ℤ◌}
use epigone.Policy.{
  whole_part, capped_leverage, resolve_leverage, RiskLimits, LeverageMode, mirror, fixed, Binding,
  under_every_cap, by_backstop, by_asset, of_the_position, LeverageChoice,
}

-- What each reason says of the value that it explains; that of a scale is never given here.
abbrev pub Explains : Binding → LeverageChoice → ℕ → RiskLimits → Type 0
Explains under_every_cap c asset_max l = c.value ≡ c.asked
Explains by_backstop c asset_max l =
    (c.value ≡ l.backstop_leverage) × (c.value < c.asked) × (l.backstop_leverage ≤ asset_max)
Explains by_asset c asset_max l =
    (c.value ≡ asset_max) × (c.value < c.asked) × (asset_max < l.backstop_leverage)
Explains of_the_position c asset_max l = ⊥

capped_leverage_lem :
    (asked asset_max : ℕ) (l : RiskLimits)
    → let c = capped_leverage asked asset_max l in
      (c.value ≤ l.backstop_leverage)
      × (c.value ≤ asset_max)
      × (c.value ≤ c.asked)
      × (c.asked ≡ asked)
      × Explains c.reason c asset_max l
unfolding capped_leverage
capped_leverage_lem asked asset_max l = ground arith

capped_of_some :
    (asked asset_max : ℕ) (l : RiskLimits) (c : LeverageChoice)
    → some (capped_leverage asked asset_max l) ≡ some c
    → (c.value ≤ l.backstop_leverage)
      × (c.value ≤ asset_max)
      × (c.value ≤ c.asked)
      × Explains c.reason c asset_max l
capped_of_some asked asset_max l c h =
    let e : capped_leverage asked asset_max l ≡ c = cc in
    let (backstop, asset, ask, _, why) = capped_leverage_lem asked asset_max l in
    subst
      (λ c.
        (c.value ≤ l.backstop_leverage)
        × (c.value ≤ asset_max)
        × (c.value ≤ c.asked)
        × Explains c.reason c asset_max l)
      e (backstop, asset, ask, why)

whole_part_lem :
    (leader : Decimal)
    → ((whole (max (whole_part leader) 1) ≤ℤ leader)
        × (leader <ℤ whole (max (whole_part leader) 1 + 1)))
      ⊎ ((max (whole_part leader) 1 ≡ 1) × (leader <ℤ whole 1))
whole_part_lem (pos n) = omega arith
whole_part_lem (negsuc n) = omega arith

-- Whatever the mode, a resolved leverage is at most the backstop, the asset's own ceiling and what
-- was asked, and its reason names the ceiling that decided it.
pub resolve_leverage_capped :
    (mode : LeverageMode) (chosen : Option ℕ) (leader : Option Decimal) (asset_max : ℕ)
    (l : RiskLimits) (c : LeverageChoice)
    → resolve_leverage mode chosen leader asset_max l ≡ some c
    → (c.value ≤ l.backstop_leverage)
      × (c.value ≤ asset_max)
      × (c.value ≤ c.asked)
      × Explains c.reason c asset_max l
unfolding resolve_leverage
resolve_leverage_capped fixed none leader asset_max l c h = cc
resolve_leverage_capped fixed (some asked) leader asset_max l c h =
    capped_of_some asked asset_max l c h
resolve_leverage_capped mirror chosen none asset_max l c h = cc
resolve_leverage_capped mirror chosen (some leader) asset_max l c h =
    capped_of_some (max (whole_part leader) 1) asset_max l c h

-- A mirrored leverage asks for the greatest whole number that is at most the leader's own, and for
-- 1 when the leader is reported under 1, so it is never above a leader's leverage of 1 or more.
pub resolve_leverage_mirrors :
    (chosen : Option ℕ) (leader : Decimal) (asset_max : ℕ) (l : RiskLimits)
    → (c : LeverageChoice) × (resolve_leverage mirror chosen (some leader) asset_max l ≡ some c)
      × (((whole c.asked ≤ℤ leader) × (leader <ℤ whole (c.asked + 1)))
          ⊎ ((c.asked ≡ 1) × (leader <ℤ whole 1)))
unfolding resolve_leverage
resolve_leverage_mirrors chosen leader asset_max l =
    let asked : ℕ = max (whole_part leader) 1 in
    (capped_leverage asked asset_max l, refl, unfold capped_leverage in whole_part_lem leader)
