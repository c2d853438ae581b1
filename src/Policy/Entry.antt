-- ===== src/Policy/Entry.antt =====
-- What `judge_entry` and `judge_provisioning` of execute/policy.py grant and refuse.
use epigone.Prelude.{◌<◌, ◌≡◌, ◌⊎◌, inl, inr, true, false, Option, none, some, arith, if◌then◌else◌}
use epigone.Prelude.Int.{◌+ℤ◌, ◌-ℤ◌, ◌≤ℤ◌, ℤ, pos, int_laws}
use epigone.Decimal.{Decimal, whole, ◌<ℤ◌, min_ℤ, max_ℤ, Rounding}
use epigone.Policy.{
  min_order_notional, stake_headroom, judge_provisioning, judge_entry, RiskLimits, granted_in_full,
  RiskVerdict, LeverageChoice, judge_granted,
}

-- A stake that fits what was asked and both caps.
pub record Fits (stake requested coin_used sub_used : Decimal) (l : RiskLimits) : Type 0 where
  pub within_ask : stake ≤ℤ requested
  pub within_coin_cap : coin_used +ℤ stake ≤ℤ l.max_coin_stake_usd
  pub within_sub_cap : sub_used +ℤ stake ≤ℤ l.max_sub_stake_usd

-- What a judgement grants: the stake of a verdict that allows.
abbrev pub granted_by : Option RiskVerdict → Option Decimal
granted_by none = none
granted_by (some v) = if v.allowed then v.stake_usd else none

abbrev pick : ℤ → ℤ → ℤ → ℤ
pick requested a b = min_ℤ requested (max_ℤ (min_ℤ a b) (pos 0))

pick_le :
    (requested a b : ℤ)
    → pos 0 <ℤ pick requested a b
    → (pick requested a b ≤ℤ requested) × (pick requested a b ≤ℤ a) × (pick requested a b ≤ℤ b)
pick_le requested a b h = ground arith

le_pick : (s requested a b : ℤ) → s ≤ℤ requested → s ≤ℤ a → s ≤ℤ b → s ≤ℤ pick requested a b
le_pick s requested a b h k m = ground arith

≤ℤ_trans : (a b c : ℤ) → a ≤ℤ b → b ≤ℤ c → a ≤ℤ c
≤ℤ_trans a b c h k = omega arith

room : (used g cap : ℤ) → g ≤ℤ cap -ℤ used → used +ℤ g ≤ℤ cap
room used g cap h = omega int_laws

left : (used g cap : ℤ) → used +ℤ g ≤ℤ cap → g ≤ℤ cap -ℤ used
left used g cap h = omega int_laws

headroom-Fits :
    (requested coin_used sub_used : Decimal) (l : RiskLimits)
    → pos 0 <ℤ min_ℤ requested (stake_headroom coin_used sub_used l)
    → Fits (min_ℤ requested (stake_headroom coin_used sub_used l)) requested coin_used sub_used l
unfolding stake_headroom
headroom-Fits requested coin_used sub_used l h =
    let a : ℤ = l.max_coin_stake_usd -ℤ coin_used in
    let b : ℤ = l.max_sub_stake_usd -ℤ sub_used in
    let (ask, coin, sub) = pick_le requested a b h in
    record {
      within_ask = ask;
      within_coin_cap = room coin_used (pick requested a b) l.max_coin_stake_usd coin;
      within_sub_cap = room sub_used (pick requested a b) l.max_sub_stake_usd sub;
    }

headroom_greatest :
    (stake requested coin_used sub_used : Decimal) (l : RiskLimits)
    → Fits stake requested coin_used sub_used l
    → stake ≤ℤ min_ℤ requested (stake_headroom coin_used sub_used l)
unfolding stake_headroom
headroom_greatest stake requested coin_used sub_used l f =
    le_pick stake requested (l.max_coin_stake_usd -ℤ coin_used) (l.max_sub_stake_usd -ℤ sub_used)
      f.within_ask (left coin_used stake l.max_coin_stake_usd f.within_coin_cap)
      (left sub_used stake l.max_sub_stake_usd f.within_sub_cap)

module _ (r : Rounding) where
  judge_granted_allows :
      (requested p g : Decimal) (leverage : LeverageChoice)
      → granted_by (judge_granted r requested p leverage) ≡ some g
      → (g ≡ p) × (pos 0 <ℤ p) × (min_order_notional ≤ℤ r.mul p (whole leverage.value))
  unfolding judge_granted
  judge_granted_allows requested p g leverage h = ground arith

  judge_granted_refuses :
      (requested p : Decimal) (leverage : LeverageChoice)
      → 0 < leverage.value
      → granted_by (judge_granted r requested p leverage) ≡ none
      → (p ≤ℤ pos 0) ⊎ ((pos 0 <ℤ p) × (r.mul p (whole leverage.value) <ℤ min_order_notional))
  unfolding judge_granted
  judge_granted_refuses requested p leverage k h = ground arith

  -- A granted stake is positive, fits what was asked and both caps, is the greatest stake that
  -- does, and its position is worth at least the exchange's minimum order.
  pub judge_entry_grants :
      (requested coin_used sub_used : Decimal) (leverage : LeverageChoice) (l : RiskLimits)
      (g : Decimal)
      → granted_by (judge_entry r requested leverage coin_used sub_used l) ≡ some g
      → (pos 0 <ℤ g)
        × Fits g requested coin_used sub_used l
        × ((stake : Decimal) → Fits stake requested coin_used sub_used l → stake ≤ℤ g)
        × (min_order_notional ≤ℤ r.mul g (whole leverage.value))
  unfolding judge_entry
  judge_entry_grants requested coin_used sub_used leverage l g h =
      let p : ℤ = min_ℤ requested (stake_headroom coin_used sub_used l) in
      let (e, positive, large) = judge_granted_allows requested p g leverage h in
      rw e (
        positive,
        headroom-Fits requested coin_used sub_used l positive,
        λ stake f. headroom_greatest stake requested coin_used sub_used l f,
        large,
      )

  -- With a leverage of at least 1 the judgement never fails, and what it refuses could not have
  -- been granted: no positive stake fits, or the greatest that fits buys a position under the
  -- exchange's minimum order.
  judge_entry_refuses :
      (requested coin_used sub_used : Decimal) (leverage : LeverageChoice) (l : RiskLimits)
      → 0 < leverage.value
      → granted_by (judge_entry r requested leverage coin_used sub_used l) ≡ none
      → ((stake : Decimal) → Fits stake requested coin_used sub_used l → stake ≤ℤ pos 0)
        ⊎ ((g : Decimal) × Fits g requested coin_used sub_used l
            × ((stake : Decimal) → Fits stake requested coin_used sub_used l → stake ≤ℤ g)
            × (r.mul g (whole leverage.value) <ℤ min_order_notional))
  unfolding judge_entry
  judge_entry_refuses requested coin_used sub_used leverage l pos_lev h =
      let p : ℤ = min_ℤ requested (stake_headroom coin_used sub_used l) in
      elim (judge_granted_refuses requested p leverage pos_lev h) [
        | inl small ↦ inl λ stake f.
            ≤ℤ_trans stake p (pos 0) (headroom_greatest stake requested coin_used sub_used l f)
              small
        | inr (positive, small) ↦ inr (
          p,
          headroom-Fits requested coin_used sub_used l positive,
          λ stake f. headroom_greatest stake requested coin_used sub_used l f,
          small,
        )
      ]

  full_headroom :
      (base : Decimal) (l : RiskLimits)
      → base ≤ℤ l.max_coin_stake_usd
      → base ≤ℤ l.max_sub_stake_usd
      → pos 0 <ℤ base
      → min_ℤ base (stake_headroom (pos 0) (pos 0) l) ≡ base
  unfolding stake_headroom ◌-ℤ◌
  full_headroom base l h k m = ground arith

  -- A mapping that provisioning accepted is never clamped by its own caps: into an empty sub, a
  -- positive base stake whose position reaches the minimum order is granted in full.
  pub judge_provisioning-judge_entry :
      (allocation base : Decimal) (leverage : LeverageChoice) (l : RiskLimits)
      → (judge_provisioning allocation base l).allowed ≡ true
      → pos 0 <ℤ base
      → 0 < leverage.value
      → min_order_notional ≤ℤ r.mul base (whole leverage.value)
      → judge_entry r base leverage (pos 0) (pos 0) l
        ≡ some (record {
          allowed = true;
          decision = granted_in_full;
          stake_usd = some base;
          clamped = false;
        })
  unfolding judge_entry judge_provisioning judge_granted
  judge_provisioning-judge_entry allocation base leverage l h k m n =
      ground (arith, full_headroom base l)
