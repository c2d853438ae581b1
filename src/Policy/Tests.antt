-- ===== src/Policy/Tests.antt =====
-- The default limits at work, and the theorems at them.
use epigone.Prelude.{◌≡◌, refl, true, false, none, some, [], ◌∷◌, map}
use epigone.Prelude.Int.{◌+ℤ◌, ◌-ℤ◌, ◌≤ℤ◌, pos}
use epigone.Decimal.{Decimal, whole, ◌<ℤ◌}
use epigone.Policy.{
  default_limits, min_order_notional, budget_loss, stake_headroom, budget_stage, judge_granted,
  judge_entry, within, warning, breached, MarketStats, no_headroom, clamped_to_headroom,
  under_every_cap, by_backstop, LeverageChoice,
}
use epigone.Policy.Entry.{judge_entry_grants, Fits}
use epigone.Decimal.Truncating.{truncating}

abbrev ten_times : LeverageChoice
ten_times = record { value = 10; asked = 10; reason = under_every_cap }

clamped_entry :
    judge_entry truncating (whole 100) ten_times (whole 250) (whole 250) default_limits
    ≡ some (record {
      allowed = true;
      decision = clamped_to_headroom;
      stake_usd = some (whole 50);
      clamped = true;
    })
unfolding judge_entry judge_granted stake_headroom truncating ◌-ℤ◌
clamped_entry = refl

full_coin :
    judge_entry truncating (whole 100) ten_times (whole 300) (whole 300) default_limits
    ≡ some (record { allowed = false; decision = no_headroom; stake_usd = none; clamped = false })
unfolding judge_entry judge_granted stake_headroom truncating ◌-ℤ◌
full_coin = refl

judge_entry_grants_example :
    (pos 0 <ℤ whole 50)
    × Fits (whole 50) (whole 100) (whole 250) (whole 250) default_limits
    × ((stake : Decimal)
        → Fits stake (whole 100) (whole 250) (whole 250) default_limits
        → stake ≤ℤ whole 50)
    × (min_order_notional ≤ℤ truncating.mul (whole 50) (whole 10))
unfolding judge_entry judge_granted stake_headroom truncating ◌-ℤ◌
judge_entry_grants_example =
    judge_entry_grants truncating (whole 100) (whole 250) (whole 250) ten_times default_limits
      (whole 50) refl

abbrev capped : LeverageChoice
capped = record { value = 20; asked = 33; reason = by_backstop }

budget_stages :
    map
      (λ equity. budget_stage truncating (budget_loss (whole 500) (whole 0) equity) (whole 100))
      (whole 450 ∷ whole 420 ∷ whole 400 ∷ [])
    ≡ within ∷ warning ∷ breached ∷ []
unfolding budget_stage budget_loss truncating ◌-ℤ◌ ◌+ℤ◌
budget_stages = refl

abbrev thin : MarketStats
thin = record {
  coin = "xyz:THIN";
  day_notional_volume = whole 120000;
  open_interest = whole 300;
  mark_price = whole 200;
  max_leverage = 5;
}
