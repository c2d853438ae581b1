-- ===== src/Policy.antt =====
-- src/epigone/execute/policy.py, with the RiskLimits of execute/limits.py and the MarketStats of
-- gateway/__init__.py: the judgement of every order that adds risk. A verdict's prose is the
-- sentence's constructor; the figures that the prose repeats are the arguments of the call.
use epigone.Prelude.{
  ℕ, ◌/◌, ◌^◌, min, max, String, Bool, true, false, ◌&&◌, Option, none, some, List, map, leb, ◌==◌,
  if◌then◌else◌,
}
use epigone.Prelude.Int.{◌+ℤ◌, ◌-ℤ◌, ltb_ℤ, pos, negsuc}
use epigone.Decimal.{Decimal, Time, whole, hundredths, leb_ℤ, min_ℤ, max_ℤ, sum_ℤ, Rounding}
use epigone.Positions.{margin, Position}
pub mod Entry
pub mod Leverage
pub mod LossBudget
pub mod Coin
mod Tests

pub record RiskLimits : Type 0 where
  pub floor_day_notional_usd : Decimal
  pub floor_open_interest_usd : Decimal
  pub max_coin_stake_usd : Decimal
  pub max_sub_stake_usd : Decimal
  pub backstop_leverage : ℕ
  pub updated_at : Option Time
  pub updated_by : Option ℕ

abbrev pub default_limits : RiskLimits
default_limits = record {
  floor_day_notional_usd = whole 100000;
  floor_open_interest_usd = whole 100000;
  max_coin_stake_usd = whole 300;
  max_sub_stake_usd = whole 900;
  backstop_leverage = 20;
  updated_at = none;
  updated_by = none;
}

-- `RiskLimits.floor_disabled`
unfoldable pub floor_disabled : RiskLimits → Bool
floor_disabled l = leb_ℤ l.floor_day_notional_usd (pos 0) && leb_ℤ l.floor_open_interest_usd (pos 0)

abbrev pub min_order_notional : Decimal
min_order_notional = whole 10

abbrev pub max_allocation_usd : Decimal
max_allocation_usd = whole 2000

abbrev pub budget_warning_fraction : Decimal
budget_warning_fraction = hundredths 80

pub data LeverageMode : Type 0 where
  mirror fixed : LeverageMode

pub data BudgetStage : Type 0 where
  within warning breached : BudgetStage

pub record MarketStats : Type 0 where
  pub coin : String
  pub day_notional_volume : Decimal
  pub open_interest : Decimal
  pub mark_price : Decimal
  pub max_leverage : ℕ

-- Which sentence a verdict says.
pub data Decision : Type 0 where
  over_funding_ceiling stake_over_allocation stake_over_coin_cap stake_over_sub_cap : Decision
  within_the_caps no_market_data floor_off below_floor clears_floor : Decision
  no_headroom under_minimum clamped_to_headroom granted_in_full : Decision
  budget_spent exits_never_declined : Decision

pub record RiskVerdict : Type 0 where
  pub allowed : Bool
  pub decision : Decision
  pub stake_usd : Option Decimal
  pub clamped : Bool

abbrev pub verdict : Bool → Decision → RiskVerdict
verdict allowed why = record {
  allowed = allowed;
  decision = why;
  stake_usd = none;
  clamped = false;
}

-- Which ceiling decided a leverage.
pub data Binding : Type 0 where
  under_every_cap by_backstop by_asset of_the_position : Binding

pub record LeverageChoice : Type 0 where
  pub value : ℕ
  pub asked : ℕ
  pub reason : Binding

-- `int(x)`, whose magnitude the callers take the maximum of and 1
abbrev pub whole_part : Decimal → ℕ
whole_part (pos n) = n / 10 ^ 30
whole_part (negsuc n) = 0

pub capped_leverage : ℕ → ℕ → RiskLimits → LeverageChoice
capped_leverage asked asset_max l =
    let value = min asked (min l.backstop_leverage asset_max) in
    record {
      value = value;
      asked = asked;
      reason =
          if value == asked
          then under_every_cap
          else if leb l.backstop_leverage asset_max
          then by_backstop
          else by_asset;
    }

-- `none` is the LeverageUnknownError.
unfoldable pub resolve_leverage :
    LeverageMode → Option ℕ → Option Decimal → ℕ → RiskLimits → Option LeverageChoice
unfolding capped_leverage
resolve_leverage fixed none leader asset_max l = none
resolve_leverage fixed (some asked) leader asset_max l = some (capped_leverage asked asset_max l)
resolve_leverage mirror chosen none asset_max l = none
resolve_leverage mirror chosen (some leader) asset_max l =
    some (capped_leverage (max (whole_part leader) 1) asset_max l)

unfoldable pub budget_loss : Decimal → Decimal → Decimal → Decimal
budget_loss baseline deposits equity = baseline +ℤ deposits -ℤ equity

unfoldable pub stake_headroom : Decimal → Decimal → RiskLimits → Decimal
stake_headroom coin_used sub_used l =
    max_ℤ (min_ℤ (l.max_coin_stake_usd -ℤ coin_used) (l.max_sub_stake_usd -ℤ sub_used)) (pos 0)

pub judge_provisioning : Decimal → Decimal → RiskLimits → RiskVerdict
judge_provisioning allocation base_stake l =
    if ltb_ℤ max_allocation_usd allocation
    then verdict false over_funding_ceiling
    else if ltb_ℤ allocation base_stake
    then verdict false stake_over_allocation
    else if ltb_ℤ l.max_coin_stake_usd base_stake
    then verdict false stake_over_coin_cap
    else if ltb_ℤ l.max_sub_stake_usd base_stake
    then verdict false stake_over_sub_cap
    else verdict true within_the_caps

pub judge_wind_down : RiskVerdict
judge_wind_down = verdict false budget_spent

pub judge_exit : RiskVerdict
judge_exit = verdict true exits_never_declined

module _ (r : Rounding) where
  open r use {mul, div}

  -- `none` is the UnpriceableStakeError.
  unfoldable pub open_position_notional : Decimal → Decimal → Option Decimal
  open_position_notional stake leverage =
      if leb_ℤ stake (pos 0)
      then none
      else if leb_ℤ leverage (pos 0)
      then none
      else some (mul stake leverage)

  -- `MarketStats.open_interest_usd`
  unfoldable pub open_interest_usd : MarketStats → Decimal
  open_interest_usd s = mul s.open_interest s.mark_price

  unfoldable pub clears_liquidity_floor : MarketStats → RiskLimits → Bool
  unfolding open_interest_usd
  clears_liquidity_floor s l =
      leb_ℤ l.floor_day_notional_usd s.day_notional_volume
      && leb_ℤ l.floor_open_interest_usd (open_interest_usd s)

  unfoldable pub judge_coin : Option MarketStats → RiskLimits → RiskVerdict
  unfolding floor_disabled clears_liquidity_floor
  judge_coin none l = verdict false no_market_data
  judge_coin (some s) l =
      if floor_disabled l
      then verdict true floor_off
      else if clears_liquidity_floor s l
      then verdict true clears_floor
      else verdict false below_floor

  unfoldable pub committed_stake : List Position → Decimal
  committed_stake ps = sum_ℤ (map (margin r) ps)

  unfoldable pub budget_stage : Decimal → Decimal → BudgetStage
  budget_stage loss budget =
      if leb_ℤ budget loss
      then breached
      else if leb_ℤ (mul budget budget_warning_fraction) loss
      then warning
      else within

  -- `judge_entry` behind the choice of the stake; `none` is the UnpriceableStakeError.
  unfoldable pub judge_granted : Decimal → Decimal → LeverageChoice → Option RiskVerdict
  unfolding open_position_notional
  judge_granted requested granted leverage =
      let clamped = ltb_ℤ granted requested in
      if leb_ℤ granted (pos 0)
      then some (verdict false no_headroom)
      else elim (open_position_notional granted (whole leverage.value)) [
        | none ↦ none
        | some notional ↦ some (
            if ltb_ℤ notional min_order_notional then verdict false under_minimum else record {
              allowed = true;
              decision = if clamped then clamped_to_headroom else granted_in_full;
              stake_usd = some granted;
              clamped = clamped;
            })
      ]

  unfoldable pub judge_entry :
      Decimal → LeverageChoice → Decimal → Decimal → RiskLimits → Option RiskVerdict
  judge_entry requested leverage coin_used sub_used l =
      judge_granted requested (min_ℤ requested (stake_headroom coin_used sub_used l)) leverage
