-- ===== src/Policy/Coin.antt =====
-- The Liquidity Floor: `judge_coin` of execute/policy.py.
use epigone.Prelude.{◌≡◌, refl, true, false, none, some, arith}
use epigone.Prelude.Int.{◌≤ℤ◌, pos}
use epigone.Decimal.{Rounding}
use epigone.Policy.{open_interest_usd, clears_liquidity_floor, judge_coin, RiskLimits, MarketStats}

-- Lower floors on both halves.
pub record IsLooser (loose strict : RiskLimits) : Type 0 where
  pub volume : loose.floor_day_notional_usd ≤ℤ strict.floor_day_notional_usd
  pub interest : loose.floor_open_interest_usd ≤ℤ strict.floor_open_interest_usd

module _ (r : Rounding) where
  -- Where the market's figures are not negative, switching the floor off agrees with the floor
  -- itself: a coin is allowed exactly when its market is listed and clears both halves, and
  -- lowering the floors never refuses a coin that was allowed.
  pub judge_coin_floor :
      (s : MarketStats) (l : RiskLimits)
      → pos 0 ≤ℤ s.day_notional_volume
      → pos 0 ≤ℤ open_interest_usd r s
      → ((judge_coin r (some s) l).allowed ≡ clears_liquidity_floor r s l)
        × ((judge_coin r none l).allowed ≡ false)
        × ((loose : RiskLimits)
            → IsLooser loose l
            → (judge_coin r (some s) l).allowed ≡ true
            → (judge_coin r (some s) loose).allowed ≡ true)
  unfolding judge_coin
  judge_coin_floor s l h k = (ground arith, refl, λ loose v e. ground arith)
