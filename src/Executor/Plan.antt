-- ===== src/Executor/Plan.antt =====
-- What `_entry` and `_exit` of execute/executor.py decide before the event is claimed.
use epigone.Prelude.Int.{ltb_ℤ, pos}
use epigone.Positions.{margin, Side, long, short, Position}
use epigone.Policy.{
  min_order_notional, whole_part, resolve_leverage, open_position_notional, judge_coin,
  committed_stake, judge_entry, RiskLimits, MarketStats, of_the_position, LeverageChoice,
}
use epigone.Pricing.{
  round_size, clamped_size, open_size, scale_fraction, relative_size, ioc_limit_price,
}
use epigone.Episodes.{live_episode, CopyEpisode}
use epigone.Prelude.{
  ◌-◌, max, String, Bool, true, false, ◌&&◌, ◌||◌, not, Option, none, some, List, [], ◌∷◌, ltb,
  if◌then◌else◌, string_eq,
}
use epigone.Decimal.{Decimal, Time, whole, leb_ℤ, Rounding}
use epigone.Dict.{Dict, lookup}
use epigone.Executor.{
  because, next_cycle, ◌>>=◌, ◌>>◌, skip_if, or_skip, expect, winding_down, entry_staleness_guard,
  leader_equity_floor, Leg, scaling_in, scaling_out, stale_entry, no_local_position, coin_occupied,
  unorderable, not_mirrorable, risk_declined, under_liquidity_floor, under_liveness_floor,
  below_minimum, loss_budget_spent, Step, goes, AssetSpec, ioc, OrderSpec, CopySub, ClaimableEvent,
  Desk,
}

-- What an entry reads: the clock, the universe, the leader's equity, this cycle's market
-- statistics of the coin, each none where it is unreadable, and the coin's mid price.
pub record EntryReads : Type 0 where
  pub now : Time
  pub spec : Option AssetSpec
  pub leader_equity : Option Decimal
  pub stats : Option (Option MarketStats)
  pub mark : Option Decimal

pub record Ask : Type 0 where
  pub leverage : LeverageChoice
  pub stake_usd : Decimal
  pub size_coin : Decimal

pub record EntryPlan : Type 0 where
  pub spec : AssetSpec
  pub side : Side
  pub mark : Decimal
  pub ask : Ask
  pub granted : Decimal
  pub order : OrderSpec

pub record ExitPlan : Type 0 where
  pub episode : CopyEpisode
  pub position : Position
  pub spec : AssetSpec
  pub held : Decimal
  pub target : Decimal

abbrev pub is_scaling_in : Leg → Bool
is_scaling_in scaling_in = true
is_scaling_in _ = false

abbrev pub is_scaling_out : Leg → Bool
is_scaling_out scaling_out = true
is_scaling_out _ = false

abbrev pub is_long : Side → Bool
is_long long = true
is_long short = false

-- `_held`
abbrev pub held_size : Option Position → Option Decimal
held_size none = none
held_size (some p) = p.size_coin

abbrev pub has : {A : Type 0} → Option A → Bool
has o = elim o [ none ↦ false | some _ ↦ true ]

-- The part of `_entry_skip` that looks at what is held: a scale needs an episode and a position, a
-- fresh open needs neither.
unfoldable pub held_skip : Leg → Option CopyEpisode → Option Position → Step Unit
held_skip leg episode position =
    if is_scaling_in leg
    then skip_if (not (has episode && has (held_size position))) (because no_local_position)
    else skip_if (has episode || has position) (because coin_occupied)

-- `_liveness_skip`
unfoldable pub liveness_skip : Option Decimal → Step Unit
liveness_skip equity = do
  value ← or_skip equity next_cycle
  skip_if (ltb_ℤ value leader_equity_floor) (because under_liveness_floor)

-- `positions.values()`
abbrev pub values : Dict String Position → List Position
values [] = []
values ((_, p) ∷ d) = p ∷ values d

module _ (r : Rounding) where
  open r use {mul, div}

  -- `_floor_skip`
  unfoldable pub floor_skip : Option (Option MarketStats) → RiskLimits → Step Unit
  floor_skip stats l = do
    market ← or_skip stats next_cycle
    skip_if (not (judge_coin r market l).allowed) (because under_liquidity_floor)

  -- What `_entry_skip` asks of a fresh entry only
  unfoldable pub fresh_skip : EntryReads → RiskLimits → Step Unit
  unfolding liveness_skip floor_skip
  fresh_skip reads l = do liveness_skip reads.leader_equity; floor_skip reads.stats l

  -- `_entry_skip`
  unfoldable pub entry_skip :
      Leg → ClaimableEvent → CopySub → RiskLimits → EntryReads → Desk → Step Unit
  unfolding held_skip fresh_skip
  entry_skip leg e sub l reads desk = do
    skip_if (winding_down sub) (because loss_budget_spent)
    skip_if (ltb entry_staleness_guard (reads.now - e.observed_at)) (because stale_entry)
    skip_if (not (has reads.spec)) (because unorderable)
    held_skip leg (live_episode sub.id e.event.coin desk.store.episodes)
        (lookup e.event.coin desk.positions)
    if is_scaling_in leg then goes tt else fresh_skip reads l

  -- The leverage that a position runs at, floored at 1
  abbrev pub live_leverage : Position → LeverageChoice
  live_leverage p = record {
    value = max (whole_part p.leverage) 1;
    asked = max (whole_part p.leverage) 1;
    reason = of_the_position;
  }

  -- `_entry_ask` of a scale-in
  pub scale_ask : ClaimableEvent → Desk → Decimal → AssetSpec → Step Ask
  scale_ask e desk mark spec = do
    position ← expect (lookup e.event.coin desk.positions)
    held ← expect position.size_coin
    fraction ←
        or_skip (scale_fraction r e.event.prev_size_coin e.event.size_coin) (because not_mirrorable)
    size ← or_skip (relative_size r held fraction spec.sz_decimals) (because not_mirrorable)
    let live = live_leverage position
    goes (record {
      leverage = live;
      stake_usd = div (mul size mark) (whole live.value);
      size_coin = size;
    })

  -- `_entry_ask` of a fresh open. A stake or a leverage that is not positive is an
  -- UnpriceableStakeError, which is not caught.
  pub open_ask : ClaimableEvent → CopySub → RiskLimits → EntryReads → Decimal → AssetSpec → Step Ask
  open_ask e sub l reads mark spec = do
    stats ← expect reads.stats
    market ← expect stats
    leverage ←
        or_skip
          (resolve_leverage sub.leverage_mode sub.fixed_leverage e.event.leverage
            market.max_leverage l)
          (because not_mirrorable)
    skip_if (leb_ℤ mark (pos 0)) (because not_mirrorable)
    expect (open_position_notional r sub.base_stake_usd (whole leverage.value))
    size ←
        or_skip (open_size r sub.base_stake_usd (whole leverage.value) mark spec.sz_decimals)
          (because not_mirrorable)
    goes (record { leverage = leverage; stake_usd = sub.base_stake_usd; size_coin = size })

  abbrev pub entry_order : AssetSpec → Side → Decimal → Decimal → OrderSpec
  entry_order spec side size price = record {
    asset = spec.asset_id;
    is_buy = is_long side;
    size = size;
    limit_price = price;
    tif = ioc;
    reduce_only = false;
    trigger = none;
  }

  -- `coin_stake_used`
  abbrev pub stake_in_coin : String → Desk → Decimal
  stake_in_coin coin desk = elim (lookup coin desk.positions) [ none ↦ pos 0 | some p ↦ margin r p ]

  -- The judgement of an ask, the size of what is granted, and the order; `_rounded_below_minimum`
  -- has the last word.
  unfoldable pub judged_plan :
      RiskLimits → Desk → String → AssetSpec → Side → Decimal → Ask → Decimal → Step EntryPlan
  judged_plan l desk coin spec side mark ask price = do
    v ← expect (
        judge_entry r ask.stake_usd ask.leverage (stake_in_coin coin desk)
          (committed_stake r (values desk.positions)) l)
    skip_if (not v.allowed) (because risk_declined)
    granted ← expect v.stake_usd
    size ←
        or_skip (clamped_size r ask.size_coin ask.stake_usd granted spec.sz_decimals)
          (because below_minimum)
    skip_if (ltb_ℤ (mul size mark) min_order_notional) (because below_minimum)
    goes (record {
      spec = spec;
      side = side;
      mark = mark;
      ask = ask;
      granted = granted;
      order = entry_order spec side size price;
    })

  -- `_entry` up to its claim
  unfoldable pub entry_plan :
      Leg → ClaimableEvent → CopySub → RiskLimits → EntryReads → Desk → Step EntryPlan
  unfolding entry_skip scale_ask open_ask judged_plan
  entry_plan leg e sub l reads desk = do
    entry_skip leg e sub l reads desk
    spec ← expect reads.spec
    side ← expect e.event.side
    mark ← or_skip reads.mark (because not_mirrorable)
    ask ←
        (if is_scaling_in leg then scale_ask e desk mark spec else open_ask e sub l reads mark spec)
    price ←
        or_skip (ioc_limit_price r mark (is_long side) spec.sz_decimals) (because not_mirrorable)
    judged_plan l desk e.event.coin spec side mark ask price

  -- `_sub_minimum_skip`
  unfoldable pub sub_minimum_skip : Decimal → Decimal → Decimal → Step Unit
  sub_minimum_skip target held size_usd =
      skip_if (ltb_ℤ (pos 0) held && ltb_ℤ (mul target (div size_usd held)) min_order_notional)
        (because below_minimum)

  unfoldable pub trim_target : ClaimableEvent → Decimal → AssetSpec → Step Decimal
  trim_target e held spec = do
    fraction ←
        or_skip (scale_fraction r e.event.prev_size_coin e.event.size_coin) (because not_mirrorable)
    or_skip (relative_size r held fraction spec.sz_decimals) (because not_mirrorable)

  unfoldable pub exit_target : Leg → ClaimableEvent → Decimal → AssetSpec → Step Decimal
  unfolding trim_target
  exit_target leg e held spec =
      if is_scaling_out leg
      then trim_target e held spec
      else or_skip (round_size held spec.sz_decimals) (because not_mirrorable)

  -- `_exit` up to its claim
  unfoldable pub exit_plan :
      Leg → ClaimableEvent → CopySub → Option AssetSpec → Desk → Step ExitPlan
  unfolding exit_target sub_minimum_skip
  exit_plan leg e sub universe desk = do
    episode ←
        or_skip (live_episode sub.id e.event.coin desk.store.episodes) (because no_local_position)
    position ← or_skip (lookup e.event.coin desk.positions) (because no_local_position)
    held ← or_skip position.size_coin (because no_local_position)
    spec ← or_skip universe (because unorderable)
    target ← exit_target leg e held spec
    sub_minimum_skip target held position.size_usd
    goes (record {
      episode = episode;
      position = position;
      spec = spec;
      held = held;
      target = target;
    })
