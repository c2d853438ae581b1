-- ===== src/Withdrawals.antt =====
-- src/epigone/withdrawals.py, the record that trader_equity.py overwrites, and the two steps of a
-- poll pass (stream/poller.py) that join them: money leaving a Trader's account, inferred from two
-- looks at it. The table of equity is a dictionary by address; what the decimal context rounds is
-- the parameter.
pub mod Book
pub mod Alert
mod Tests
use epigone.Prelude.{
  ℕ, ◌-◌, ◌*◌, String, Option, none, some, List, [], ◌∷◌, map, ltb, if◌then◌else◌, string_eq,
}
use epigone.Prelude.Int.{◌+ℤ◌, ◌-ℤ◌, ltb_ℤ, pos}
use epigone.Decimal.{Decimal, Time, whole, hundredths, leb_ℤ, min_ℤ, sum_ℤ, Rounding}
use epigone.Dict.{Dict, lookup, insert, index}
use epigone.Positions.{same_side, Position, SnapshotState}

pub record EquityObservation : Type 0 where
  pub account_value : Decimal
  pub observed_at : Time

-- `record_equity`: the table afterwards, and the observation that was replaced
unfoldable pub record_equity :
    String
    → Decimal
    → Time
    → Dict String EquityObservation
    → Dict String EquityObservation × Option EquityObservation
record_equity address account_value now table = (
  insert address (record { account_value = account_value; observed_at = now }) table,
  lookup address table,
)

abbrev pub withdrawal_fraction_threshold : Decimal
withdrawal_fraction_threshold = hundredths 25

abbrev pub withdrawal_floor_usd : Decimal
withdrawal_floor_usd = whole 1000

abbrev pub max_observation_gap_intervals : ℕ
max_observation_gap_intervals = 6

abbrev pub unseen_move_fraction : Decimal
unseen_move_fraction = hundredths 5

pub record Withdrawal : Type 0 where
  pub amount_usd : Decimal
  pub prior_equity : Decimal
  pub equity_usd : Decimal
  pub observed_at : Time

pub record PriorBook : Type 0 where
  pub retained_pnl : Decimal
  pub departed_notional : Decimal

-- What the two looks measure a position by: coin units where both have them, notional otherwise
pub before_after : Option Decimal → Option Decimal → Decimal → Decimal → Decimal × Decimal
before_after (some before) (some after) _ _ = (before, after)
before_after (some _) none before after = (before, after)
before_after none _ before after = (before, after)

pub pnl_now : List Position → Decimal
pnl_now positions = sum_ℤ (map (λ p. p.unrealized_pnl) positions)

module _ (r : Rounding) where
  -- the last two statements of `_fraction_still_held`
  pub share_left : Decimal × Decimal → Decimal
  share_left (before, after) =
      if leb_ℤ before (pos 0) then whole 1 else min_ℤ (whole 1) (r.div after before)

  -- `_fraction_still_held`
  pub fraction_still_held : SnapshotState → Option Position → Decimal
  unfolding before_after share_left
  fraction_still_held s none = pos 0
  fraction_still_held s (some p) =
      if same_side s.side p.side
      then share_left (before_after s.size_coin p.size_coin s.size_usd p.size_usd)
      else pos 0

  -- the loop of `_read_prior_book`
  pub walk_book : Dict String Position → Dict String SnapshotState → PriorBook → PriorBook
  unfolding fraction_still_held
  walk_book current [] book = book
  walk_book current ((coin, s) ∷ rest) book =
      let held = fraction_still_held s (lookup coin current) in
      walk_book current rest (record {
        retained_pnl = book.retained_pnl +ℤ r.mul s.unrealized_pnl held;
        departed_notional = book.departed_notional +ℤ r.mul s.size_usd (whole 1 -ℤ held);
      })

  -- `_read_prior_book`
  pub read_prior_book : Dict String SnapshotState → List Position → PriorBook
  unfolding walk_book
  read_prior_book snapshots positions =
      walk_book (index (λ (p : Position). p.coin) positions) snapshots
        (record { retained_pnl = pos 0; departed_notional = pos 0 })

  -- the thresholds at the end of `detect_withdrawal`, on the outflow and the departed notional
  pub judge_outflow : EquityObservation → Decimal → Decimal → Decimal → Option Withdrawal
  judge_outflow prior equity_now outflow departed =
      if ltb_ℤ outflow withdrawal_floor_usd
      then none
      else if ltb_ℤ (r.div outflow prior.account_value) withdrawal_fraction_threshold
      then none
      else if leb_ℤ outflow (r.mul departed unseen_move_fraction)
      then none
      else some (record {
        amount_usd = outflow;
        prior_equity = prior.account_value;
        equity_usd = equity_now;
        observed_at = prior.observed_at;
      })

  -- `detect_withdrawal`, past the first guard
  pub detect_since :
      EquityObservation
      → Decimal
      → Dict String SnapshotState
      → List Position
      → Time
      → Time
      → Option Withdrawal
  unfolding read_prior_book judge_outflow pnl_now
  detect_since prior equity_now snapshots positions now max_gap =
      if ltb max_gap (now - prior.observed_at)
      then none
      else if leb_ℤ prior.account_value (pos 0)
      then none
      else let book = read_prior_book snapshots positions in
        let explained = pnl_now positions -ℤ book.retained_pnl in
        judge_outflow prior equity_now (explained -ℤ (equity_now -ℤ prior.account_value))
          book.departed_notional

  unfoldable pub detect_withdrawal :
      Option EquityObservation
      → Decimal
      → Dict String SnapshotState
      → List Position
      → Time
      → Time
      → Option Withdrawal
  unfolding detect_since
  detect_withdrawal none equity_now snapshots positions now max_gap = none
  detect_withdrawal (some prior) equity_now snapshots positions now max_gap =
      detect_since prior equity_now snapshots positions now max_gap

  -- The equity of a pass over a baselined wallet (`_apply_poll`): what is recorded, and whether
  -- an alert is queued
  pub poll_equity :
      String
      → Decimal
      → Dict String SnapshotState
      → List Position
      → Time
      → Time
      → Dict String EquityObservation
      → Dict String EquityObservation × Option Withdrawal
  unfolding record_equity detect_withdrawal
  poll_equity address equity_now snapshots positions now interval table =
      let (next, previous) = record_equity address equity_now now table in
      (
        next,
        detect_withdrawal previous equity_now snapshots positions now
            (max_observation_gap_intervals * interval),
      )
