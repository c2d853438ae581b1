-- ===== src/Withdrawals/Tests.antt =====
-- A Trader with a million dollars and one position takes 300,000 out, and the theorems there.
use epigone.Withdrawals.Book.{IsKept, is_held, is_reduced, held_pnl, gone_notional, IsUnreduced}
use epigone.Withdrawals.Alert.{
  outflow_of, passes, detect_withdrawal-IsReported, detect_withdrawal-judge_outflow,
  detect_withdrawal-quiet, poll_equity-poll_equity, poll_equity_previous, Pass,
}
use epigone.Prelude.{
  ◌-◌, ◌*◌, ◌≤◌, String, ◌≡◌, refl, Option, none, some, [], ◌∷◌, arith, All, string_eq,
}
use epigone.Prelude.Int.{◌+ℤ◌, ◌-ℤ◌, ◌≤ℤ◌, pos}
use epigone.Decimal.{seconds, whole, hundredths, ◌<ℤ◌}
use epigone.Dict.{Dict, lookup, insert, index}
use epigone.Withdrawals.{
  max_observation_gap_intervals, pnl_now, read_prior_book, judge_outflow, detect_withdrawal,
  poll_equity, EquityObservation, Withdrawal,
}
use epigone.Positions.{long, short, Position, SnapshotState}
use epigone.Decimal.Truncating.{mag, cut, truncating, truncating-IsFaithful}

abbrev held_btc : Position
held_btc = record {
  coin = "BTC";
  side = long;
  size_usd = whole 50000;
  leverage = whole 10;
  entry_price = whole 50000;
  unrealized_pnl = whole 700;
  size_coin = some (whole 1);
  margin_used = none;
  return_on_equity = none;
}

abbrev seen_btc : SnapshotState
seen_btc = record {
  coin = "BTC";
  side = long;
  size_usd = whole 49300;
  leverage = whole 10;
  entry_price = whole 50000;
  unrealized_pnl = whole 700;
  opened_at = 7;
  size_coin = some (whole 1);
}

abbrev book : Dict String SnapshotState
book = ("BTC", seen_btc) ∷ ("ETH", record seen_btc { side = short }) ∷ []

abbrev million : EquityObservation
million = record { account_value = whole 1000000; observed_at = seconds 100 }

abbrev left : Withdrawal
left = record {
  amount_usd = whole 299300;
  prior_equity = whole 1000000;
  equity_usd = whole 700000;
  observed_at = seconds 100;
}

-- The ETH short closed beside it: its 700 were realized and stay in the account.
test_leaves :
    detect_withdrawal truncating
      (some million)
      (whole 700000)
      book
      (held_btc ∷ [])
      (seconds 110)
      (seconds 60)
    ≡ some (record left { amount_usd = whole 300000 })
unfolding detect_withdrawal truncating cut mag ◌+ℤ◌ ◌-ℤ◌ lookup insert index pnl_now
test_leaves = refl

-- The same fall beside a closed position of ten million is within an unseen move.
test_allowance :
    detect_withdrawal truncating
      (some million)
      (whole 700000)
      (("BTC", seen_btc)
        ∷ ("ETH", record seen_btc { size_usd = whole 10000000; unrealized_pnl = pos 0 })
        ∷ [])
      (held_btc ∷ [])
      (seconds 110)
      (seconds 60)
    ≡ none
unfolding detect_withdrawal truncating cut mag ◌+ℤ◌ ◌-ℤ◌ lookup insert index pnl_now
test_allowance = refl

kept : All (IsKept truncating) book
unfolding truncating cut mag
kept = (((refl, refl), (refl, refl)), (((refl, refl), (refl, refl)), tt))

unreduced : IsUnreduced (index (λ (p : Position). p.coin) (held_btc ∷ [])) book
unfolding index insert lookup is_reduced
unreduced = (refl, (refl, tt))

small :
    (million.account_value +ℤ pnl_now (held_btc ∷ [])) -ℤ whole 1000
    <ℤ whole 999001 +ℤ held_pnl (index (λ (p : Position). p.coin) (held_btc ∷ [])) book
unfolding held_pnl pnl_now is_held index insert lookup ◌+ℤ◌ ◌-ℤ◌
small = omega arith

same_pnl :
    pnl_now (held_btc ∷ []) ≡ held_pnl (index (λ (p : Position). p.coin) (held_btc ∷ [])) book
unfolding held_pnl pnl_now is_held index insert lookup ◌+ℤ◌ ◌-ℤ◌
same_pnl = refl

abbrev another : Pass
another = record {
  address = "0xb";
  equity = whole 5;
  snapshots = [];
  positions = [];
  now = seconds 115;
}

detect_withdrawal-IsReported_example :
    let book' = read_prior_book truncating book (held_btc ∷ []) in
    (◌≡◌ {A = Option EquityObservation}
      (some million)
      (some (record { account_value = whole 1000000; observed_at = seconds 100 })))
    × (seconds 110 - seconds 100 ≤ seconds 60)
    × (pos 0 <ℤ whole 1000000)
    × (left.equity_usd ≡ whole 700000)
    × (whole 300000
        ≡ (pnl_now (held_btc ∷ []) -ℤ book'.retained_pnl) -ℤ (whole 700000 -ℤ whole 1000000))
    × (whole 1000 ≤ℤ whole 300000)
    × (hundredths 25 ≤ℤ truncating.div (whole 300000) (whole 1000000))
    × (truncating.mul book'.departed_notional (hundredths 5) <ℤ whole 300000)
detect_withdrawal-IsReported_example =
    detect_withdrawal-IsReported truncating (some million) (whole 700000) book (held_btc ∷ [])
      (seconds 110) (seconds 60) (record left { amount_usd = whole 300000 }) test_leaves

detect_withdrawal-judge_outflow_example :
    detect_withdrawal truncating
      (some million)
      (whole 700000)
      book
      (held_btc ∷ [])
      (seconds 110)
      (seconds 60)
    ≡ judge_outflow truncating million
        (whole 700000)
        (outflow_of million (whole 700000) book (held_btc ∷ []))
        (gone_notional (index (λ (p : Position). p.coin) (held_btc ∷ [])) book)
detect_withdrawal-judge_outflow_example =
    detect_withdrawal-judge_outflow truncating truncating-IsFaithful million (whole 700000) book
      (held_btc ∷ []) (seconds 110) (seconds 60) (omega arith, omega arith) unreduced kept

detect_withdrawal-quiet_example :
    detect_withdrawal truncating
      (some million)
      (whole 999001)
      book
      (held_btc ∷ [])
      (seconds 110)
      (seconds 60)
    ≡ none
detect_withdrawal-quiet_example =
    detect_withdrawal-quiet truncating truncating-IsFaithful million (whole 999001) book
      (held_btc ∷ []) (seconds 110) (seconds 60) unreduced kept small

poll_equity-poll_equity_example :
    (poll_equity truncating "0xa"
      (whole 700000)
      book
      (held_btc ∷ [])
      (seconds 120)
      (seconds 10)
      (poll_equity truncating "0xa"
        (whole 700000)
        []
        []
        (seconds 110)
        (seconds 10)
        (("0xa", million) ∷ [])).0).1
    ≡ none
poll_equity-poll_equity_example =
    poll_equity-poll_equity truncating truncating-IsFaithful "0xa" (whole 700000) [] book []
      (held_btc ∷ []) (seconds 110) (seconds 120) (seconds 10) (("0xa", million) ∷ []) unreduced
      kept same_pnl

poll_equity_previous_example :
    (poll_equity truncating "0xa" (whole 400000) book (held_btc ∷ []) (seconds 120) (seconds 10) (
      passes truncating
        (seconds 10)
        (another ∷ [])
        (poll_equity truncating "0xa"
          (whole 700000)
          []
          []
          (seconds 110)
          (seconds 10)
          (("0xa", million) ∷ [])).0)).1
    ≡ detect_withdrawal truncating
        (some (record { account_value = whole 700000; observed_at = seconds 110 }))
        (whole 400000)
        book
        (held_btc ∷ [])
        (seconds 120)
        (max_observation_gap_intervals * seconds 10)
poll_equity_previous_example =
    poll_equity_previous truncating "0xa" (whole 700000) (whole 400000) [] book [] (held_btc ∷ [])
      (seconds 110) (seconds 120) (seconds 10) (another ∷ []) (("0xa", million) ∷ []) (refl, tt)
