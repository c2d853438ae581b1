-- ===== src/Withdrawals/Alert.antt =====
-- When `detect_withdrawal` (withdrawals.py) and the pass that calls it report money leaving.
use epigone.Dict.Laws.{is_refl, lookup-insert}
use epigone.Prelude.{
  ◌-◌, ◌*◌, ◌≤◌, String, ◌≡◌, refl, ◌∙◌, false, Option, none, some, List, [], ◌∷◌, arith, ltb,
  if-intro, All, ◌is◌, string_eq,
}
use epigone.Prelude.Int.{◌+ℤ◌, ◌-ℤ◌, ◌≤ℤ◌, pos, int_laws}
use epigone.Decimal.{Decimal, Time, whole, hundredths, leb_ℤ, ◌<ℤ◌, Rounding, IsFaithful}
use epigone.Dict.{Dict, lookup, insert, index}
use epigone.Withdrawals.{
  record_equity, max_observation_gap_intervals, pnl_now, read_prior_book, judge_outflow,
  detect_since, detect_withdrawal, poll_equity, EquityObservation, Withdrawal,
}
use epigone.Withdrawals.Book.{IsKept, held_pnl, gone_notional, IsUnreduced, read_prior_book_lem}
use epigone.Positions.{Position, SnapshotState}

abbrev at_coin : Position → String
at_coin p = p.coin

-- The outflow of an unreduced book, from the figures alone: what equity fell by, less the change
-- in the PnL of the positions that are all there.
pub outflow_of : EquityObservation → Decimal → Dict String SnapshotState → List Position → Decimal
outflow_of prior equity_now snapshots positions =
    let standing = held_pnl (index (λ (p : Position). p.coin) positions) snapshots in
    (pnl_now positions -ℤ standing) -ℤ (equity_now -ℤ prior.account_value)

-- A first look to compare with: not too old, and of an account that was worth something.
abbrev pub IsBaseline : EquityObservation → Time → Time → Type 0
IsBaseline prior now max_gap = (now - prior.observed_at ≤ max_gap) × (pos 0 <ℤ prior.account_value)

outflow_small :
    (prior : EquityObservation) (equity_now : Decimal) (snapshots : Dict String SnapshotState)
    (positions : List Position)
    → (prior.account_value +ℤ pnl_now positions) -ℤ whole 1000
      <ℤ equity_now +ℤ held_pnl (index (λ (p : Position). p.coin) positions) snapshots
    → outflow_of prior equity_now snapshots positions <ℤ whole 1000
unfolding outflow_of
outflow_small prior equity_now snapshots positions h = omega int_laws

-- One pass over some wallet.
pub record Pass : Type 0 where
  pub address : String
  pub equity : Decimal
  pub snapshots : Dict String SnapshotState
  pub positions : List Position
  pub now : Time

-- The passes of a poll in their order: the table that they leave.
pub passes :
    Rounding → Time → List Pass → Dict String EquityObservation → Dict String EquityObservation
passes r interval [] table = table
passes r interval (o ∷ rest) table =
    passes r interval rest
      (poll_equity r o.address o.equity o.snapshots o.positions o.now interval table).0

lookup-insert_self :
    (k : String) (v : EquityObservation) (d : Dict String EquityObservation)
    → lookup k (insert k v d) ≡ some v
lookup-insert_self k v d = rw (lookup-insert k k v d, is_refl k)

lookup-passes :
    (r : Rounding) (address : String) (interval : Time) (others : List Pass)
    (table : Dict String EquityObservation)
    → All (λ (o : Pass). (o.address is address) ≡ false) others
    → lookup address (passes r interval others table) ≡ lookup address table
unfolding passes poll_equity record_equity
lookup-passes r address interval [] table h = refl
lookup-passes r address interval (o ∷ rest) table h =
    lookup-passes r address interval rest _ h.1 ∙ lookup-insert o.address address _ table ∙ rw h.0

module _ (r : Rounding) where
  -- Every report rests on a previous observation that is recent and positive, and carries it; the
  -- amount is the change that PnL explains less the change in equity, is at least a thousand
  -- dollars and a quarter of the prior equity, and exceeds what an unseen move of a twentieth on
  -- the size that left could have realized.
  pub detect_withdrawal-IsReported :
      (previous : Option EquityObservation) (equity_now : Decimal)
      (snapshots : Dict String SnapshotState) (positions : List Position) (now max_gap : Time)
      (w : Withdrawal)
      → detect_withdrawal r previous equity_now snapshots positions now max_gap ≡ some w
      → let book = read_prior_book r snapshots positions in
        (previous ≡ some (record { account_value = w.prior_equity; observed_at = w.observed_at }))
        × (now - w.observed_at ≤ max_gap)
        × (pos 0 <ℤ w.prior_equity)
        × (w.equity_usd ≡ equity_now)
        × (w.amount_usd
            ≡ (pnl_now positions -ℤ book.retained_pnl) -ℤ (equity_now -ℤ w.prior_equity))
        × (whole 1000 ≤ℤ w.amount_usd)
        × (hundredths 25 ≤ℤ r.div w.amount_usd w.prior_equity)
        × (r.mul book.departed_notional (hundredths 5) <ℤ w.amount_usd)
  unfolding detect_withdrawal detect_since judge_outflow
  detect_withdrawal-IsReported none equity_now snapshots positions now max_gap w h = cc
  detect_withdrawal-IsReported (some prior) equity_now snapshots positions now max_gap w h =
      ground arith

  judge_outflow_small :
      (prior : EquityObservation) (equity_now outflow departed : Decimal)
      → outflow <ℤ whole 1000
      → judge_outflow r prior equity_now outflow departed ≡ none
  unfolding judge_outflow
  judge_outflow_small prior equity_now outflow departed h = ground arith

  module _ (faithful : IsFaithful r) where
    -- Against a recent and positive observation, and when no position was reduced and products by
    -- one and by zero are exact, the detection is the judgement of two sums of the figures alone:
    -- the fall in equity less the change in PnL of the positions that are all there, and the
    -- remembered notional of the positions that are gone or on the other side.
    pub detect_withdrawal-judge_outflow :
        (prior : EquityObservation) (equity_now : Decimal) (snapshots : Dict String SnapshotState)
        (positions : List Position) (now max_gap : Time)
        → IsBaseline prior now max_gap
        → IsUnreduced (index (λ (p : Position). p.coin) positions) snapshots
        → All (IsKept r) snapshots
        → detect_withdrawal r (some prior) equity_now snapshots positions now max_gap
          ≡ judge_outflow r prior equity_now
              (outflow_of prior equity_now snapshots positions)
              (gone_notional (index (λ (p : Position). p.coin) positions) snapshots)
    unfolding detect_withdrawal detect_since outflow_of
    detect_withdrawal-judge_outflow prior equity_now snapshots positions now max_gap b h k =
        rw (read_prior_book_lem r faithful snapshots positions h k) (ground arith)

    -- A losing Trader is not a leaving one: whatever the previous observation, when no position
    -- was reduced and equity fell by less than a thousand dollars more than the PnL of the
    -- positions that are all there, nothing is reported. A rise of equity with unchanged PnL and
    -- a close or a flip that leaves equity where it was are cases.
    pub detect_withdrawal-quiet :
        (prior : EquityObservation) (equity_now : Decimal) (snapshots : Dict String SnapshotState)
        (positions : List Position) (now max_gap : Time)
        → IsUnreduced (index (λ (p : Position). p.coin) positions) snapshots
        → All (IsKept r) snapshots
        → (prior.account_value +ℤ pnl_now positions) -ℤ whole 1000
          <ℤ equity_now +ℤ held_pnl (index (λ (p : Position). p.coin) positions) snapshots
        → detect_withdrawal r (some prior) equity_now snapshots positions now max_gap ≡ none
    unfolding detect_withdrawal detect_since outflow_of
    detect_withdrawal-quiet prior equity_now snapshots positions now max_gap h k small =
        rw (read_prior_book_lem r faithful snapshots positions h k) (
          if-intro (λ (x : Option Withdrawal). x ≡ none) (ltb max_gap (now - prior.observed_at))
            (λ _. refl)
            (λ _.
              if-intro (λ (x : Option Withdrawal). x ≡ none) (leb_ℤ prior.account_value (pos 0))
                (λ _. refl)
                (λ _.
                  judge_outflow_small prior equity_now
                    (outflow_of prior equity_now snapshots positions) _
                    (outflow_small prior equity_now snapshots positions small))))

    -- An alert is not repeated: after a pass that recorded some figure of a wallet, whatever that
    -- pass reported, a next pass that sees the same figure, no position reduced and a total PnL
    -- that is that of the positions which are all there reports nothing.
    pub poll_equity-poll_equity :
        (address : String) (equity : Decimal) (before snapshots : Dict String SnapshotState)
        (first positions : List Position) (t₀ t₁ interval : Time)
        (table : Dict String EquityObservation)
        → IsUnreduced (index (λ (p : Position). p.coin) positions) snapshots
        → All (IsKept r) snapshots
        → pnl_now positions ≡ held_pnl (index (λ (p : Position). p.coin) positions) snapshots
        → (poll_equity r address equity snapshots positions t₁ interval
            (poll_equity r address equity before first t₀ interval table).0).1
          ≡ none
    unfolding poll_equity record_equity
    poll_equity-poll_equity address equity before snapshots first positions t₀ t₁ interval table h k
          same =
        let seen : EquityObservation = record { account_value = equity; observed_at = t₀ } in
        rw (lookup-insert_self address seen table) (
          detect_withdrawal-quiet seen equity snapshots positions t₁
            (max_observation_gap_intervals * interval) h k (rw same (omega int_laws)))

  -- What a pass replaces is what the last pass over that wallet recorded: between the two any
  -- passes over other wallets may run, and the later pass is judged against exactly the figure
  -- and the instant of the earlier one.
  pub poll_equity_previous :
      (address : String) (e₀ e₁ : Decimal) (b₀ b₁ : Dict String SnapshotState)
      (p₀ p₁ : List Position) (t₀ t₁ interval : Time) (others : List Pass)
      (table : Dict String EquityObservation)
      → All (λ (o : Pass). (o.address is address) ≡ false) others
      → (poll_equity r address e₁ b₁ p₁ t₁ interval
          (passes r interval others (poll_equity r address e₀ b₀ p₀ t₀ interval table).0)).1
        ≡ detect_withdrawal r
            (some (record { account_value = e₀; observed_at = t₀ }))
            e₁
            b₁
            p₁
            t₁
            (max_observation_gap_intervals * interval)
  unfolding poll_equity record_equity
  poll_equity_previous address e₀ e₁ b₀ b₁ p₀ p₁ t₀ t₁ interval others table h =
      let seen : EquityObservation = record { account_value = e₀; observed_at = t₀ } in
      rw (
        lookup-passes r address interval others (insert address seen table) h,
        lookup-insert_self address seen table,
      )
