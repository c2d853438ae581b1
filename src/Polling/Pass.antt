-- ===== src/Polling/Pass.antt =====
-- `_apply_poll` of stream/poller.py: one wallet's transaction, from the equity observation to the
-- alerts.
use epigone.Prelude.{
  ◌*◌, String, Bool, not, Option, none, some, List, [], ◌∷◌, ◌++◌, if◌then◌else◌, select, member,
  string_eq,
}
use epigone.Decimal.{Decimal, Time, Rounding}
use epigone.Dict.{Dict, insert}
use epigone.Polling.{Lane}
use epigone.Polling.Reconcile.{no_change, is_nil, reconcile, PollLook, Race, Applied}
use epigone.Positions.{
  diff_positions, events_of, remembered, apply_changes, Position, SnapshotState, CoinChange,
}
use epigone.Withdrawals.{
  record_equity, max_observation_gap_intervals, detect_withdrawal, EquityObservation, Withdrawal,
}
use epigone.Publication.{queue_withdrawal_alerts, Follower, Tables}

pub record AccountState : Type 0 where
  pub account_value : Decimal
  pub positions : List Position

-- The row of `position_poll_state`.
pub record PollState : Type 0 where
  pub baselined_at : Time
  pub last_polled_at : Time
  pub reconcile_pending : Option (List String)
  pub reconcile_since : Option Time

-- What the transaction reads and writes: the poller's and the websocket's memory of this wallet,
-- and the tables that wallets share.
pub record PollWorld : Type 0 where
  pub state : Option PollState
  pub memory : Dict String SnapshotState
  pub lane : Lane
  pub equity : Dict String EquityObservation
  pub tables : Tables

-- the baselining pass's rows
remember_all : List Position → Time → Dict String SnapshotState → Dict String SnapshotState
remember_all [] now memory = memory
remember_all (p ∷ ps) now memory = remember_all ps now (insert p.coin (remembered p now) memory)

abbrev pub not_held : List String → CoinChange → Bool
not_held held c = not (member c.coin held)

abbrev pub or_else {ℓ} : {A : Type ℓ} → Option A → A → A
or_else none d = d
or_else (some a) d = a

-- the look that `_reconcile` is called with
abbrev pub look_of : String → AccountState → Time → PollState → PollWorld → PollLook
look_of address account now row w = record {
  address = address;
  positions = account.positions;
  now = now;
  since = row.last_polled_at;
  pending = or_else row.reconcile_pending [];
  doubted_since = or_else row.reconcile_since row.last_polled_at;
  poller_baselined_at = row.baselined_at;
  memory = w.memory;
  lane = w.lane;
}

-- the update of the row
abbrev pub polled : Applied → Time → PollState → PollState
polled applied now row = record row {
  last_polled_at = now;
  reconcile_pending = if is_nil applied.held then none else some applied.held;
  reconcile_since = if is_nil applied.held then none else applied.held_since;
}

abbrev with_alerts : List Follower → String → Option Withdrawal → Time → Tables → Tables
with_alerts followers address none now t = t
with_alerts followers address (some w) now t = record t {
  withdrawals = t.withdrawals ++ queue_withdrawal_alerts followers address w now;
}

module _ (r : Rounding) (followers : List Follower) (address : String) (account : AccountState)
    (now interval : Time) where
  -- what the transaction commits, given the memory that the changes leave
  unfoldable pub committed :
      PollState
      → Option EquityObservation
      → PollWorld
      → Tables × Applied
      → Dict String SnapshotState
      → PollWorld
  unfolding detect_withdrawal
  committed row previous_equity w (t, applied) memory = record w {
    state = some (polled applied now row);
    memory = memory;
    tables =
        with_alerts followers address
          (detect_withdrawal r previous_equity account.account_value w.memory account.positions now
            (max_observation_gap_intervals * interval))
          now t;
  }

  -- everything after the judgement
  unfoldable pub finish :
      PollState
      → Option EquityObservation
      → PollWorld
      → Tables × Applied
      → Option (PollWorld × Applied)
  unfolding committed
  finish row previous_equity w (t, applied) =
      let changes = diff_positions r w.memory account.positions now in
      elim (apply_changes (select (not_held applied.held) changes) w.memory) [
        | none ↦ none
        | some memory ↦ some (committed row previous_equity w (t, applied) memory, applied)
      ]

  unfoldable pub judged : PollState → Race → PollWorld → Option (Tables × Applied)
  judged row race w =
      let events = events_of (diff_positions r w.memory account.positions now) in
      if is_nil events
      then some (w.tables, no_change)
      else reconcile r followers (look_of address account now row w) race events w.tables

  -- a wallet that has been polled before
  unfoldable pub poll_again :
      PollState → Race → Option EquityObservation → PollWorld → Option (PollWorld × Applied)
  unfolding judged finish
  poll_again row race previous_equity w = elim (judged row race w) [
    | none ↦ none
    | some done ↦ finish row previous_equity w done
  ]

  -- a wallet's first pass
  unfoldable pub baseline : PollWorld → PollWorld × Applied
  unfolding remember_all
  baseline w = (
    record w {
      state = some (record {
        baselined_at = now;
        last_polled_at = now;
        reconcile_pending = none;
        reconcile_since = none;
      });
      memory = remember_all account.positions now w.memory;
    },
    no_change,
  )

  unfoldable pub poll_by :
      Option PollState → Race → Option EquityObservation → PollWorld → Option (PollWorld × Applied)
  unfolding poll_again baseline
  poll_by none race previous_equity w = some (baseline w)
  poll_by (some row) race previous_equity w = poll_again row race previous_equity w

  unfoldable pub apply_poll : Race → PollWorld → Option (PollWorld × Applied)
  unfolding record_equity poll_by
  apply_poll race w =
      let (equity, previous) = record_equity address account.account_value now w.equity in
      poll_by w.state race previous (record w { equity = equity })
