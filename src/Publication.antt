-- ===== src/Publication.antt =====
-- src/epigone/position_publish.py, with what it writes through: `record_events` of
-- position_events.py, `mark_due_now` of ingest/fine.py, and the withdrawal alerts that
-- stream/poller.py queues beside it. The followers of a Trader, as the join reads them, are an
-- argument. Tables are lists in the order of their ids.
pub mod Fanout
mod Tests
use epigone.Prelude.{
  ℕ, ◌+◌, String, Bool, true, false, ◌&&◌, ◌||◌, not, Option, none, some, List, [], ◌∷◌, ◌++◌, map,
  ltb, leb, if◌then◌else◌, ◌is◌, string_eq,
}
use epigone.Prelude.Int.{ltb_ℤ}
use epigone.Decimal.{Decimal, Time, seconds}
use epigone.Dict.{Dict}
use epigone.Positions.{EventKind, close, flip, PositionEvent}
use epigone.Authority.{owns, Owner, Authority}
use epigone.Withdrawals.{Withdrawal}

-- A row of `tracks`, with the global floor of its User.
pub record Follower : Type 0 where
  pub user : ℕ
  pub muted : Bool
  pub track_min_size : Option Decimal
  pub user_min_size : Option Decimal

pub record EventRow : Type 0 where
  pub address : String
  pub event : PositionEvent
  pub observed_at : Time
  pub source : Owner
  pub authoritative : Bool

pub record PositionAlert : Type 0 where
  pub user : ℕ
  pub address : String
  pub event : PositionEvent
  pub created_at : Time

pub record WithdrawalAlert : Type 0 where
  pub user : ℕ
  pub address : String
  pub withdrawal : Withdrawal
  pub created_at : Time

-- What the fine pass keeps of a Trader.
pub record Fine : Type 0 where
  pub refreshed_at : Option Time
  pub attempted_at : Option Time

-- The tables that a publication reads and writes.
pub record Tables : Type 0 where
  pub authority : Option Authority
  pub events : List EventRow
  pub alerts : List PositionAlert
  pub withdrawals : List WithdrawalAlert
  pub traders : Dict String Fine

abbrev pub position_event_retention : Time
position_event_retention = seconds 604800

abbrev pub mark_due_freshness : Time
mark_due_freshness = seconds 900

pub event_row : String → Time → Owner → Bool → PositionEvent → EventRow
event_row address now source authoritative e = record {
  address = address;
  event = e;
  observed_at = now;
  source = source;
  authoritative = authoritative;
}

pub prune : Time → List EventRow → List EventRow
prune now [] = []
prune now (row ∷ rows) =
    let rest = prune now rows in
    if ltb (row.observed_at + position_event_retention) now then rest else row ∷ rest

-- `record_events`
pub record_events :
    String → List PositionEvent → Time → Owner → Bool → List EventRow → List EventRow
unfolding event_row prune
record_events address events now source authoritative rows =
    prune now (rows ++ map (event_row address now source authoritative) events)

abbrev pub min_size : Follower → Option Decimal
min_size f = elim f.track_min_size [ none ↦ f.user_min_size | some floor ↦ some floor ]

-- `_below_floor`
pub is_below_floor : PositionEvent → Option Decimal → Bool
is_below_floor e none = false
is_below_floor e (some floor) = elim e.size_usd [ none ↦ false | some size ↦ ltb_ℤ size floor ]

-- the inner loop of the fan-out
alerts_to : Follower → String → Time → List PositionEvent → List PositionAlert
unfolding is_below_floor
alerts_to f address now [] = []
alerts_to f address now (e ∷ es) =
    let rest = alerts_to f address now es in
    if is_below_floor e (min_size f)
    then rest
    else record { user = f.user; address = address; event = e; created_at = now } ∷ rest

-- the rows of `queue_alerts`
pub queue_alerts : List Follower → String → List PositionEvent → Time → List PositionAlert
unfolding alerts_to
queue_alerts [] address events now = []
queue_alerts (f ∷ fs) address events now =
    (if f.muted then [] else alerts_to f address now events) ++ queue_alerts fs address events now

-- the rows of `_queue_withdrawal_alerts`
pub queue_withdrawal_alerts : List Follower → String → Withdrawal → Time → List WithdrawalAlert
queue_withdrawal_alerts [] address w now = []
queue_withdrawal_alerts (f ∷ fs) address w now =
    let rest = queue_withdrawal_alerts fs address w now in
    if f.muted
    then rest
    else record { user = f.user; address = address; withdrawal = w; created_at = now } ∷ rest

abbrev is_stale : Time → Fine → Bool
is_stale now fine = elim fine.refreshed_at [
  | none ↦ true
  | some at ↦ leb (at + mark_due_freshness) now
]

abbrev due_now : Fine
due_now = record { refreshed_at = none; attempted_at = none }

-- `mark_due_now`: the table afterwards
pub mark_due_now : String → Time → Dict String Fine → Dict String Fine
mark_due_now address now [] = []
mark_due_now address now ((a, fine) ∷ rest) =
    (a, if (a is address) && is_stale now fine then due_now else fine)
    ∷ mark_due_now address now rest

-- A change that mints a round trip.
abbrev pub is_closing : EventKind → Bool
is_closing close = true
is_closing flip = true
is_closing _ = false

pub any_closing : List PositionEvent → Bool
any_closing [] = false
any_closing (e ∷ es) = is_closing e.kind || any_closing es

-- `publish`: whether the events were authoritative, and the tables afterwards
pub publish : List Follower → String → List PositionEvent → Time → Owner → Tables → Bool × Tables
unfolding record_events queue_alerts any_closing mark_due_now
publish followers address events now source t =
    let authoritative = owns t.authority source in
    let recorded = record_events address events now source authoritative t.events in
    (
      authoritative,
      if not authoritative then record t { events = recorded } else record t {
        events = recorded;
        alerts = t.alerts ++ queue_alerts followers address events now;
        traders = if any_closing events then mark_due_now address now t.traders else t.traders;
      },
    )
