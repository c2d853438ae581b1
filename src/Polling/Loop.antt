-- ===== src/Polling/Loop.antt =====
-- `run_poll_pass` of stream/poller.py over the wallets of one pass, with `record_rate_limit` of
-- budget.py. What each fetch comes to, and what the websocket commits beside it, is an argument;
-- so are the poll set in its order, as the query gives it, and the Leaders.
use epigone.Prelude.{
  ℕ, suc, ◌+◌, String, Bool, true, false, not, Option, none, some, List, [], ◌∷◌, ◌++◌, ltb, leb,
  if◌then◌else◌, select, member, string_eq,
}
use epigone.Decimal.{Time, seconds, Rounding}
use epigone.Dict.{Dict, lookup, insert}
use epigone.Polling.{Lane}
use epigone.Polling.Reconcile.{Race, Applied}
use epigone.Polling.Pass.{or_else, apply_poll, AccountState, PollState, PollWorld}
use epigone.Positions.{SnapshotState}
use epigone.Authority.{authority_of, is_ws}
use epigone.Withdrawals.{EquityObservation}
use epigone.Publication.{Follower, Tables}

abbrev pub max_consecutive_failures : ℕ
max_consecutive_failures = 5

abbrev poll_interval : Time
poll_interval = seconds 10

abbrev standby_poll_interval : Time
standby_poll_interval = seconds 60

abbrev rate_event_retention : Time
rate_event_retention = seconds 86400

-- How far the writes of a rate-limit event come.
pub data RateWrite : Type 0 where
  unwritten inserted pruned : RateWrite

-- A wallet's fetch: its account at some instant, with what the websocket commits beside the
-- transaction; a 429 that outlasted the retries; or another failure.
pub data Fetch : Type 0 where
  fetched : AccountState → Time → Race → Fetch
  limited : Time → RateWrite → Fetch
  failed_fetch : Fetch

pub record PollStore : Type 0 where
  pub states : Dict String PollState
  pub memories : Dict String (Dict String SnapshotState)
  pub lanes : Dict String Lane
  pub equity : Dict String EquityObservation
  pub tables : Tables
  pub rate_limits : List Time

pub record PollResult : Type 0 where
  pub polled_wallets : ℕ
  pub failed : ℕ
  pub events : ℕ
  pub produced : ℕ
  pub drifted : ℕ
  pub deferred : ℕ
  pub aborted : Bool

-- What the transaction of one wallet reads
pub world_of : String → PollStore → PollWorld
world_of address s = record {
  state = lookup address s.states;
  memory = or_else (lookup address s.memories) [];
  lane = or_else (lookup address s.lanes) (record { watching = false; anchor = [] });
  equity = s.equity;
  tables = s.tables;
}

abbrev pub put_state : String → Option PollState → Dict String PollState → Dict String PollState
put_state address none states = states
put_state address (some row) states = insert address row states

-- What it commits
unfoldable pub store_world : String → PollWorld → PollStore → PollStore
store_world address w s = record s {
  states = put_state address w.state s.states;
  memories = insert address w.memory s.memories;
  equity = w.equity;
  tables = w.tables;
}

prune_limits : Time → List Time → List Time
prune_limits now [] = []
prune_limits now (at ∷ rest) =
    let kept = prune_limits now rest in
    if ltb (at + rate_event_retention) now then kept else at ∷ kept

-- `record_rate_limit`
record_rate_limit : RateWrite → Time → List Time → List Time
unfolding prune_limits
record_rate_limit unwritten now events = events
record_rate_limit inserted now events = events ++ now ∷ []
record_rate_limit pruned now events = prune_limits now (events ++ now ∷ [])

abbrev flag : Bool → ℕ
flag true = 1
flag false = 0

-- the counters after a wallet's transaction
pub counted : Applied → PollResult → PollResult
counted applied n = record n {
  polled_wallets = suc n.polled_wallets;
  events = n.events + applied.events;
  produced = n.produced + applied.produced;
  drifted = n.drifted + flag applied.drifted;
  deferred = n.deferred + flag applied.deferred;
}

abbrev pub one_failed : PollResult → PollResult
one_failed n = record n { failed = suc n.failed }

-- `leaders_first` of poll_set.py, on a set that is sorted already
unfoldable pub leaders_first : (String → Bool) → List String → List String
leaders_first is_leader addresses =
    select is_leader addresses ++ select (λ a. not (is_leader a)) addresses

-- The cadence of the pass
pub interval_of : Tables → Time
interval_of t =
    if is_ws (authority_of t.authority).owner then standby_poll_interval else poll_interval

module _ (r : Rounding) (followers : String → List Follower) (interval : Time) where
  -- one wallet of the loop, with the streak of failures; the rest is the loop from the next one on
  unfoldable pub poll_wallet :
      Fetch
      → String
      → ℕ
      → PollResult
      → PollStore
      → (ℕ → PollResult → PollStore → Option (PollStore × PollResult))
      → Option (PollStore × PollResult)
  unfolding world_of store_world record_rate_limit counted
  poll_wallet (limited now write) address streak n s rest =
      rest streak (one_failed n)
        (record s { rate_limits = record_rate_limit write now s.rate_limits })
  poll_wallet failed_fetch address streak n s rest =
      if leb max_consecutive_failures (suc streak)
      then some (s, record n { failed = suc n.failed; aborted = true })
      else rest (suc streak) (one_failed n) s
  poll_wallet (fetched account now race) address streak n s rest =
      elim (apply_poll r (followers address) address account now interval race
        (world_of address s)) [
          | none ↦ none
          | some (w, applied) ↦ rest 0 (counted applied n) (store_world address w s)
        ]

  unfoldable pub poll_wallets :
      (String → Fetch) → List String → ℕ → PollResult → PollStore → Option (PollStore × PollResult)
  unfolding poll_wallet
  poll_wallets fetch [] streak n s = some (s, n)
  poll_wallets fetch (address ∷ addresses) streak n s =
      poll_wallet (fetch address) address streak n s (poll_wallets fetch addresses)

-- A wallet's memory that is dropped once nobody watches it
unfoldable pub prune_untracked : (String → Bool) → PollStore → PollStore
prune_untracked watched s = record s {
  states = select (λ e. watched e.0) s.states;
  memories = select (λ e. watched e.0) s.memories;
  equity = select (λ e. watched e.0) s.equity;
}

abbrev pub nothing_polled : PollResult
nothing_polled = record {
  polled_wallets = 0;
  failed = 0;
  events = 0;
  produced = 0;
  drifted = 0;
  deferred = 0;
  aborted = false;
}

-- `run_poll_pass`
unfoldable pub run_poll_pass :
    Rounding
    → (String → List Follower)
    → (String → Bool)
    → (String → Fetch)
    → List String
    → PollStore
    → Option (PollStore × PollResult)
unfolding poll_wallets prune_untracked leaders_first interval_of
run_poll_pass r followers is_leader fetch poll_set s =
    let kept = prune_untracked (λ a. member a poll_set) s in
    poll_wallets r followers (interval_of kept.tables) fetch (leaders_first is_leader poll_set) 0
      nothing_polled kept
