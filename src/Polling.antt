-- ===== src/Polling.antt =====
-- src/epigone/stream/poller.py: what one poll pass makes of one wallet while the websocket lane
-- may own production. This file has the evidence that a pass reads: which way a change moves,
-- what the websocket's rows cover, and what its memory still owes.
pub mod Reconcile
pub mod Pass
pub mod Evidence
pub mod Books
pub mod Memory
pub mod Looks
pub mod Loop
pub mod Wallets
mod Tests
use epigone.Prelude.{
  ◌-◌, max, String, Bool, true, false, ◌&&◌, not, Option, none, some, List, [], ◌∷◌, ◌++◌, map, ltb,
  leb, if◌then◌else◌, any_of, every_of, ◌is◌, member, string_eq,
}
use epigone.Decimal.{Time, seconds, Rounding}
use epigone.Dict.{Dict}
use epigone.Positions.{
  diff_positions, EventKind, opened, close, flip, scale_in, scale_out, Position, SnapshotState,
  PositionEvent, CoinChange,
}
use epigone.Authority.{is_ws}
use epigone.Publication.{EventRow}

pub data Direction : Type 0 where
  entry exit : Direction

-- `_DIRECTIONS`
pub directions : EventKind → List Direction
directions opened = entry ∷ []
directions scale_in = entry ∷ []
directions close = exit ∷ []
directions scale_out = exit ∷ []
directions flip = entry ∷ exit ∷ []

abbrev same_direction : Direction → Direction → Bool
same_direction entry entry = true
same_direction exit exit = true
same_direction _ _ = false

pub moves : EventKind → Direction → Bool
unfolding directions
moves k d = any_of (same_direction d) (directions k)

abbrev pub reconcile_grace : Time
reconcile_grace = seconds 30

abbrev pub ws_baseline_grace : Time
ws_baseline_grace = seconds 180

-- `covered` of the source: when the websocket last wrote a row of a coin and a direction
abbrev pub Covered : Type 0
Covered = String → Direction → Option Time

pub record WsRows : Type 0 where
  pub produced : Covered
  pub observed : Covered

abbrev pub later_of : Option Time → Time → Time
later_of none t = t
later_of (some s) t = max s t

pub latest : (EventRow → Bool) → List EventRow → Option Time
latest keep [] = none
latest keep (row ∷ rows) =
    let rest = latest keep rows in if keep row then some (later_of rest row.observed_at) else rest

-- the query's condition, and the loop's key
abbrev pub is_of : String → Time → String → Direction → EventRow → Bool
is_of address since coin d row =
    (row.address is address)
    && is_ws row.source
    && leb since row.observed_at
    && (row.event.coin is coin)
    && moves row.event.kind d

-- `_websocket_rows`
pub websocket_rows : String → Time → List EventRow → WsRows
unfolding latest moves
websocket_rows address since rows = record {
  produced = λ coin d. latest (λ row. is_of address since coin d row && row.authoritative) rows;
  observed = λ coin d. latest (is_of address since coin d) rows;
}

abbrev pub is_since : Time → Option Time → Bool
is_since no_earlier_than none = false
is_since no_earlier_than (some at) = leb no_earlier_than at

-- the condition of `_legs_covered`
pub is_covered : PositionEvent → Covered → Time → Direction → Bool
is_covered e covered no_earlier_than d = is_since no_earlier_than (covered e.coin d)

-- `_every_leg_covered`
pub every_leg_covered : PositionEvent → Covered → Time → Bool
unfolding is_covered directions
every_leg_covered e covered no_earlier_than =
    every_of (is_covered e covered no_earlier_than) (directions e.kind)

abbrev pub is_flip : EventKind → Bool
is_flip flip = true
is_flip _ = false

-- `_vouched_for`
pub vouched_for : PositionEvent → Covered → Time → List String → Bool
unfolding every_leg_covered
vouched_for e produced no_earlier_than owed =
    every_leg_covered e produced no_earlier_than && not (is_flip e.kind && member e.coin owed)

-- `_left_a_row`
pub left_a_row : PositionEvent → Covered → Time → Bool
unfolding is_covered directions
left_a_row e observed no_earlier_than =
    any_of (is_covered e observed no_earlier_than) (directions e.kind)

pub record LaneMemory : Type 0 where
  pub watching : Bool
  pub owed : List String

-- `still_joining`
pub still_joining : LaneMemory → Time → Time → Bool
still_joining m poller_baselined_at now =
    not m.watching && ltb (now - poller_baselined_at) ws_baseline_grace

-- What the websocket lane keeps of a wallet: whether it watches it, and its own snapshots.
pub record Lane : Type 0 where
  pub watching : Bool
  pub anchor : Dict String SnapshotState

coins_owed : List CoinChange → List String
coins_owed [] = []
coins_owed (c ∷ cs) =
    let rest = coins_owed cs in elim c.event [ none ↦ rest | some _ ↦ c.coin ∷ rest ]

abbrev keys : Dict String SnapshotState → List String
keys d = map (λ e. e.0) d

-- `_lane_memory`, with the poller's own snapshots
pub lane_memory : Rounding → Lane → Dict String SnapshotState → List Position → Time → LaneMemory
unfolding coins_owed
lane_memory r lane memory positions now = record {
  watching = lane.watching;
  owed =
      if lane.watching
      then coins_owed (diff_positions r lane.anchor positions now)
      else map (λ (p : Position). p.coin) positions ++ keys memory;
}
