-- ===== src/Positions.antt =====
-- src/epigone/position_diff.py, with the Position of gateway/__init__.py, the PositionEvent of
-- position_events.py, and the memory that position_snapshots.py keeps: what a Trader did, derived
-- from two observations of their positions. A side's word is its enum member; coins are texts.
pub mod Memory
pub mod Verdict
pub mod Partial
pub mod Scale
pub mod Quiet
mod Tests
use epigone.Prelude.{
  String, Bool, true, false, ◌&&◌, Option, none, some, List, [], ◌∷◌, ◌++◌, if◌then◌else◌,
  string_eq,
}
use epigone.Prelude.Int.{◌-ℤ◌, ltb_ℤ, pos}
use epigone.Decimal.{Decimal, Time, hundredths, leb_ℤ, abs, Rounding}
use epigone.Dict.{Dict, lookup, contains, insert, erase, index}

pub data Side : Type 0 where
  long short : Side

abbrev pub same_side : Side → Side → Bool
same_side long long = true
same_side short short = true
same_side _ _ = false

pub data EventKind : Type 0 where
  opened close flip scale_in scale_out : EventKind

pub record Position : Type 0 where
  pub coin : String
  pub side : Side
  pub size_usd : Decimal
  pub leverage : Decimal
  pub entry_price : Decimal
  pub unrealized_pnl : Decimal
  pub size_coin : Option Decimal
  pub margin_used : Option Decimal
  pub return_on_equity : Option Decimal

pub record SnapshotState : Type 0 where
  pub coin : String
  pub side : Side
  pub size_usd : Decimal
  pub leverage : Decimal
  pub entry_price : Decimal
  pub unrealized_pnl : Decimal
  pub opened_at : Time
  pub size_coin : Option Decimal

pub record PositionEvent : Type 0 where
  pub kind : EventKind
  pub coin : String
  pub side : Option Side
  pub size_usd : Option Decimal
  pub size_coin : Option Decimal
  pub prev_size_usd : Option Decimal
  pub prev_size_coin : Option Decimal
  pub leverage : Option Decimal
  pub entry_price : Option Decimal
  pub prev_side : Option Side
  pub realized_pnl : Option Decimal
  pub pct_return : Option Decimal
  pub opened_at : Option Time

pub record CoinChange : Type 0 where
  pub coin : String
  pub event : Option PositionEvent
  pub position : Option Position
  pub opened_at : Option Time

-- A fraction of the last observation's notional below which a resize is silent.
abbrev pub scale_significance_threshold : Decimal
scale_significance_threshold = hundredths 25

abbrev pub is_zero : Decimal → Bool
is_zero d = leb_ℤ d (pos 0) && leb_ℤ (pos 0) d

module _ (r : Rounding) where
  open r use {mul, div}

  unfoldable pub margin : Position → Decimal
  margin p = elim p.margin_used [ none ↦ div p.size_usd p.leverage | some m ↦ m ]

  return_on_margin : Position → Option Decimal
  unfolding margin
  return_on_margin p = elim p.return_on_equity [
    | some ratio ↦ some ratio
    | none ↦ let m = margin p in if is_zero m then none else some (div p.unrealized_pnl m)
  ]

  -- `_return_on_margin` of position_diff.py
  snapshot_return : SnapshotState → Option Decimal
  snapshot_return s =
      let m = div s.size_usd s.leverage in if is_zero m then none else some (div s.unrealized_pnl m)

  unfoldable pub open_event : Position → PositionEvent
  open_event p = record {
    kind = opened;
    coin = p.coin;
    side = some p.side;
    size_usd = some p.size_usd;
    size_coin = p.size_coin;
    prev_size_usd = none;
    prev_size_coin = none;
    leverage = some p.leverage;
    entry_price = some p.entry_price;
    prev_side = none;
    realized_pnl = none;
    pct_return = none;
    opened_at = none;
  }

  pub close_event : SnapshotState → PositionEvent
  close_event s = record {
    kind = close;
    coin = s.coin;
    side = none;
    size_usd = some s.size_usd;
    size_coin = s.size_coin;
    prev_size_usd = none;
    prev_size_coin = none;
    leverage = none;
    entry_price = none;
    prev_side = some s.side;
    realized_pnl = some s.unrealized_pnl;
    pct_return = snapshot_return s;
    opened_at = some s.opened_at;
  }

  pub flip_event : SnapshotState → Position → PositionEvent
  unfolding open_event close_event
  flip_event s p =
      let closed = close_event s in
      let fresh = open_event p in
      record {
        kind = flip;
        coin = p.coin;
        side = fresh.side;
        size_usd = fresh.size_usd;
        size_coin = fresh.size_coin;
        prev_size_usd = none;
        prev_size_coin = none;
        leverage = fresh.leverage;
        entry_price = fresh.entry_price;
        prev_side = closed.prev_side;
        realized_pnl = closed.realized_pnl;
        pct_return = closed.pct_return;
        opened_at = closed.opened_at;
      }

  pub scale_event : SnapshotState → Position → Option PositionEvent
  scale_event s p =
      let old = s.size_usd in
      let new = p.size_usd in
      if leb_ℤ old (pos 0)
      then none
      else if ltb_ℤ (div (abs (new -ℤ old)) old) scale_significance_threshold
      then none
      else some (record {
        kind = if ltb_ℤ old new then scale_in else scale_out;
        coin = p.coin;
        side = some p.side;
        size_usd = some new;
        size_coin = p.size_coin;
        prev_size_usd = some old;
        prev_size_coin = s.size_coin;
        leverage = some p.leverage;
        entry_price = some p.entry_price;
        prev_side = none;
        realized_pnl = none;
        pct_return = return_on_margin p;
        opened_at = some s.opened_at;
      })

  -- the first loop of `diff_positions`
  closes : Dict String SnapshotState → Dict String Position → List CoinChange
  closes [] current = []
  closes ((coin, s) ∷ rest) current =
      let more = closes rest current in
      if contains coin current
      then more
      else record { coin = coin; event = some (close_event s); position = none; opened_at = none }
        ∷ more

  -- the body of the second loop
  decide : Option SnapshotState → Time → String → Position → CoinChange
  decide none now coin p = record {
    coin = coin;
    event = some (open_event p);
    position = some p;
    opened_at = some now;
  }
  decide (some s) now coin p =
      if same_side s.side p.side
      then record {
        coin = coin;
        event = scale_event s p;
        position = some p;
        opened_at = some s.opened_at;
      }
      else record {
        coin = coin;
        event = some (flip_event s p);
        position = some p;
        opened_at = some now;
      }

  -- the second loop
  present : Dict String SnapshotState → Time → Dict String Position → List CoinChange
  unfolding decide
  present previous now [] = []
  present previous now ((coin, p) ∷ rest) =
      decide (lookup coin previous) now coin p ∷ present previous now rest

  unfoldable pub diff_positions : Dict String SnapshotState → List Position → Time → List CoinChange
  unfolding closes present
  diff_positions previous positions now =
      let current = index (λ (p : Position). p.coin) positions in
      closes previous current ++ present previous now current

unfoldable pub events_of : List CoinChange → List PositionEvent
events_of [] = []
events_of (c ∷ cs) = elim c.event [ none ↦ events_of cs | some e ↦ e ∷ events_of cs ]

-- `remember`: the row that is written for a position
pub remembered : Position → Time → SnapshotState
remembered p opened_at = record {
  coin = p.coin;
  side = p.side;
  size_usd = p.size_usd;
  leverage = p.leverage;
  entry_price = p.entry_price;
  unrealized_pnl = p.unrealized_pnl;
  opened_at = opened_at;
  size_coin = p.size_coin;
}

-- The assertion that a remembered position has an opening time is a fault, `none`.
apply_change : CoinChange → Dict String SnapshotState → Option (Dict String SnapshotState)
unfolding remembered
apply_change c memory = elim c.position [
  | none ↦ some (erase c.coin memory)
  | some p ↦ elim c.opened_at [
    | none ↦ none
    | some at ↦ some (insert p.coin (remembered p at) memory)
  ]
]

pub apply_changes : List CoinChange → Dict String SnapshotState → Option (Dict String SnapshotState)
unfolding apply_change
apply_changes [] memory = some memory
apply_changes (c ∷ cs) memory = elim (apply_change c memory) [
  | none ↦ none
  | some next ↦ apply_changes cs next
]
