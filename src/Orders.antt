-- ===== src/Orders.antt =====
-- src/epigone/order_diff.py, with the OpenOrder of gateway/__init__.py, the OrderUpdate of
-- ws/__init__.py, and the OrderEvent and `classify` of order_events.py: what a Trader did to their
-- resting orders, from a read of the whole book or from the exchange's own updates. Lane holds the
-- transactions that apply it.
use epigone.Prelude.{
  ℕ, String, Bool, true, false, Option, none, some, List, [], ◌∷◌, ◌++◌, if◌then◌else◌, string_eq,
  nat_eq,
}
use epigone.Prelude.Int.{ltb_ℤ, pos}
use epigone.Decimal.{Decimal, Time}
use epigone.Dict.{Dict, lookup, contains, index}
use Prim.Native.Char.{Char}
use text.Mathlib.Text.{◌==◌ as str_eq, find?}
pub mod Lane
pub mod Resync
pub mod Reports
pub mod Again
pub mod Stream
mod Tests

pub data OrderKind : Type 0 where
  placed filled canceled rejected triggered gone other : OrderKind

pub data Origin : Type 0 where
  stream resync : Origin

pub record OpenOrder : Type 0 where
  pub coin : String
  pub is_buy : Bool
  pub limit_price : Decimal
  pub size : Decimal
  pub order_id : ℕ
  pub placed_at : Time
  pub order_type : String
  pub is_trigger : Bool
  pub trigger_price : Option Decimal
  pub is_position_tpsl : Bool
  pub reduce_only : Bool

pub record OrderUpdate : Type 0 where
  pub order_id : ℕ
  pub coin : String
  pub is_buy : Bool
  pub limit_price : Decimal
  pub size : Decimal
  pub original_size : Decimal
  pub status : String
  pub placed_at : Time
  pub status_at : Time
  pub cloid : Option String

pub record RestingOrder : Type 0 where
  pub order_id : ℕ
  pub coin : String
  pub is_buy : Bool
  pub limit_price : Decimal
  pub size : Decimal
  pub original_size : Decimal
  pub placed_at : Time
  pub cloid : Option String
  pub order_type : Option String
  pub is_trigger : Option Bool
  pub trigger_price : Option Decimal
  pub reduce_only : Option Bool
  pub is_position_tpsl : Option Bool

pub record OrderEvent : Type 0 where
  pub kind : OrderKind
  pub order_id : ℕ
  pub coin : String
  pub is_buy : Bool
  pub origin : Origin
  pub status : Option String
  pub limit_price : Option Decimal
  pub size : Option Decimal
  pub original_size : Option Decimal
  pub cloid : Option String
  pub order_type : Option String
  pub is_trigger : Option Bool
  pub trigger_price : Option Decimal
  pub reduce_only : Option Bool
  pub is_position_tpsl : Option Bool
  pub placed_at : Option Time
  pub status_at : Option Time

pub record OrderChange : Type 0 where
  pub order_id : ℕ
  pub event : Option OrderEvent
  pub resting : Option RestingOrder

-- `part in status`
abbrev pub has_part : String → String → Bool
has_part status part = elim (find? status part) [ none ↦ false | some at ↦ true ]

pub classify : String → OrderKind
classify status =
    if str_eq status "open"
    then placed
    else if str_eq status "filled"
    then filled
    else if str_eq status "triggered"
    then triggered
    else if has_part status "eject"
    then rejected
    else if has_part status "ancel"
    then canceled
    else other

pub from_open_order : OpenOrder → RestingOrder
from_open_order o = record {
  order_id = o.order_id;
  coin = o.coin;
  is_buy = o.is_buy;
  limit_price = o.limit_price;
  size = o.size;
  original_size = o.size;
  placed_at = o.placed_at;
  cloid = none;
  order_type = some o.order_type;
  is_trigger = some o.is_trigger;
  trigger_price = o.trigger_price;
  reduce_only = some o.reduce_only;
  is_position_tpsl = some o.is_position_tpsl;
}

pub from_update : OrderUpdate → RestingOrder
from_update u = record {
  order_id = u.order_id;
  coin = u.coin;
  is_buy = u.is_buy;
  limit_price = u.limit_price;
  size = u.size;
  original_size = u.original_size;
  placed_at = u.placed_at;
  cloid = u.cloid;
  order_type = none;
  is_trigger = none;
  trigger_price = none;
  reduce_only = none;
  is_position_tpsl = none;
}

resync_event : OrderKind → RestingOrder → OrderEvent
resync_event kind o = record {
  kind = kind;
  order_id = o.order_id;
  coin = o.coin;
  is_buy = o.is_buy;
  origin = resync;
  status = none;
  limit_price = some o.limit_price;
  size = some o.size;
  original_size = some o.original_size;
  cloid = o.cloid;
  order_type = o.order_type;
  is_trigger = o.is_trigger;
  trigger_price = o.trigger_price;
  reduce_only = o.reduce_only;
  is_position_tpsl = o.is_position_tpsl;
  placed_at = some o.placed_at;
  status_at = none;
}

-- the first loop of `diff_open_orders`
departures : Dict ℕ RestingOrder → Dict ℕ OpenOrder → List OrderChange
unfolding resync_event
departures [] current = []
departures ((id, o) ∷ rest) current =
    let more = departures rest current in
    if contains id current
    then more
    else record { order_id = id; event = some (resync_event gone o); resting = none } ∷ more

-- the body of the second loop
resting_change : Option RestingOrder → ℕ → OpenOrder → OrderChange
unfolding from_open_order resync_event
resting_change none id o =
    let fresh = from_open_order o in
    record { order_id = id; event = some (resync_event placed fresh); resting = some fresh }
resting_change (some known) id o =
    let fresh = from_open_order o in
    let kept : RestingOrder = record fresh { original_size = known.original_size } in
    if ltb_ℤ o.size known.size
    then record { order_id = id; event = some (resync_event filled kept); resting = some kept }
    else record { order_id = id; event = none; resting = some kept }

-- the second loop
arrivals : Dict ℕ RestingOrder → Dict ℕ OpenOrder → List OrderChange
unfolding resting_change
arrivals previous [] = []
arrivals previous ((id, o) ∷ rest) =
    resting_change (lookup id previous) id o ∷ arrivals previous rest

pub diff_open_orders : Dict ℕ RestingOrder → List OpenOrder → List OrderChange
unfolding departures arrivals
diff_open_orders previous orders =
    let current = index (λ (o : OpenOrder). o.order_id) orders in
    departures previous current ++ arrivals previous current

pub stream_event : OrderKind → OrderUpdate → OrderEvent
stream_event kind u = record {
  kind = kind;
  order_id = u.order_id;
  coin = u.coin;
  is_buy = u.is_buy;
  origin = stream;
  status = some u.status;
  limit_price = some u.limit_price;
  size = some u.size;
  original_size = some u.original_size;
  cloid = u.cloid;
  order_type = none;
  is_trigger = none;
  trigger_price = none;
  reduce_only = none;
  is_position_tpsl = none;
  placed_at = some u.placed_at;
  status_at = some u.status_at;
}

-- What the lane remembers after an update of each kind.
pub remembered_after : OrderKind → Option RestingOrder → OrderUpdate → Option RestingOrder
unfolding from_update
remembered_after filled memory u = if ltb_ℤ (pos 0) u.size then some (from_update u) else none
remembered_after canceled memory u = none
remembered_after rejected memory u = none
remembered_after other memory u = memory
remembered_after _ memory u = some (from_update u)

pub stream_change : Option RestingOrder → OrderUpdate → OrderChange
unfolding stream_event remembered_after
stream_change memory u =
    let kind = classify u.status in
    record {
      order_id = u.order_id;
      event = some (stream_event kind u);
      resting = remembered_after kind memory u;
    }

pub events_of : List OrderChange → List OrderEvent
events_of [] = []
events_of (c ∷ cs) = elim c.event [ none ↦ events_of cs | some e ↦ e ∷ events_of cs ]
