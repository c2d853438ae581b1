-- ===== src/Orders/Lane.antt =====
-- src/epigone/ws/order_lane.py: what the lane's transactions leave of one trader's rows.
-- SQL's coalesce: the first value that is there
use epigone.Prelude.{ℕ, Option, none, some, List, [], ◌∷◌, ◌++◌, nat_eq}
use epigone.Decimal.{Time}
use epigone.Dict.{Dict, lookup, insert, erase}
use epigone.Orders.{
  from_open_order, diff_open_orders, stream_change, events_of, OpenOrder, OrderUpdate, RestingOrder,
  OrderEvent, OrderChange,
}

abbrev pub coalesce {ℓ} : {A : Type ℓ} → Option A → Option A → Option A
coalesce (some a) old = some a
coalesce none old = old

-- The row that `_remember` leaves for an order, given the row that was there.
unfoldable pub merged : Option RestingOrder → RestingOrder → RestingOrder
merged none o = o
merged (some old) o = record o {
  cloid = coalesce o.cloid old.cloid;
  order_type = coalesce o.order_type old.order_type;
  is_trigger = coalesce o.is_trigger old.is_trigger;
  trigger_price = coalesce o.trigger_price old.trigger_price;
  reduce_only = coalesce o.reduce_only old.reduce_only;
  is_position_tpsl = coalesce o.is_position_tpsl old.is_position_tpsl;
}

-- `_remember`
unfoldable pub remember : RestingOrder → Dict ℕ RestingOrder → Dict ℕ RestingOrder
unfolding merged
remember o memory = insert o.order_id (merged (lookup o.order_id memory) o) memory

-- the loop of `_commit`
unfoldable pub commit : List OrderChange → Dict ℕ RestingOrder → Dict ℕ RestingOrder
unfolding remember
commit [] memory = memory
commit (c ∷ cs) memory = elim c.resting [
  | none ↦ commit cs (erase c.order_id memory)
  | some o ↦ commit cs (remember o memory)
]

-- One Trader's rows: the lane's state row, the remembered orders, and the recorded events.
pub record LaneState : Type 0 where
  pub baselined_at : Time
  pub resynced_at : Time
  pub last_message_at : Time

pub record OrderLane : Type 0 where
  pub state : Option LaneState
  pub memory : Dict ℕ RestingOrder
  pub recorded : List OrderEvent

remember_all : List OpenOrder → Dict ℕ RestingOrder → Dict ℕ RestingOrder
unfolding remember from_open_order
remember_all [] memory = memory
remember_all (o ∷ os) memory = remember_all os (remember (from_open_order o) memory)

-- `_apply_orders`, one transaction: the new rows, and how many events were recorded
unfoldable pub apply_orders : OrderLane → List OpenOrder → Time → OrderLane
unfolding remember_all commit diff_open_orders events_of
apply_orders lane orders now = elim lane.state [
  | none ↦ record lane {
    state = some (record { baselined_at = now; resynced_at = now; last_message_at = now });
    memory = remember_all orders lane.memory;
  }
  | some st ↦
      let changes = diff_open_orders lane.memory orders in
      record {
        state = some (record st { resynced_at = now; last_message_at = now });
        memory = commit changes lane.memory;
        recorded = lane.recorded ++ events_of changes;
      }
]

-- the comprehension of `_apply_updates`: every update meets the memory before the frame
unfoldable pub stream_changes : Dict ℕ RestingOrder → List OrderUpdate → List OrderChange
unfolding stream_change
stream_changes memory [] = []
stream_changes memory (u ∷ us) =
    stream_change (lookup u.order_id memory) u ∷ stream_changes memory us

-- `_apply_updates`, one transaction
unfoldable pub apply_updates : OrderLane → List OrderUpdate → Time → OrderLane
unfolding stream_changes commit events_of
apply_updates lane updates now = elim lane.state [
  | none ↦ lane
  | some st ↦
      let changes = stream_changes lane.memory updates in
      record {
        state = some (record st { last_message_at = now });
        memory = commit changes lane.memory;
        recorded = lane.recorded ++ events_of changes;
      }
]
