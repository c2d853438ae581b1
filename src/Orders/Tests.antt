-- ===== src/Orders/Tests.antt =====
-- One resting order through a resync and through the stream, and the theorems there.
use epigone.Orders.Lane.{apply_orders, apply_updates, LaneState, OrderLane}
use epigone.Prelude.{ℕ, String, ◌≡◌, refl, true, false, none, some, [], ◌∷◌, map, nat_eq}
use epigone.Decimal.{whole}
use epigone.Dict.{lookup}
use epigone.Orders.{
  classify, placed, canceled, rejected, other, OpenOrder, OrderUpdate, RestingOrder,
}
use epigone.Orders.Resync.{book, expected_row, lookup-apply_orders}
use epigone.Orders.Stream.{apply_updates_resurrects}

abbrev ladder : ℕ → ℕ → OpenOrder
ladder id size = record {
  coin = "BTC";
  is_buy = true;
  limit_price = whole 60000;
  size = whole size;
  order_id = id;
  placed_at = 3;
  order_type = "Limit";
  is_trigger = false;
  trigger_price = none;
  is_position_tpsl = false;
  reduce_only = false;
}

abbrev known : ℕ → RestingOrder
known id = record {
  order_id = id;
  coin = "BTC";
  is_buy = true;
  limit_price = whole 60000;
  size = whole 10;
  original_size = whole 10;
  placed_at = 3;
  cloid = none;
  order_type = some "Limit";
  is_trigger = some false;
  trigger_price = none;
  reduce_only = some false;
  is_position_tpsl = some false;
}

abbrev started : LaneState
started = record { baselined_at = 1; resynced_at = 1; last_message_at = 1 }

abbrev lane : OrderLane
lane = record { state = some started; memory = (7, known 7) ∷ (8, known 8) ∷ []; recorded = [] }

abbrev update : ℕ → String → OrderUpdate
update id status = record {
  order_id = id;
  coin = "BTC";
  is_buy = true;
  limit_price = whole 60000;
  size = whole 4;
  original_size = whole 10;
  status = status;
  placed_at = 3;
  status_at = 9;
  cloid = none;
}

classify_families :
    map classify ("open" ∷ "iocCancelRejected" ∷ "marginCanceled" ∷ "scheduled" ∷ [])
    ≡ placed ∷ rejected ∷ canceled ∷ other ∷ []
unfolding classify
classify_families = refl

lookup-apply_orders_example :
    lookup 7 (apply_orders lane (ladder 7 6 ∷ []) 20).memory
    ≡ expected_row (lookup 7 (book (ladder 7 6 ∷ []))) (some (known 7))
unfolding lookup
lookup-apply_orders_example = lookup-apply_orders lane started (ladder 7 6 ∷ []) 20 7 refl

apply_updates_resurrects_example :
    lookup 7 (apply_updates lane (update 7 "canceled" ∷ update 7 "scheduled" ∷ []) 30).memory
    ≡ some (known 7)
unfolding lookup classify
apply_updates_resurrects_example =
    apply_updates_resurrects lane started (known 7) (update 7 "canceled") (update 7 "scheduled") 30
      refl refl refl refl refl refl
