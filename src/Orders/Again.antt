-- ===== src/Orders/Again.antt =====
-- Reading the same book twice is no news (order_diff.py, ws/order_lane.py).
use mathlib.Core.List.{append-nil}
use epigone.Orders.Lane.{merged, apply_orders, LaneState, OrderLane}
use epigone.Prelude.{
  ℕ, ◌≡◌, refl, ◌∙◌, inl, inr, true, Option, none, some, List, [], ◌∷◌, ◌++◌, arith, Option-cases,
  All, nat_eq,
}
use epigone.Decimal.{Time}
use epigone.Dict.{Dict, lookup, contains}
use epigone.Dict.Laws.{
  contains-lookup-some, contains-head, contains-tail, lookup-none-contains, index-IsDict,
  All-lookup,
}
use epigone.Orders.{
  from_open_order, diff_open_orders, events_of, OpenOrder, RestingOrder, OrderChange, departures,
  resting_change, arrivals,
}
use epigone.Orders.Resync.{book, carried, resynced, lookup-resynced}

-- Memory and book agree: nothing remembered is gone, and each resting order is remembered at the
-- size that rests.
record IsCurrent (memory : Dict ℕ RestingOrder) (current : Dict ℕ OpenOrder) : Type 0 where
  no_stale : (id : ℕ) → lookup id current ≡ none → lookup id memory ≡ none
  agrees :
      (id : ℕ) (o : OpenOrder)
      → lookup id current ≡ some o
      → (k : RestingOrder) × (lookup id memory ≡ some k) × (k.size ≡ o.size)

merged_size : (row : Option RestingOrder) (o : RestingOrder) → (merged row o).size ≡ o.size
unfolding merged
merged_size none o = refl
merged_size (some k) o = refl

carried_size : (known : Option RestingOrder) (o : OpenOrder) → (carried known o).size ≡ o.size
unfolding carried from_open_order
carried_size none o = refl
carried_size (some k) o = refl

resynced-IsCurrent :
    (memory before : Dict ℕ RestingOrder) (current : Dict ℕ OpenOrder)
    → ((id : ℕ)
        → lookup id memory ≡ resynced (lookup id current) (lookup id before) (lookup id before))
    → IsCurrent memory current
unfolding resynced
resynced-IsCurrent memory before current h = record {
  no_stale = λ id e. ground (arith, h id);
  agrees = λ id o e.
      let old = lookup id before in
      (
        merged old (carried old o),
        ground (arith, h id),
        merged_size old (carried old o) ∙ carried_size old o,
      );
}

book_of_remembered :
    {memory : Dict ℕ RestingOrder} {current : Dict ℕ OpenOrder}
    → IsCurrent memory current
    → (id : ℕ) → contains id memory ≡ true
    → contains id current ≡ true
book_of_remembered {memory} {current} v id e = elim (Option-cases (lookup id current)) [
  | inl left ↦ ground (arith, v.no_stale id left, lookup-none-contains id memory)
  | inr (o, found) ↦ contains-lookup-some id current o found
]

departures-quiet :
    (memory : Dict ℕ RestingOrder) (current : Dict ℕ OpenOrder)
    → ((id : ℕ) → contains id memory ≡ true → contains id current ≡ true)
    → departures memory current ≡ []
unfolding departures
departures-quiet [] current h = refl
departures-quiet ((k, o) ∷ rest) current h =
    rw (h k (contains-head k o rest))
      (departures-quiet rest current λ c e. h c (contains-tail c k o rest e))

resting_change-quiet :
    (known : RestingOrder) (id : ℕ) (o : OpenOrder)
    → known.size ≡ o.size
    → (resting_change (some known) id o).event ≡ none
unfolding resting_change
resting_change-quiet known id o e = ground arith

events_of-silent :
    (x : OrderChange) (xs : List OrderChange)
    → x.event ≡ none
    → events_of xs ≡ []
    → events_of (x ∷ xs) ≡ []
unfolding events_of
events_of-silent x xs e h = ground arith

arrivals-quiet :
    (memory : Dict ℕ RestingOrder) (current : Dict ℕ OpenOrder)
    → All
        (λ (e : ℕ × OpenOrder).
          (k : RestingOrder) × (lookup e.0 memory ≡ some k) × (k.size ≡ e.1.size))
        current
    → events_of (arrivals memory current) ≡ []
unfolding arrivals
arrivals-quiet memory [] h = unfold events_of in refl
arrivals-quiet memory ((id, o) ∷ rest) h =
    let (k, found, size) = h.0 in
    rw found (
      events_of-silent (resting_change (some k) id o) (arrivals memory rest)
        (resting_change-quiet k id o size) (arrivals-quiet memory rest h.1))

diff_open_orders-quiet :
    (memory : Dict ℕ RestingOrder) (orders : List OpenOrder)
    → IsCurrent memory (book orders)
    → events_of (diff_open_orders memory orders) ≡ []
unfolding diff_open_orders
diff_open_orders-quiet memory orders v =
    rw (departures-quiet memory (book orders) (book_of_remembered v)) (
      arrivals-quiet memory (book orders)
        (All-lookup _ (book orders) (index-IsDict (λ (o : OpenOrder). o.order_id) orders) v.agrees))

apply_orders_state :
    (lane : OrderLane) (st : LaneState) (orders : List OpenOrder) (now : Time)
    → lane.state ≡ some st
    → (apply_orders lane orders now).state
      ≡ some (record st { resynced_at = now; last_message_at = now })
unfolding apply_orders
apply_orders_state lane st orders now e = rw (e, apply_orders)

apply_orders_recorded :
    (lane : OrderLane) (st : LaneState) (orders : List OpenOrder) (now : Time)
    → lane.state ≡ some st
    → (apply_orders lane orders now).recorded
      ≡ lane.recorded ++ events_of (diff_open_orders lane.memory orders)
unfolding apply_orders
apply_orders_recorded lane st orders now e = rw (e, apply_orders)

-- A lane that has just resynced against a book records nothing when it resyncs against that book
-- again, at any later time.
pub apply_orders_again :
    (lane : OrderLane) (st : LaneState) (orders : List OpenOrder) (now later : Time)
    → lane.state ≡ some st
    → (apply_orders (apply_orders lane orders now) orders later).recorded
      ≡ (apply_orders lane orders now).recorded
apply_orders_again lane st orders now later e =
    let once = apply_orders lane orders now in
    let v : IsCurrent once.memory (book orders) =
      resynced-IsCurrent once.memory lane.memory (book orders)
        (λ id. lookup-resynced lane st orders now id e) in
    apply_orders_recorded once (record st { resynced_at = now; last_message_at = now }) orders later
      (apply_orders_state lane st orders now e)
    ∙ rw (diff_open_orders-quiet once.memory orders v) (append-nil once.recorded)
