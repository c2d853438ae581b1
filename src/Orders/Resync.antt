-- ===== src/Orders/Resync.antt =====
-- What a read of the whole book (`diff_open_orders` of order_diff.py, `_apply_orders` of
-- ws/order_lane.py) leaves in memory, and what it reports of each order.
use epigone.Orders.Lane.{coalesce, merged, remember, commit, apply_orders, LaneState, OrderLane}
use epigone.Prelude.{
  ℕ, ◌≡◌, refl, ap, ◌∙◌, inl, inr, ◌&&◌, not, Option, none, some, List, [], ◌∷◌, ◌++◌, arith, ◌==◌,
  if◌then◌else◌, Bool-cases, nat_eq,
}
use epigone.Decimal.{Decimal, Time}
use epigone.Dict.{Dict, lookup, contains, erase, index, IsDict}
use epigone.Dict.Laws.{
  lookup-insert, lookup-erase, contains-lookup-none, lookup-none-contains, index-IsDict, IsKeyed,
  index-IsKeyed,
}
use epigone.Orders.{
  from_open_order, diff_open_orders, OpenOrder, RestingOrder, OrderChange, departures,
  resting_change, arrivals,
}

abbrev id_of : OpenOrder → ℕ
id_of o = o.order_id

abbrev pub book : List OpenOrder → Dict ℕ OpenOrder
book orders = index (λ (o : OpenOrder). o.order_id) orders

-- A held order as it is remembered: the size it started with is the earlier memory's.
unfoldable pub carried : Option RestingOrder → OpenOrder → RestingOrder
carried none o = from_open_order o
carried (some known) o =
    let fresh = from_open_order o in record fresh { original_size = known.original_size }

-- The memory of an order after a resync, from the book, the memory that was diffed, and the row
-- that was there when it was written.
unfoldable pub resynced :
    Option OpenOrder → Option RestingOrder → Option RestingOrder → Option RestingOrder
resynced none known row = none
resynced (some o) known row = some (merged row (carried known o))

departed : Dict ℕ RestingOrder → Dict ℕ OpenOrder → Dict ℕ RestingOrder → Dict ℕ RestingOrder
departed [] current d = d
departed ((id, o) ∷ rest) current d =
    departed rest current (if contains id current then d else erase id d)

written : Dict ℕ RestingOrder → Dict ℕ OpenOrder → Dict ℕ RestingOrder → Dict ℕ RestingOrder
written previous [] d = d
written previous ((id, o) ∷ rest) d =
    written previous rest (remember (carried (lookup id previous) o) d)

lookup-departed :
    (c : ℕ) (previous d : Dict ℕ RestingOrder) (current : Dict ℕ OpenOrder)
    → lookup c (departed previous current d)
      ≡ (if contains c previous && not (contains c current) then none else lookup c d)
unfolding departed contains
lookup-departed c [] d current = refl
lookup-departed c ((k, s) ∷ rest) d current = ground (
  arith,
  nat_eq.beq_iff k c,
  lookup-erase k c d,
  lookup-departed c rest (if contains k current then d else erase k d) current,
)

commit-departures :
    (previous d : Dict ℕ RestingOrder) (current : Dict ℕ OpenOrder) (ys : List OrderChange)
    → commit (departures previous current ++ ys) d ≡ commit ys (departed previous current d)
unfolding commit departures departed
commit-departures [] d current ys = refl
commit-departures ((k, s) ∷ rest) d current ys = elim (Bool-cases (contains k current)) [
  | inl held ↦ rw held (commit-departures rest d current ys)
  | inr left ↦ rw left (commit-departures rest (erase k d) current ys)
]

resting_change_resting :
    (known : Option RestingOrder) (id : ℕ) (o : OpenOrder)
    → (resting_change known id o).resting ≡ some (carried known o)
unfolding resting_change carried
resting_change_resting none id o = refl
resting_change_resting (some known) id o = ground arith

commit_resting :
    (c : OrderChange) (cs : List OrderChange) (o : RestingOrder) (d : Dict ℕ RestingOrder)
    → c.resting ≡ some o
    → commit (c ∷ cs) d ≡ commit cs (remember o d)
unfolding commit
commit_resting c cs o d h = ground arith

commit-arrivals :
    (previous : Dict ℕ RestingOrder) (current : Dict ℕ OpenOrder) (d : Dict ℕ RestingOrder)
    → commit (arrivals previous current) d ≡ written previous current d
unfolding arrivals written
commit-arrivals previous [] d = unfold commit in refl
commit-arrivals previous ((k, o) ∷ rest) d =
    let known = lookup k previous in
    commit_resting (resting_change known k o) (arrivals previous rest) (carried known o) d
      (resting_change_resting known k o)
    ∙ commit-arrivals previous rest (remember (carried known o) d)

pub lookup-remember :
    (c : ℕ) (o : RestingOrder) (d : Dict ℕ RestingOrder)
    → lookup c (remember o d)
      ≡ (if o.order_id == c then some (merged (lookup c d) o) else lookup c d)
unfolding remember
lookup-remember c o d = ground (
  arith,
  nat_eq.beq_iff o.order_id c,
  lookup-insert o.order_id c (merged (lookup o.order_id d) o) d,
)

carried_id : (known : Option RestingOrder) (o : OpenOrder) → (carried known o).order_id ≡ o.order_id
unfolding carried from_open_order
carried_id none o = refl
carried_id (some known) o = refl

-- The value that the rewrites leave at one order.
after_writes : Option OpenOrder → Option RestingOrder → Option RestingOrder → Option RestingOrder
after_writes none known row = row
after_writes (some o) known row = resynced (some o) known row

lookup-written :
    (c : ℕ) (previous : Dict ℕ RestingOrder) (current : Dict ℕ OpenOrder) (d : Dict ℕ RestingOrder)
    → IsDict current
    → IsKeyed id_of current
    → lookup c (written previous current d)
      ≡ after_writes (lookup c current) (lookup c previous) (lookup c d)
unfolding written after_writes resynced lookup
lookup-written c previous [] d dict keyed = refl
lookup-written c previous ((k, o) ∷ rest) d dict keyed =
    let v : RestingOrder = carried (lookup k previous) o in
    ground (
      arith,
      nat_eq.beq_iff k c,
      carried_id (lookup k previous) o,
      contains-lookup-none k rest,
      lookup-remember c v d,
      lookup-written c previous rest (remember v d) dict.1 keyed.1,
    )

-- The row of an order of the book after a resync, field by field, from the row that was there.
abbrev pub row_of : OpenOrder → Option RestingOrder → RestingOrder
row_of o none = record {
  order_id = o.order_id;
  coin = o.coin;
  is_buy = o.is_buy;
  limit_price = o.limit_price;
  size = o.size;
  original_size = o.size;
  placed_at = o.placed_at;
  cloid = none;
  order_type = some o.order_type;
  is_trigger = some o.is_trigger;
  trigger_price = o.trigger_price;
  reduce_only = some o.reduce_only;
  is_position_tpsl = some o.is_position_tpsl;
}
row_of o (some old) = record {
  order_id = o.order_id;
  coin = o.coin;
  is_buy = o.is_buy;
  limit_price = o.limit_price;
  size = o.size;
  original_size = old.original_size;
  placed_at = o.placed_at;
  cloid = old.cloid;
  order_type = some o.order_type;
  is_trigger = some o.is_trigger;
  trigger_price = elim o.trigger_price [ some price ↦ some price | none ↦ old.trigger_price ];
  reduce_only = some o.reduce_only;
  is_position_tpsl = some o.is_position_tpsl;
}

-- What a resync leaves of an order, from the book and the row that was there.
abbrev pub expected_row : Option OpenOrder → Option RestingOrder → Option RestingOrder
expected_row none old = none
expected_row (some o) old = some (row_of o old)

coalesce_lem :
    (a old : Option Decimal) → coalesce a old ≡ (elim a [ some price ↦ some price | none ↦ old ])
coalesce_lem none old = refl
coalesce_lem (some a) old = refl

resynced_lem :
    (found : Option OpenOrder) (old : Option RestingOrder)
    → resynced found old old ≡ expected_row found old
unfolding resynced merged carried from_open_order
resynced_lem none old = refl
resynced_lem (some o) none = refl
resynced_lem (some o) (some old) =
    ap (λ (price : Option Decimal). some (record (row_of o (some old)) { trigger_price = price }))
      (coalesce_lem o.trigger_price old.trigger_price)

pub lookup-resynced :
    (lane : OrderLane) (st : LaneState) (orders : List OpenOrder) (now : Time) (id : ℕ)
    → lane.state ≡ some st
    → lookup id (apply_orders lane orders now).memory
      ≡ resynced (lookup id (book orders)) (lookup id lane.memory) (lookup id lane.memory)
unfolding apply_orders diff_open_orders
lookup-resynced lane st orders now id e =
    let current : Dict ℕ OpenOrder = book orders in
    let mid : Dict ℕ RestingOrder = departed lane.memory current lane.memory in
    rw
      (
        e,
        commit-departures lane.memory lane.memory current (arrivals lane.memory current),
        commit-arrivals lane.memory current mid,
      )
      (unfold resynced after_writes in
        ground (
          arith,
          lookup-written id lane.memory current mid (index-IsDict id_of orders)
              (index-IsKeyed id_of orders),
          lookup-departed id lane.memory lane.memory current,
          contains-lookup-none id lane.memory,
          contains-lookup-none id current,
          lookup-none-contains id current,
        ))

-- After a resync of a baselined lane, an order that is not in the book is forgotten, and one that
-- is has the book's fields, with these from what was remembered of it, if anything was: its client
-- id, the size it started with, and its trigger price where the book has none. An order that was
-- not remembered starts with the book's size and has no client id.
pub lookup-apply_orders :
    (lane : OrderLane) (st : LaneState) (orders : List OpenOrder) (now : Time) (id : ℕ)
    → lane.state ≡ some st
    → lookup id (apply_orders lane orders now).memory
      ≡ expected_row (lookup id (book orders)) (lookup id lane.memory)
lookup-apply_orders lane st orders now id e =
    lookup-resynced lane st orders now id e
    ∙ resynced_lem (lookup id (book orders)) (lookup id lane.memory)
