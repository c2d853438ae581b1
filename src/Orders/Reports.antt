-- ===== src/Orders/Reports.antt =====
-- What a resync (`diff_open_orders` of order_diff.py) reports of each order.
use epigone.Prelude.{
  ℕ, ◌≡◌, refl, Bool, Option, none, some, List, [], ◌∷◌, ◌++◌, arith, ◌==◌, if◌then◌else◌, nat_eq,
}
use epigone.Prelude.Int.{ltb_ℤ}
use epigone.Dict.{Dict, lookup, contains, IsDict}
use epigone.Dict.Laws.{contains-lookup-none, lookup-none-contains, index-IsDict}
use epigone.Orders.{
  from_open_order, diff_open_orders, placed, filled, gone, OpenOrder, RestingOrder, OrderChange,
  resync_event, departures, resting_change, arrivals,
}
use epigone.Orders.Resync.{book}

-- What a resync reports of an order: `gone`, `placed`, `filled` when less of it rests, or nothing.
pub reported : ℕ → Option RestingOrder → Option OpenOrder → List OrderChange
reported id none none = []
reported id (some known) none =
    record { order_id = id; event = some (resync_event gone known); resting = none } ∷ []
reported id none (some o) =
    record {
      order_id = id;
      event = some (resync_event placed (from_open_order o));
      resting = some (from_open_order o);
    }
    ∷ []
reported id (some known) (some o) =
    let fresh = from_open_order o in
    let kept : RestingOrder = record fresh { original_size = known.original_size } in
    record {
      order_id = id;
      event = if ltb_ℤ o.size known.size then some (resync_event filled kept) else none;
      resting = some kept;
    }
    ∷ []

-- The decisions about one order, in their order.
pub changes_for : ℕ → List OrderChange → List OrderChange
changes_for c [] = []
changes_for c (x ∷ xs) = let rest = changes_for c xs in if x.order_id == c then x ∷ rest else rest

changes_for-append :
    (c : ℕ) (xs ys : List OrderChange)
    → changes_for c (xs ++ ys) ≡ changes_for c xs ++ changes_for c ys
unfolding changes_for
changes_for-append c [] ys = refl
changes_for-append c (x ∷ xs) ys = ground (arith, changes_for-append c xs ys)

gone_of : ℕ → Option RestingOrder → Bool → List OrderChange
unfolding reported
gone_of c none held = []
gone_of c (some o) held = if held then [] else reported c (some o) none

held_of : ℕ → Option RestingOrder → Option OpenOrder → List OrderChange
unfolding reported
held_of c known none = []
held_of c known (some o) = reported c known (some o)

reported_lem :
    (c : ℕ) (known : Option RestingOrder) (current : Dict ℕ OpenOrder)
    → gone_of c known (contains c current) ++ held_of c known (lookup c current)
      ≡ reported c known (lookup c current)
unfolding gone_of held_of
reported_lem c known current =
    ground (arith, contains-lookup-none c current, lookup-none-contains c current)

changes_for-departures :
    (c : ℕ) (previous : Dict ℕ RestingOrder) (current : Dict ℕ OpenOrder)
    → IsDict previous
    → changes_for c (departures previous current)
      ≡ gone_of c (lookup c previous) (contains c current)
unfolding changes_for departures gone_of lookup
changes_for-departures c [] current dict = refl
changes_for-departures c ((k, o) ∷ rest) current dict = ground (
  arith,
  nat_eq.beq_iff k c,
  contains-lookup-none k rest,
  changes_for-departures c rest current dict.1,
)

resting_change-reported :
    (c : ℕ) (known : Option RestingOrder) (o : OpenOrder)
    → resting_change known c o ∷ [] ≡ reported c known (some o)
unfolding resting_change reported
resting_change-reported c none o = refl
resting_change-reported c (some known) o = ground arith

resting_change_id :
    (known : Option RestingOrder) (c : ℕ) (o : OpenOrder) → (resting_change known c o).order_id ≡ c
unfolding resting_change
resting_change_id none c o = refl
resting_change_id (some known) c o = ground arith

changes_for-arrivals :
    (c : ℕ) (previous : Dict ℕ RestingOrder) (current : Dict ℕ OpenOrder)
    → IsDict current
    → changes_for c (arrivals previous current) ≡ held_of c (lookup c previous) (lookup c current)
unfolding changes_for arrivals held_of lookup
changes_for-arrivals c previous [] dict = refl
changes_for-arrivals c previous ((k, o) ∷ rest) dict = ground (
  arith,
  nat_eq.beq_iff k c,
  contains-lookup-none k rest,
  resting_change-reported k (lookup k previous) o,
  resting_change_id (lookup k previous) k o,
  changes_for-arrivals c previous rest dict.1,
)

-- When no order is remembered twice, a resync decides about each order what its remembered and its
-- resting form say, and nothing else: `gone` when it left the book, `placed` when it is new,
-- `filled` when less of it rests than was remembered, and no event otherwise.
changes_for-diff_open_orders :
    (previous : Dict ℕ RestingOrder) (orders : List OpenOrder) (id : ℕ)
    → IsDict previous
    → changes_for id (diff_open_orders previous orders)
      ≡ reported id (lookup id previous) (lookup id (book orders))
unfolding diff_open_orders
changes_for-diff_open_orders previous orders id dict =
    let current : Dict ℕ OpenOrder = book orders in
    rw
      (
        changes_for-append id (departures previous current) (arrivals previous current),
        changes_for-departures id previous current dict,
        changes_for-arrivals id previous current
            (index-IsDict (λ (o : OpenOrder). o.order_id) orders),
      )
      (reported_lem id (lookup id previous) current)
