-- ===== src/Orders/Stream.antt =====
-- What the exchange's own updates do (`classify` of order_events.py, `stream_change` of
-- order_diff.py, `_apply_updates` of ws/order_lane.py).
use epigone.Orders.Lane.{
  coalesce, merged, commit, stream_changes, apply_updates, LaneState, OrderLane,
}
use epigone.Orders.Resync.{lookup-remember}
use epigone.Prelude.Int.{ltb_ℤ, pos}
use epigone.Dict.Laws.{lookup-erase, IsKeyed, lookup-IsKeyed}
use epigone.Prelude.{
  ℕ, ◌≡◌, refl, sym, ap, ◌∙◌, inl, inr, Option, none, some, [], ◌∷◌, ◌++◌, arith, ◌==◌,
  if◌then◌else◌, Bool-cases, Option-cases, nat_eq,
}
use epigone.Decimal.{Time}
use epigone.Dict.{Dict, lookup, erase}
use epigone.Orders.{
  classify, from_update, stream_event, remembered_after, stream_change, events_of, OrderKind,
  placed, filled, canceled, rejected, triggered, gone, other, OrderUpdate, RestingOrder,
  OrderChange,
}

-- The row that an update of each kind leaves of its order.
pub remembered_row : OrderKind → Option RestingOrder → OrderUpdate → Option RestingOrder
unfolding from_update merged
remembered_row filled row u =
    if ltb_ℤ (pos 0) u.size then some (merged row (from_update u)) else none
remembered_row canceled row u = none
remembered_row rejected row u = none
remembered_row other row u = row
remembered_row _ row u = some (merged row (from_update u))

abbrev id_of : RestingOrder → ℕ
id_of o = o.order_id

-- What one decision does to a read of the memory.
decided : Option RestingOrder → Option RestingOrder → Option RestingOrder
decided none row = none
decided (some o) row = some (merged row o)

abbrev Names : ℕ → Option RestingOrder → Type 0
Names id none = Unit {0}
Names id (some o) = o.order_id ≡ id

lookup-commit_one :
    (c : OrderChange) (d : Dict ℕ RestingOrder) (resting : Option RestingOrder) (key id : ℕ)
    → c.order_id ≡ key
    → c.resting ≡ resting
    → Names key resting
    → lookup id (commit (c ∷ []) d)
      ≡ (if key == id then decided resting (lookup id d) else lookup id d)
unfolding commit decided
lookup-commit_one c d none key id k e n = rw (e, commit) (rw k (lookup-erase key id d))
lookup-commit_one c d (some o) key id k e n =
    rw (e, commit) (ground (arith, lookup-remember id o d))

coalesce_self {ℓ} : {A : Type ℓ} (o : Option A) → coalesce o o ≡ o
coalesce_self none = refl
coalesce_self (some a) = refl

merged_self : (o : RestingOrder) → merged (some o) o ≡ o
unfolding merged
merged_self o = simp coalesce_self

decided-remembered_after :
    (kind : OrderKind) (row : Option RestingOrder) (u : OrderUpdate)
    → decided (remembered_after kind row u) row ≡ remembered_row kind row u
unfolding decided remembered_after remembered_row
decided-remembered_after other none u = refl
decided-remembered_after other (some o) u = ap some (merged_self o)
decided-remembered_after filled row u = ground arith
decided-remembered_after _ row u = refl

remembered_after-Names :
    (kind : OrderKind) (row : Option RestingOrder) (u : OrderUpdate)
    → Names u.order_id row
    → Names u.order_id (remembered_after kind row u)
unfolding remembered_after
remembered_after-Names other row u n = n
remembered_after-Names filled row u n = elim (Bool-cases (ltb_ℤ (pos 0) u.size)) [
  | inl left ↦ rw left refl
  | inr done ↦ rw done tt
]
remembered_after-Names placed row u n = refl
remembered_after-Names triggered row u n = refl
remembered_after-Names gone row u n = refl
remembered_after-Names canceled row u n = tt
remembered_after-Names rejected row u n = tt

lookup-Names : (id : ℕ) (d : Dict ℕ RestingOrder) → IsKeyed id_of d → Names id (lookup id d)
lookup-Names id d keyed = elim (Option-cases (lookup id d)) [
  | inl absent ↦ rw absent tt
  | inr (o, found) ↦ rw found (sym (lookup-IsKeyed id_of id d o keyed found))
]

at_the_id :
    (kind : OrderKind) (d : Dict ℕ RestingOrder) (u : OrderUpdate) (id : ℕ)
    → (if u.order_id == id
        then decided (remembered_after kind (lookup u.order_id d) u) (lookup id d)
        else lookup id d)
      ≡ (if u.order_id == id then remembered_row kind (lookup id d) u else lookup id d)
at_the_id kind d u id = elim (Bool-cases (u.order_id == id)) [
  | inl same ↦
      rw same (
        simp ((nat_eq.beq_iff u.order_id id).0 same)
          (decided-remembered_after kind (lookup id d) u))
  | inr differs ↦ rw differs
]

lookup-commit_stream :
    (d : Dict ℕ RestingOrder) (u : OrderUpdate) (id : ℕ)
    → IsKeyed id_of d
    → lookup id (commit (stream_change (lookup u.order_id d) u ∷ []) d) ≡ (
        if u.order_id == id
        then remembered_row (classify u.status) (lookup id d) u
        else lookup id d)
lookup-commit_stream d u id keyed =
    let row : Option RestingOrder = lookup u.order_id d in
    let kind : OrderKind = classify u.status in
    lookup-commit_one (stream_change row u) d (remembered_after kind row u) u.order_id id
      (unfold stream_change in refl) (unfold stream_change in refl)
      (remembered_after-Names kind row u (lookup-Names u.order_id d keyed))
    ∙ at_the_id kind d u id

-- On a baselined lane whose orders stand under their own ids, an update alone in its frame is
-- recorded once, with the exchange's own word, and changes memory at its order only: there a
-- complete fill, a cancel and a rejection forget the order, a status that is not recognised leaves
-- it as it was, and a placement, a trigger and a fill with size left remember it as updated,
-- keeping what only a resync could have learned of it.
pub apply_updates_one :
    (lane : OrderLane) (st : LaneState) (u : OrderUpdate) (now : Time)
    → lane.state ≡ some st
    → IsKeyed (λ (o : RestingOrder). o.order_id) lane.memory
    → ((apply_updates lane (u ∷ []) now).recorded
        ≡ lane.recorded ++ stream_event (classify u.status) u ∷ [])
      × ((id : ℕ)
          → lookup id (apply_updates lane (u ∷ []) now).memory ≡ (
              if u.order_id == id
              then remembered_row (classify u.status) (lookup id lane.memory) u
              else lookup id lane.memory))
unfolding apply_updates stream_changes
apply_updates_one lane st u now on keyed = (
  unfold events_of stream_change in rw (on, apply_updates),
  λ id. rw (on, apply_updates) (lookup-commit_stream lane.memory u id keyed),
)

-- Every update of a frame meets the memory from before the frame, so a frame that first cancels a
-- remembered order and then says something unrecognised of it brings the whole order back.
pub apply_updates_resurrects :
    (lane : OrderLane) (st : LaneState) (o : RestingOrder) (u v : OrderUpdate) (now : Time)
    → lane.state ≡ some st
    → lookup o.order_id lane.memory ≡ some o
    → u.order_id ≡ o.order_id
    → v.order_id ≡ o.order_id
    → classify u.status ≡ canceled
    → classify v.status ≡ other
    → lookup o.order_id (apply_updates lane (u ∷ v ∷ []) now).memory ≡ some o
unfolding apply_updates merged
apply_updates_resurrects lane st o u v now on found eu ev cu cv =
    rw (on, apply_updates)
      (rw (eu, ev)
        (rw (cu, cv, found)
          (ground (
            arith,
            nat_eq.beq_iff o.order_id o.order_id,
            lookup-remember o.order_id o (erase o.order_id lane.memory),
            lookup-erase o.order_id o.order_id lane.memory,
          ))))
