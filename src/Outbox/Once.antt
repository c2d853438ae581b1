-- ===== src/Outbox/Once.antt =====
-- That no row of an outbox (bot/outbox.py) is delivered twice.
use epigone.Prelude.{
  ℕ, ◌+◌, ◌≤◌, ◌≡◌, refl, inl, inr, true, ◌&&◌, List, [], ◌∷◌, ◌++◌, arith, ◌==◌, if◌then◌else◌,
  ==_iff, Bool-cases,
}
use epigone.Outbox.{
  is_stamped, is_pending, Drained, OutboxRow, Delivery, accepted, transient, rejected,
}
use epigone.Outbox.Sweep.{swept, sweep, IsNew, HasDistinctIds, drain_outbox-sweep}
use epigone.Outbox.Passes.{drain_all, HasDistinctIds-sweep}

-- How often an id stands in a list, and whether its row has been delivered.
pub count : ℕ → List ℕ → ℕ
count id [] = 0
count id (x ∷ xs) = (if x == id then 1 else 0) + count id xs

pub delivered : ℕ → List OutboxRow → ℕ
delivered id [] = 0
delivered id (row ∷ rows) =
    (if (row.id == id) && is_stamped row.delivered_at then 1 else 0) + delivered id rows

count-append : (id : ℕ) (xs ys : List ℕ) → count id (xs ++ ys) ≡ count id xs + count id ys
unfolding count
count-append id [] ys = omega arith
count-append id (x ∷ xs) ys = omega (arith, count-append id xs ys)

delivered-swept :
    (id : ℕ) (a : Delivery) (row : OutboxRow) (rows : List OutboxRow) (rest : Drained)
    → is_pending row ≡ true
    → delivered id rows + count id rest.1 ≡ delivered id rest.0
    → delivered id (row ∷ rows) + count id (swept a row rows rest).1
      ≡ delivered id (swept a row rows rest).0
unfolding swept delivered count
delivered-swept id transient row rows rest p h = omega arith
delivered-swept id rejected row rows rest p h = ground arith
delivered-swept id (accepted at) row rows rest p h = ground arith

delivered-sweep :
    (id : ℕ) (answers : ℕ → Delivery) (rows : List OutboxRow)
    → delivered id rows + count id (sweep answers rows).1 ≡ delivered id (sweep answers rows).0
unfolding sweep delivered count
delivered-sweep id answers [] = omega arith
delivered-sweep id answers (row ∷ rows) = elim (Bool-cases (is_pending row)) [
  | inl pending ↦ rw pending (
      delivered-swept id (answers row.id) row rows (sweep answers rows) pending
        (delivered-sweep id answers rows))
  | inr done ↦ rw done (omega (arith, delivered-sweep id answers rows))
]

delivered-drain_all_lem :
    (id : ℕ) (runs : List (ℕ → Delivery)) (table : List OutboxRow)
    → HasDistinctIds table
    → delivered id table + count id (drain_all runs table).1 ≡ delivered id (drain_all runs table).0
unfolding drain_all count
delivered-drain_all_lem id [] table distinct = omega arith
delivered-drain_all_lem id (answers ∷ runs) table distinct =
    rw (drain_outbox-sweep answers table distinct) (
      rw (count-append id (sweep answers table).1 (drain_all runs (sweep answers table).0).1) (
        omega (
          arith,
          delivered-sweep id answers table,
          delivered-drain_all_lem id runs (sweep answers table).0
              (HasDistinctIds-sweep answers table distinct),
        )))

delivered-IsNew : (id : ℕ) (rows : List OutboxRow) → IsNew id rows → delivered id rows ≡ 0
unfolding delivered
delivered-IsNew id [] h = refl
delivered-IsNew id (row ∷ rows) h = rw h.0 (omega (arith, delivered-IsNew id rows h.1))

delivered-le : (id : ℕ) (rows : List OutboxRow) → HasDistinctIds rows → delivered id rows ≤ 1
unfolding delivered
delivered-le id [] h = omega arith
delivered-le id (row ∷ rows) h = elim (Bool-cases (row.id == id)) [
  | inl same ↦
      let e : row.id ≡ id = (==_iff row.id id).0 same in
      let others : delivered id rows ≡ 0 = delivered-IsNew id rows (rw (← e) h.0) in
      ground (arith, others)
  | inr other ↦ rw other (omega (arith, delivered-le id rows h.1))
]

HasDistinctIds-drain_all :
    (runs : List (ℕ → Delivery)) (table : List OutboxRow)
    → HasDistinctIds table
    → HasDistinctIds (drain_all runs table).0
unfolding drain_all
HasDistinctIds-drain_all [] table h = h
HasDistinctIds-drain_all (answers ∷ runs) table h =
    rw (drain_outbox-sweep answers table h)
      (HasDistinctIds-drain_all runs (sweep answers table).0 (HasDistinctIds-sweep answers table h))

-- Nothing is sent twice, short of a crash between an acceptance and its stamp: when no two rows
-- have one id, over any passes that run so and whatever Telegram answers, an id is accepted at
-- most once, and not at all when its row was delivered before; it
-- was accepted exactly when its row is delivered at the end and was not at the beginning.
pub delivered-drain_all :
    (id : ℕ) (runs : List (ℕ → Delivery)) (table : List OutboxRow)
    → HasDistinctIds table
    → (delivered id table + count id (drain_all runs table).1 ≤ 1)
      × (delivered id table + count id (drain_all runs table).1
          ≡ delivered id (drain_all runs table).0)
delivered-drain_all id runs table distinct = omega (
  arith,
  delivered-drain_all_lem id runs table distinct,
  delivered-le id (drain_all runs table).0 (HasDistinctIds-drain_all runs table distinct),
)
