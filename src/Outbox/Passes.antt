-- ===== src/Outbox/Passes.antt =====
-- What passes over one outbox (bot/outbox.py) come to, one after another.
use epigone.Prelude.{
  ℕ, suc, ◌+◌, ◌≤◌, ◌≡◌, refl, inl, inr, Bool, true, false, List, [], ◌∷◌, ◌++◌, arith, ◌==◌,
  Bool-cases, if-intro, length, All,
}
use epigone.Outbox.{
  max_delivery_attempts, is_pending, fetch_pending, Drained, drain_outbox, OutboxRow, Delivery,
  accepted, transient, rejected,
}
use epigone.Outbox.Sweep.{swept, sweep, IsNew, HasDistinctIds, drain_outbox-sweep}

-- The passes in their order: the table that they leave, and the ids that they delivered.
unfoldable pub drain_all : List (ℕ → Delivery) → List OutboxRow → List OutboxRow × List ℕ
drain_all [] table = (table, [])
drain_all (answers ∷ more) table =
    let (next, delivered) = drain_outbox answers table in
    let (last, others) = drain_all more next in (last, delivered ++ others)

IsNew-swept :
    (a : Delivery) (id : ℕ) (row : OutboxRow) (rows : List OutboxRow) (rest : Drained)
    → (row.id == id) ≡ false
    → IsNew id rows
    → IsNew id rest.0
    → IsNew id (swept a row rows rest).0
unfolding swept
IsNew-swept transient id row rows rest e h k = (e, h)
IsNew-swept rejected id row rows rest e h k = (e, k)
IsNew-swept (accepted at) id row rows rest e h k = (e, k)

IsNew-sweep :
    (answers : ℕ → Delivery) (id : ℕ) (rows : List OutboxRow)
    → IsNew id rows
    → IsNew id (sweep answers rows).0
unfolding sweep
IsNew-sweep answers id [] h = tt
IsNew-sweep answers id (row ∷ rows) h =
    let rest = sweep answers rows in
    let below = IsNew-sweep answers id rows h.1 in
    if-intro (λ (x : Drained). IsNew id x.0) (is_pending row)
      (λ _. IsNew-swept (answers row.id) id row rows rest h.0 h.1 below) (λ _. (h.0, below))

HasDistinctIds-swept :
    (a : Delivery) (row : OutboxRow) (rows : List OutboxRow) (rest : Drained)
    → HasDistinctIds (row ∷ rows)
    → HasDistinctIds (row ∷ rest.0)
    → HasDistinctIds (swept a row rows rest).0
unfolding swept
HasDistinctIds-swept transient row rows rest h k = h
HasDistinctIds-swept rejected row rows rest h k = k
HasDistinctIds-swept (accepted at) row rows rest h k = k

pub HasDistinctIds-sweep :
    (answers : ℕ → Delivery) (rows : List OutboxRow)
    → HasDistinctIds rows
    → HasDistinctIds (sweep answers rows).0
unfolding sweep
HasDistinctIds-sweep answers [] h = tt
HasDistinctIds-sweep answers (row ∷ rows) h =
    let rest = sweep answers rows in
    let below : HasDistinctIds (row ∷ rest.0) =
      (IsNew-sweep answers row.id rows h.0, HasDistinctIds-sweep answers rows h.1) in
    if-intro (λ (x : Drained). HasDistinctIds x.0) (is_pending row)
      (λ _. HasDistinctIds-swept (answers row.id) row rows rest h below) (λ _. below)

-- Telegram itself is up: no row of the pass meets a fault of it.
abbrev is_transient : Delivery → Bool
is_transient transient = true
is_transient _ = false

abbrev pub IsFaultless : (ℕ → Delivery) → Type 0
IsFaultless answers = (id : ℕ) → is_transient (answers id) ≡ false

-- A row that is still pending has lost so many attempts.
abbrev IsSpent : ℕ → OutboxRow → Type 0
IsSpent k row = is_pending row ≡ true → k ≤ row.attempts

IsSpent-swept :
    (k : ℕ) (a : Delivery) (row : OutboxRow) (rows : List OutboxRow) (rest : Drained)
    → is_transient a ≡ false
    → is_pending row ≡ true
    → IsSpent k row
    → All (IsSpent (suc k)) rest.0
    → All (IsSpent (suc k)) (swept a row rows rest).0
unfolding swept
IsSpent-swept k transient row rows rest e p s h = cc
IsSpent-swept k rejected row rows rest e p s h = ((λ _. ground (arith, s p)), h)
IsSpent-swept k (accepted at) row rows rest e p s h = ((λ stands. cc), h)

IsSpent-sweep :
    (k : ℕ) (answers : ℕ → Delivery) (rows : List OutboxRow)
    → IsFaultless answers
    → All (IsSpent k) rows
    → All (IsSpent (suc k)) (sweep answers rows).0
unfolding sweep
IsSpent-sweep k answers [] up h = tt
IsSpent-sweep k answers (row ∷ rows) up h = elim (Bool-cases (is_pending row)) [
  | inl pending ↦ rw pending (
      IsSpent-swept k (answers row.id) row rows (sweep answers rows) (up row.id) pending h.0
        (IsSpent-sweep k answers rows up h.1))
  | inr done ↦ rw done ((λ stands. cc), IsSpent-sweep k answers rows up h.1)
]

IsSpent-drain_all :
    (k n : ℕ) (runs : List (ℕ → Delivery)) (table : List OutboxRow)
    → k + length runs ≡ n
    → All IsFaultless runs
    → HasDistinctIds table
    → All (IsSpent k) table
    → All (IsSpent n) (drain_all runs table).0
unfolding drain_all
IsSpent-drain_all k n [] table e up distinct h = let same : k ≡ n = omega arith in rw (← same) h
IsSpent-drain_all k n (answers ∷ runs) table e up distinct h =
    rw (drain_outbox-sweep answers table distinct) (
      IsSpent-drain_all (suc k) n runs (sweep answers table).0 (omega arith) up.1
        (HasDistinctIds-sweep answers table distinct) (IsSpent-sweep k answers table up.0 h))

unspent : (table : List OutboxRow) → All (IsSpent 0) table
unspent [] = tt
unspent (row ∷ rows) = ((λ _. omega arith), unspent rows)

spent_out :
    (n : ℕ) (row : OutboxRow)
    → max_delivery_attempts ≤ n
    → is_pending row ≡ true
    → n ≤ row.attempts
    → ⊥
spent_out n row l p h = ground arith

none_pending :
    (n : ℕ) (table : List OutboxRow)
    → max_delivery_attempts ≤ n
    → All (IsSpent n) table
    → fetch_pending table ≡ []
unfolding fetch_pending
none_pending n [] l h = refl
none_pending n (row ∷ rows) l h = elim (Bool-cases (is_pending row)) [
  | inl pending ↦ absurd (spent_out n row l pending (h.0 pending))
  | inr done ↦ rw done (none_pending n rows l h.1)
]

-- A dead chat cannot wedge the queue: when no two rows have one id, after any five passes or more
-- in which Telegram itself has no fault, whatever its answers to the chats, nothing is pending;
-- every row has been delivered or has used up its attempts.
pub fetch_pending-drain_all :
    (runs : List (ℕ → Delivery)) (table : List OutboxRow)
    → HasDistinctIds table
    → All IsFaultless runs
    → max_delivery_attempts ≤ length runs
    → fetch_pending (drain_all runs table).0 ≡ []
fetch_pending-drain_all runs table distinct up enough =
    none_pending (length runs) _ enough
      (IsSpent-drain_all 0 (length runs) runs table (omega arith) up distinct (unspent table))
