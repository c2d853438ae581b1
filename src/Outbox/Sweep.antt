-- ===== src/Outbox/Sweep.antt =====
-- `drain_outbox` (bot/outbox.py) as one sweep over the table.
use epigone.Prelude.{
  ℕ, ◌≡◌, refl, ap, ◌∙◌, inl, inr, true, false, List, [], ◌∷◌, arith, ◌==◌, if◌then◌else◌,
  Bool-cases, All, select,
}
use epigone.Outbox.{
  is_pending, fetch_pending, stamped, burned, update_row, Drained, after_answer, drain_rows,
  drain_outbox, OutboxRow, Delivery, accepted, transient, rejected,
}

-- What one sweep makes of the rows: it passes over the ones that are not pending and stops at the
-- first fault of Telegram.
unfoldable pub swept :
    Delivery → OutboxRow → List OutboxRow → List OutboxRow × List ℕ → List OutboxRow × List ℕ
swept transient row rows (rest, delivered) = (row ∷ rows, [])
swept rejected row rows (rest, delivered) = (burned row ∷ rest, delivered)
swept (accepted at) row rows (rest, delivered) = (stamped at row ∷ rest, row.id ∷ delivered)

unfoldable pub sweep : (ℕ → Delivery) → List OutboxRow → List OutboxRow × List ℕ
unfolding swept
sweep answers [] = ([], [])
sweep answers (row ∷ rows) =
    let rest = sweep answers rows in
    if is_pending row then swept (answers row.id) row rows rest else (row ∷ rest.0, rest.1)

abbrev pub IsNew : ℕ → List OutboxRow → Type 0
IsNew id rows = All (λ (row : OutboxRow). (row.id == id) ≡ false) rows

-- No two rows have one id.
abbrev pub HasDistinctIds : List OutboxRow → Type 0
HasDistinctIds [] = Unit
HasDistinctIds (row ∷ rows) = IsNew row.id rows × HasDistinctIds rows

update_row-IsNew :
    (id : ℕ) (f : OutboxRow → OutboxRow) (rows : List OutboxRow)
    → IsNew id rows
    → update_row id f rows ≡ rows
unfolding update_row
update_row-IsNew id f [] h = refl
update_row-IsNew id f (row ∷ rows) h = rw (h.0, update_row-IsNew id f rows h.1)

==_self : (n : ℕ) → (n == n) ≡ true
==_self n = ground arith

select-IsNew : (id : ℕ) (rows : List OutboxRow) → IsNew id rows → IsNew id (select is_pending rows)
select-IsNew id [] h = tt
select-IsNew id (row ∷ rows) h = ground (arith, select-IsNew id rows h.1)

-- A loop that leaves a row in front alone.
abbrev Skips : OutboxRow → (List OutboxRow → Drained) → Type 0
Skips row rest =
    (table : List OutboxRow) → rest (row ∷ table) ≡ (row ∷ (rest table).0, (rest table).1)

after_answer-Skips :
    (a : Delivery) (id : ℕ) (rest : List OutboxRow → Drained) (row : OutboxRow)
    → (row.id == id) ≡ false
    → Skips row rest
    → Skips row (after_answer a id rest)
unfolding after_answer update_row
after_answer-Skips transient id rest row e s table = refl
after_answer-Skips rejected id rest row e s table = rw (e, s (update_row id burned table))
after_answer-Skips (accepted at) id rest row e s table =
    rw (e, s (update_row id (stamped at) table))

-- A row whose id is none of the ones to send stays in front untouched.
drain_rows-Skips :
    (answers : ℕ → Delivery) (todo : List OutboxRow) (row : OutboxRow)
    → IsNew row.id todo
    → Skips row (drain_rows answers todo)
unfolding drain_rows
drain_rows-Skips answers [] row h = λ table. refl
drain_rows-Skips answers (x ∷ todo) row h =
    after_answer-Skips (answers x.id) x.id (drain_rows answers todo) row (ground arith)
      (drain_rows-Skips answers todo row h.1)

-- A row that is sent first.
after_answer-swept :
    (answers : ℕ → Delivery) (a : Delivery) (row : OutboxRow) (rows todo : List OutboxRow)
    → IsNew row.id rows
    → IsNew row.id todo
    → after_answer a row.id (drain_rows answers todo) (row ∷ rows)
      ≡ swept a row rows (drain_rows answers todo rows)
unfolding after_answer swept update_row
after_answer-swept answers transient row rows todo new unsent = refl
after_answer-swept answers rejected row rows todo new unsent =
    rw (==_self row.id, update_row-IsNew row.id burned rows new)
      (drain_rows-Skips answers todo (burned row) unsent rows)
after_answer-swept answers (accepted at) row rows todo new unsent =
    rw (==_self row.id, update_row-IsNew row.id (stamped at) rows new)
      (rw (drain_rows-Skips answers todo (stamped at row) unsent rows))

-- When no two rows have one id, a pass over the queue, with the query and an update by id for each
-- answer, is one sweep: the rows that are not pending stay as they are, each pending row up to
-- the first fault of Telegram is stamped or loses an attempt as its own answer says, and from that
-- fault on nothing is touched.
pub drain_outbox-sweep :
    (answers : ℕ → Delivery) (table : List OutboxRow)
    → HasDistinctIds table
    → drain_outbox answers table ≡ sweep answers table
unfolding drain_outbox fetch_pending drain_rows sweep
drain_outbox-sweep answers [] h = refl
drain_outbox-sweep answers (row ∷ rows) h =
    let todo = select is_pending rows in
    elim (Bool-cases (is_pending row)) [
      | inl pending ↦ rw pending (
          after_answer-swept answers (answers row.id) row rows todo h.0
            (select-IsNew row.id rows h.0)
          ∙ ap (swept (answers row.id) row rows) (drain_outbox-sweep answers rows h.1))
      | inr done ↦ rw done (
          drain_rows-Skips answers todo row (select-IsNew row.id rows h.0) rows
          ∙ ap (λ (rest : Drained). let r : Drained = (row ∷ rest.0, rest.1) in r)
              (drain_outbox-sweep answers rows h.1))
    ]
