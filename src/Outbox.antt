-- ===== src/Outbox.antt =====
-- src/epigone/bot/outbox.py: the queue that alerts and notices are delivered from. The table is a
-- list of its rows in the order of their ids, which is the order of the query; what Telegram makes
-- of a row in one pass is an argument.
pub mod Sweep
pub mod Passes
pub mod Once
mod Tests
use epigone.Prelude.{
  ℕ, suc, Bool, true, false, ◌&&◌, not, Option, none, some, List, [], ◌∷◌, ltb, ◌==◌, if◌then◌else◌,
  select,
}
use epigone.Decimal.{Time}

pub record OutboxRow : Type 0 where
  pub id : ℕ
  pub user : ℕ
  pub attempts : ℕ
  pub delivered_at : Option Time

abbrev pub max_delivery_attempts : ℕ
max_delivery_attempts = 5

-- What comes of handing a row to Telegram: accepted at some instant, a fault of Telegram itself,
-- or a refusal of this chat.
pub data Delivery : Type 0 where
  accepted : Time → Delivery
  transient rejected : Delivery

abbrev pub is_stamped {ℓ} : {A : Type ℓ} → Option A → Bool
is_stamped none = false
is_stamped (some _) = true

-- the condition of the query
abbrev pub is_pending : OutboxRow → Bool
is_pending row = not (is_stamped row.delivered_at) && ltb row.attempts max_delivery_attempts

-- `fetch_pending_labeled`
pub fetch_pending : List OutboxRow → List OutboxRow
fetch_pending table = select is_pending table

abbrev pub stamped : Time → OutboxRow → OutboxRow
stamped at row = record row { delivered_at = some at }

abbrev pub burned : OutboxRow → OutboxRow
burned row = record row { attempts = suc row.attempts }

-- an update of the rows of one id
pub update_row : ℕ → (OutboxRow → OutboxRow) → List OutboxRow → List OutboxRow
update_row id f [] = []
update_row id f (row ∷ rows) = (if row.id == id then f row else row) ∷ update_row id f rows

-- The table after a pass, and the ids that it delivered.
abbrev pub Drained : Type 0
Drained = List OutboxRow × List ℕ

-- the body of the loop of `drain_outbox`, with the rest of the loop: the table afterwards, and the
-- ids that were delivered
pub after_answer : Delivery → ℕ → (List OutboxRow → Drained) → List OutboxRow → Drained
unfolding update_row
after_answer transient id rest table = (table, [])
after_answer rejected id rest table = rest (update_row id burned table)
after_answer (accepted at) id rest table =
    let (next, delivered) = rest (update_row id (stamped at) table) in (next, id ∷ delivered)

-- the loop
pub drain_rows : (ℕ → Delivery) → List OutboxRow → List OutboxRow → Drained
unfolding after_answer
drain_rows answers [] table = (table, [])
drain_rows answers (row ∷ rows) table =
    after_answer (answers row.id) row.id (drain_rows answers rows) table

pub drain_outbox : (ℕ → Delivery) → List OutboxRow → Drained
unfolding fetch_pending drain_rows
drain_outbox answers table = drain_rows answers (fetch_pending table) table
