-- ===== src/Outbox/Tests.antt =====
-- Three rows, of which the second's chat is dead and the third's comes after an outage.
use epigone.Outbox.Once.{count, delivered, delivered-drain_all}
use epigone.Prelude.{ℕ, ◌+◌, ◌*◌, ◌≤◌, ◌≡◌, refl, none, List, [], ◌∷◌, arith, ◌==◌, if◌then◌else◌}
use epigone.Decimal.{seconds}
use epigone.Outbox.{
  fetch_pending, stamped, drain_outbox, OutboxRow, Delivery, accepted, transient, rejected,
}
use epigone.Outbox.Sweep.{sweep, HasDistinctIds, drain_outbox-sweep}
use epigone.Outbox.Passes.{drain_all, IsFaultless, fetch_pending-drain_all}

abbrev row : ℕ → ℕ → OutboxRow
row id attempts = record { id = id; user = id * 10; attempts = attempts; delivered_at = none }

abbrev queue : List OutboxRow
queue = row 1 0 ∷ row 2 4 ∷ row 3 0 ∷ []

abbrev dead_second : ℕ → Delivery
dead_second id = if id == 2 then rejected else accepted (seconds 9)

abbrev outage : ℕ → Delivery
outage id = if id == 3 then transient else dead_second id

-- The outage leaves the third row for the next pass, and the dead chat is given up.
test_passes :
    drain_all (outage ∷ dead_second ∷ []) queue
    ≡ (stamped (seconds 9) (row 1 0) ∷ row 2 5 ∷ stamped (seconds 9) (row 3 0) ∷ [], 1 ∷ 3 ∷ [])
unfolding drain_all drain_outbox
test_passes = refl

distinct : HasDistinctIds queue
distinct = ((refl, (refl, tt)), ((refl, tt), (tt, tt)))

up : IsFaultless dead_second
up id = ground arith

drain_outbox-sweep_example : drain_outbox outage queue ≡ sweep outage queue
drain_outbox-sweep_example = drain_outbox-sweep outage queue distinct

abbrev five : List (ℕ → Delivery)
five = dead_second ∷ dead_second ∷ dead_second ∷ dead_second ∷ dead_second ∷ []

fetch_pending-drain_all_example : fetch_pending (drain_all five queue).0 ≡ []
fetch_pending-drain_all_example =
    fetch_pending-drain_all five queue distinct (up, (up, (up, (up, (up, tt))))) (omega arith)

delivered-drain_all_example :
    (delivered 3 queue + count 3 (drain_all (outage ∷ dead_second ∷ []) queue).1 ≤ 1)
    × (delivered 3 queue + count 3 (drain_all (outage ∷ dead_second ∷ []) queue).1
        ≡ delivered 3 (drain_all (outage ∷ dead_second ∷ []) queue).0)
delivered-drain_all_example = delivered-drain_all 3 (outage ∷ dead_second ∷ []) queue distinct
