-- ===== src/RateBudget/Tests.antt =====
-- A minute of the shared bucket, and the theorems there.
use epigone.Prelude.{◌+◌, ◌≤◌, ◌<◌, ◌≡◌, refl, List, [], ◌∷◌, arith}
use epigone.Prelude.Int.{◌+ℤ◌, ◌-ℤ◌, pos, negsuc}
use epigone.Decimal.{Time, seconds}
use epigone.RateBudget.{
  capacity, refilled, gate_window, try_spend, settle, operate, run, Row, Operation, attempt,
  settlement,
}
use epigone.RateBudget.Minute.{run_granted_in_a_minute}
use epigone.RateBudget.Gate.{run_gated}

abbrev at_zero : Row
at_zero = record {
  available = pos capacity;
  last_refill = 0;
  next_send_at = 0;
  minute_started_at = 0;
  minute_spent = 0;
}

abbrev spree : List (Time × Operation)
spree =
    (0, attempt 200 0)
    ∷ (seconds 2, attempt 40 30)
    ∷ (seconds 10, attempt 40 30)
    ∷ (seconds 12, settlement 100)
    ∷ (seconds 30, attempt 40 150)
    ∷ []

spree_grants : (run at_zero spree).1 ≡ 280
unfolding run operate try_spend settle refilled ◌-ℤ◌ ◌+ℤ◌
spree_grants = refl

run_granted_in_a_minute_example : ((run at_zero spree).1 ≤ 1140) × ((run at_zero spree).1 < 1200)
run_granted_in_a_minute_example =
    run_granted_in_a_minute at_zero 0 (seconds 60) spree (omega arith) (omega arith) (omega arith)

run_gated_example : 0 + gate_window (run at_zero spree).1 ≤ seconds 60
unfolding run operate try_spend settle refilled ◌-ℤ◌ ◌+ℤ◌
run_gated_example = run_gated at_zero 0 (seconds 60) spree 40 30 (omega arith) refl

abbrev drained : Row
drained = record at_zero { available = negsuc 4999999; next_send_at = 700000 }
