-- ===== src/Fallback/Tests.antt =====
-- The database dies while the in-process bucket is in debt by ten.
use epigone.Prelude.{◌+◌, ◌≤◌, ◌≡◌, refl, Bool, true, false, arith}
use epigone.Decimal.{Time, seconds}
use epigone.Fallback.{protect, FallbackBudget, answers, raises, proceeds}
use epigone.Fallback.Proceeds.{protect_proceeds}
use epigone.Prelude.Int.{◌+ℤ◌, ◌-ℤ◌, pos}
use epigone.RateBudget.{tokens, sleep_of}

abbrev in_debt : FallbackBudget
in_debt = record {
  incident_mode = false;
  fallback = record { available = pos 0 -ℤ pos (tokens 10); last_refill = seconds 100 };
}

-- Thirty seconds have brought 450, of which 260 are drawn at once.
test_raises :
    protect 2 in_debt (seconds 120) 260 (raises (seconds 130))
    ≡ proceeds
        (record {
          incident_mode = false;
          fallback = record { available = pos (tokens 180); last_refill = seconds 130 };
        })
        (seconds 130)
        true
unfolding protect ◌+ℤ◌ ◌-ℤ◌
test_raises = refl

-- In an incident the wait is for what is missing: ten of debt and 50 at fifteen a second.
test_incident :
    protect 2 (record in_debt { incident_mode = true }) (seconds 100) 50 (answers (seconds 101))
    ≡ proceeds
        (record {
          incident_mode = true;
          fallback = record { available = pos 0; last_refill = seconds 104 };
        })
        (seconds 104)
        false
unfolding protect sleep_of ◌+ℤ◌ ◌-ℤ◌
test_incident = refl

protect_proceeds_example :
    (next : FallbackBudget) × (at : Time) × (called : Bool) × (protect 2 in_debt
        (seconds 120)
        260
        (raises (seconds 130))
      ≡ proceeds next at called)
    × (at ≤ seconds 130 + sleep_of (tokens (260 + 10)))
    × (called ≡ true)
protect_proceeds_example =
    protect_proceeds 0 in_debt (seconds 120) 260 10 (raises (seconds 130)) (omega arith)
      (omega arith)
