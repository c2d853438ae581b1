-- ===== src/Deadman/Tests.antt =====
-- A switch that is refused, armed and pushed.
use epigone.Prelude.{◌≡◌, refl, true, none, some, List, [], ◌∷◌, arith}
use epigone.Decimal.{Time, seconds}
use epigone.Deadman.{
  new_switch, half, is_due, maintain, maintain_all, active, accepted, unexpected, ambiguous,
  deadman_activated, Timings, World, Cycle, armed, attempt,
}
use epigone.Deadman.Net.{IsConservative, maintain_all-IsConservative}
use epigone.Deadman.Cadence.{NeverLapses, maintain_all-NeverLapses}

abbrev timings : Timings
timings = record { horizon = seconds 600; reprobe = seconds 21600 }

abbrev fresh : World
fresh = record { switch = new_switch; scheduled = none; trail = [] }

abbrev pushed : World
pushed = record {
  switch = record {
    state = active;
    next_attempt_at = some (seconds 1300);
    armed_until = some (seconds 1600);
  };
  scheduled = some (seconds 1600);
  trail = deadman_activated ∷ [];
}

abbrev accepted_at : Time → Cycle
accepted_at now = record { now = now; writes = true; answer = accepted }

test_first_push : (maintain timings fresh (seconds 1000) true accepted).switch.state ≡ active
unfolding maintain attempt armed is_due
test_first_push = refl

abbrev shaky : List Cycle
shaky =
    accepted_at (seconds 1300)
    ∷ record { now = seconds 1650; writes = true; answer = ambiguous true }
    ∷ record { now = seconds 1660; writes = true; answer = unexpected }
    ∷ []

maintain_all-IsConservative_example :
    (latest : Time) × IsConservative
      (maintain_all timings pushed shaky).switch.armed_until
      (maintain_all timings pushed shaky).scheduled
      latest
maintain_all-IsConservative_example =
    maintain_all-IsConservative timings pushed (seconds 1000) shaky (omega arith, omega arith)
      (omega arith, (omega arith, (omega arith, tt)))

maintain_all-NeverLapses_example :
    NeverLapses timings pushed (accepted_at (seconds 1290) ∷ accepted_at (seconds 1580) ∷ [])
unfolding half
maintain_all-NeverLapses_example =
    maintain_all-NeverLapses timings (seconds 300) pushed (seconds 1000) (seconds 1000)
      (accepted_at (seconds 1290) ∷ accepted_at (seconds 1580) ∷ []) (omega arith)
      (refl, refl, refl, omega arith)
      (omega arith, omega arith, refl, (omega arith, omega arith, refl, tt))
