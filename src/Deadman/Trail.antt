-- ===== src/Deadman/Trail.antt =====
-- The trail that safety/deadman.py leaves.
-- The state that the trail shows, newest event first.
use epigone.Prelude.{◌≡◌, refl, Bool, true, false, List, [], ◌∷◌, arith, if-intro}
use epigone.Decimal.{Time}
use epigone.Deadman.{
  is_due, maintain, SwitchState, unknown, ineligible, active, Answer, accepted, volume_gated,
  unexpected, ambiguous, SwitchEvent, deadman_ineligible, deadman_unsettled, deadman_activated,
  Timings, Switch, World, defer, rejected, armed, attempt,
}

abbrev pub shown : List SwitchEvent → SwitchState
shown [] = unknown
shown (deadman_ineligible ∷ _) = ineligible
shown (deadman_unsettled ∷ _) = unknown
shown (deadman_activated ∷ _) = active

defer_state : (c : Timings) (s : Switch) (now : Time) → (defer c s now).state ≡ s.state
unfolding defer
defer_state c s now = ground arith

shown-rejected :
    (c : Timings) (w : World) (now : Time) (writes : Bool) (next : SwitchState)
    (event : SwitchEvent)
    → shown (event ∷ w.trail) ≡ next
    → shown w.trail ≡ w.switch.state
    → shown (rejected c w now writes next event).trail
      ≡ (rejected c w now writes next event).switch.state
unfolding rejected
shown-rejected c w now writes next event e h = ground (
  arith,
  e,
  h,
  defer_state c w.switch now,
  defer_state c (record (w.switch) { state = next }) now,
)

shown-armed :
    (c : Timings) (w : World) (now : Time) (writes : Bool)
    → shown w.trail ≡ w.switch.state
    → shown (armed c w now writes).trail ≡ (armed c w now writes).switch.state
unfolding armed
shown-armed c w now writes h = ground arith

-- A transition never outruns its trail: whatever the exchange answers and whether or not the
-- event can be written, a cycle leaves the switch in the state that its trail shows, if it found
-- it so.
shown-maintain :
    (c : Timings) (w : World) (now : Time) (writes : Bool) (answer : Answer)
    → shown w.trail ≡ w.switch.state
    → shown (maintain c w now writes answer).trail ≡ (maintain c w now writes answer).switch.state
unfolding maintain attempt
shown-maintain c w now writes answer h =
    if-intro (λ (x : World). shown x.trail ≡ x.switch.state) (is_due w.switch now) (λ _. due answer)
      (λ _. h)
  where
    due :
        (answer : Answer)
        → shown (attempt c w now writes answer).trail ≡ (attempt c w now writes answer).switch.state
    due accepted = shown-armed c w now writes h
    due volume_gated = shown-rejected c w now writes ineligible deadman_ineligible refl h
    due unexpected = shown-rejected c w now writes unknown deadman_unsettled refl h
    due (ambiguous true) = h
    due (ambiguous false) = h
