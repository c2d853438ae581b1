-- ===== src/Deadman.antt =====
-- src/epigone/safety/deadman.py: the scheduleCancel upgrade path. One call of `maintain` is one
-- step; what the exchange answers and whether the trail can be written are its arguments. The
-- exchange is the account's one scheduled instant, beside the switch that tries to know it; its
-- firing is no step, an instant that has passed is one that fired.
pub mod Net
pub mod Trail
pub mod Cadence
mod Tests
use epigone.Prelude.{
  suc, ◌+◌, ◌/◌, ◌%◌, ◌≤◌, Bool, true, false, not, Option, none, some, List, [], ◌∷◌, ltb, ◌==◌,
  if◌then◌else◌,
}
use epigone.Decimal.{Time}

pub data SwitchState : Type 0 where
  unknown ineligible active : SwitchState

-- How a `schedule_cancel` ends. An ambiguous one may have landed.
pub data Answer : Type 0 where
  accepted volume_gated unexpected : Answer
  ambiguous : Bool → Answer

pub data SwitchEvent : Type 0 where
  deadman_ineligible deadman_unsettled deadman_activated : SwitchEvent

pub record Timings : Type 0 where
  pub horizon : Time
  pub reprobe : Time

pub record Switch : Type 0 where
  pub state : SwitchState
  pub next_attempt_at : Option Time
  pub armed_until : Option Time

-- The switch, the instants of the schedule on the exchange, and the events on the trail, newest
-- first.
pub record World : Type 0 where
  pub switch : Switch
  pub scheduled : Option Time
  pub trail : List SwitchEvent

-- `__init__`
abbrev pub new_switch : Switch
new_switch = record { state = unknown; next_attempt_at = none; armed_until = none }

abbrev pub same_state : SwitchState → SwitchState → Bool
same_state unknown unknown = true
same_state ineligible ineligible = true
same_state active active = true
same_state _ _ = false

-- `timedelta / 2`, which rounds a half to the even microsecond.
pub half : Time → Time
half t = if t % 2 == 0 then t / 2 else if t / 2 % 2 == 0 then t / 2 else suc (t / 2)

-- The guard of `maintain`
pub is_due : Switch → Time → Bool
is_due s now = elim s.next_attempt_at [ none ↦ true | some at ↦ not (ltb now at) ]

-- `_defer`
defer : Timings → Switch → Time → Switch
defer c s now = elim s.armed_until [
  | none ↦ record s { next_attempt_at = some (now + c.reprobe) }
  | some until ↦
      if ltb now until
      then record s { next_attempt_at = none }
      else record s { next_attempt_at = some (now + c.reprobe) }
]

-- An attempt that was rejected: the event before the state, and nothing after a failed write.
rejected : Timings → World → Time → Bool → SwitchState → SwitchEvent → World
unfolding defer
rejected c w now writes next event =
    if same_state w.switch.state next
    then record w { switch = defer c w.switch now }
    else if not writes
    then w
    else record w {
      switch = defer c (record (w.switch) { state = next }) now;
      trail = event ∷ w.trail;
    }

-- An attempt that the exchange accepted.
armed : Timings → World → Time → Bool → World
armed c w now writes =
    let held : World = record w {
      switch = record (w.switch) { armed_until = some (now + c.horizon) };
      scheduled = some (now + c.horizon);
    } in
    let next : Option Time = some (now + half c.horizon) in
    if same_state w.switch.state active
    then record held { switch = record (held.switch) { next_attempt_at = next } }
    else if not writes
    then held
    else record held {
      switch = record (held.switch) { state = active; next_attempt_at = next };
      trail = deadman_activated ∷ w.trail;
    }

-- The attempt of `maintain`
attempt : Timings → World → Time → Bool → Answer → World
unfolding rejected armed
attempt c w now writes accepted = armed c w now writes
attempt c w now writes volume_gated = rejected c w now writes ineligible deadman_ineligible
attempt c w now writes unexpected = rejected c w now writes unknown deadman_unsettled
attempt c w now writes (ambiguous landed) =
    if landed then record w { scheduled = some (now + c.horizon) } else w

-- `maintain`: one cycle of the watchdog
pub maintain : Timings → World → Time → Bool → Answer → World
unfolding attempt
maintain c w now writes answer = if is_due w.switch now then attempt c w now writes answer else w

-- What one cycle meets.
pub record Cycle : Type 0 where
  pub now : Time
  pub writes : Bool
  pub answer : Answer

pub maintain_all : Timings → World → List Cycle → World
maintain_all c w [] = w
maintain_all c w (k ∷ ks) = maintain_all c (maintain c w k.now k.writes k.answer) ks

-- Cycles in the order of time, from `last` on.
abbrev pub Forwards : Time → List Cycle → Type 0
Forwards last [] = Unit {0}
Forwards last (k ∷ ks) = (last ≤ k.now) × Forwards k.now ks
