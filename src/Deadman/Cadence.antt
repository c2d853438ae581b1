-- ===== src/Deadman/Cadence.antt =====
-- When the switch of safety/deadman.py attempts again.
-- Every cycle within p of the one before it, and every push accepted.
use epigone.Prelude.{
  ◌+◌, ◌≤◌, ◌<◌, ◌≡◌, refl, sym, ap, ◌∙◌, subst, inl, inr, Bool, true, false, Option, none, some,
  List, [], ◌∷◌, arith, ltb, leb, if◌then◌else◌, Bool-cases,
}
use epigone.Decimal.{Time}
use epigone.Deadman.{
  same_state, half, is_due, maintain, SwitchState, unknown, ineligible, active, accepted,
  volume_gated, unexpected, Timings, Switch, World, Cycle, defer, rejected, armed, attempt,
}

abbrev pub Steady : Time → Time → List Cycle → Type 0
Steady p last [] = Unit {0}
Steady p last (k ∷ ks) =
    (last ≤ k.now) × (k.now ≤ last + p) × (k.answer ≡ accepted) × Steady p k.now ks

-- No cycle of the run finds the schedule of the exchange lapsed.
pub NeverLapses : Timings → World → List Cycle → Type 0
NeverLapses c w [] = Unit {0}
NeverLapses c w (k ∷ ks) =
    ((at : Time) × (w.scheduled ≡ some at) × (k.now ≤ at))
    × NeverLapses c (maintain c w k.now k.writes k.answer) ks

-- The switch pushed at m, and no push was due up to `last`.
abbrev pub IsPushed : Timings → World → Time → Time → Type 0
IsPushed c w last m =
    (w.switch.state ≡ active)
    × (w.switch.next_attempt_at ≡ some (m + half c.horizon))
    × (w.scheduled ≡ some (m + c.horizon))
    × (last ≤ m + half c.horizon)

same_active : (s : SwitchState) → s ≡ active → same_state s active ≡ true
same_active s e = ap (λ t. same_state t active) e

push_now :
    (c : Timings) (w : World) (now : Time) (writes : Bool)
    → w.switch.state ≡ active
    → IsPushed c (armed c w now writes) now now
unfolding armed
push_now c w now writes e =
    let s = same_active w.switch.state e in
    (ground (arith, s, e), ground (arith, s), ground (arith, s), omega arith)

maintain-accepted :
    (c : Timings) (w : World) (k : Cycle)
    → is_due w.switch k.now ≡ true
    → k.answer ≡ accepted
    → maintain c w k.now k.writes k.answer ≡ armed c w k.now k.writes
unfolding maintain attempt
maintain-accepted c w k due e =
    ap (λ b. if b then attempt c w k.now k.writes k.answer else w) due
    ∙ ap (attempt c w k.now k.writes) e

maintain-quiet :
    (c : Timings) (w : World) (k : Cycle)
    → is_due w.switch k.now ≡ false
    → maintain c w k.now k.writes k.answer ≡ w
unfolding maintain
maintain-quiet c w k early = ap (λ b. if b then attempt c w k.now k.writes k.answer else w) early

is_due_early :
    (s : Switch) (now at : Time) → s.next_attempt_at ≡ some at → is_due s now ≡ false → now < at
unfolding is_due
is_due_early s now at e h = ground arith

maintain_steady :
    (c : Timings) (w : World) (k : Cycle) (last m : Time)
    → k.answer ≡ accepted
    → IsPushed c w last m
    → (n : Time) × IsPushed c (maintain c w k.now k.writes k.answer) k.now n
maintain_steady c w k last m e p = elim (Bool-cases (is_due w.switch k.now)) [
  | inl due ↦ (
    k.now,
    subst (λ x. IsPushed c x k.now k.now) (sym (maintain-accepted c w k due e))
        (push_now c w k.now k.writes p.0),
  )
  | inr early ↦
      let before = is_due_early w.switch k.now (m + half c.horizon) p.1 early in
      (
        m,
        subst (λ x. IsPushed c x k.now m) (sym (maintain-quiet c w k early))
            (p.0, p.1, p.2, omega (arith, before)),
      )
]

-- From a switch that has just pushed: while the watchdog cycles at least every p, p being at most
-- what the horizon has beyond its half, and every push is accepted, no cycle finds the schedule
-- on the exchange lapsed.
pub maintain_all-NeverLapses :
    (c : Timings) (p : Time) (w : World) (last m : Time) (ks : List Cycle)
    → half c.horizon + p ≤ c.horizon
    → IsPushed c w last m
    → Steady p last ks
    → NeverLapses c w ks
unfolding NeverLapses
maintain_all-NeverLapses c p w last m [] fits pushed steady = tt
maintain_all-NeverLapses c p w last m (k ∷ ks) fits pushed steady =
    let (n, next) = maintain_steady c w k last m steady.2 pushed in
    (
      (m + c.horizon, pushed.2, omega (arith, steady.1, pushed.3, fits)),
      maintain_all-NeverLapses c p (maintain c w k.now k.writes k.answer) k.now n ks fits next
          steady.3,
    )

-- Whether an attempt that was rejected at `now` may be made again at `later`.
abbrev pub may_retry : Timings → Option Time → Time → Time → Bool
may_retry c none now later = leb (now + c.reprobe) later
may_retry c (some until) now later = if ltb now until then true else leb (now + c.reprobe) later

defer-may_retry :
    (c : Timings) (s : Switch) (armed_until : Option Time) (now later : Time)
    → s.armed_until ≡ armed_until
    → is_due (defer c s now) later ≡ may_retry c armed_until now later
unfolding is_due defer
defer-may_retry c s none now later e = ground arith
defer-may_retry c s (some until) now later e = ground arith

-- After an attempt that was due, was rejected in either way and whose event could be written, the
-- switch waits its slow cadence, but while the schedule that it armed still stands it is due
-- again at once.
pub maintain-may_retry :
    (c : Timings) (w : World) (now later : Time)
    → is_due w.switch now ≡ true
    → (is_due (maintain c w now true volume_gated).switch later
        ≡ may_retry c w.switch.armed_until now later)
      × (is_due (maintain c w now true unexpected).switch later
          ≡ may_retry c w.switch.armed_until now later)
unfolding maintain attempt rejected
maintain-may_retry c w now later due =
    (ground (arith, due, plain, moved ineligible), ground (arith, due, plain, moved unknown))
  where
    plain : is_due (defer c w.switch now) later ≡ may_retry c w.switch.armed_until now later
    plain = defer-may_retry c w.switch w.switch.armed_until now later refl

    moved :
        (next : SwitchState)
        → is_due (defer c (record (w.switch) { state = next }) now) later
          ≡ may_retry c w.switch.armed_until now later
    moved next =
        defer-may_retry c (record (w.switch) { state = next }) w.switch.armed_until now later refl
