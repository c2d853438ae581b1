-- ===== src/Deadman/Net.antt =====
-- What the switch of safety/deadman.py knows of the schedule on the exchange.
-- What the switch knows of is on the exchange, at that instant or later.
use epigone.Prelude.{
  ◌+◌, ◌≤◌, ◌≡◌, refl, sym, subst, ◌⊎◌, inl, inr, Bool, true, false, not, Option, none, some, List,
  [], ◌∷◌, arith, if-intro,
}
use epigone.Decimal.{Time}
use epigone.Deadman.{
  same_state, is_due, maintain, maintain_all, Forwards, SwitchState, unknown, ineligible, Answer,
  accepted, volume_gated, unexpected, ambiguous, SwitchEvent, deadman_ineligible, deadman_unsettled,
  Timings, Switch, World, Cycle, defer, rejected, armed, attempt,
}

abbrev pub IsConservative : Option Time → Option Time → Time → Type 0
IsConservative none scheduled latest = Unit {0}
IsConservative (some known) none latest = ⊥
IsConservative (some known) (some real) latest = (known ≤ real) × (real ≤ latest)

IsConservative-later :
    (known real : Option Time) (early late : Time)
    → early ≤ late
    → IsConservative known real early
    → IsConservative known real late
IsConservative-later none real early late le h = tt
IsConservative-later (some known) none early late le h = h
IsConservative-later (some known) (some real) early late le h = (h.0, omega (arith, h.1, le))

IsConservative-replaced :
    (known real : Option Time) (early late : Time)
    → early ≤ late
    → IsConservative known real early
    → IsConservative known (some late) late
IsConservative-replaced none real early late le h = tt
IsConservative-replaced (some known) none early late le h = absurd h
IsConservative-replaced (some known) (some real) early late le h =
    (omega (arith, h.0, h.1, le), omega arith)

defer_armed_until :
    (c : Timings) (s : Switch) (now : Time) → (defer c s now).armed_until ≡ s.armed_until
unfolding defer
defer_armed_until c s now = ground arith

rejected_schedule :
    (c : Timings) (w : World) (now : Time) (writes : Bool) (next : SwitchState)
    (event : SwitchEvent)
    → ((rejected c w now writes next event).switch.armed_until ≡ w.switch.armed_until)
      × ((rejected c w now writes next event).scheduled ≡ w.scheduled)
unfolding rejected
rejected_schedule c w now writes next event =
    if-intro
      (λ (x : World). (x.switch.armed_until ≡ w.switch.armed_until) × (x.scheduled ≡ w.scheduled))
      (same_state w.switch.state next) (λ _. (defer_armed_until c w.switch now, refl))
      (λ _.
        if-intro
          (λ (x : World).
            (x.switch.armed_until ≡ w.switch.armed_until) × (x.scheduled ≡ w.scheduled))
          (not writes) (λ _. (refl, refl))
          (λ _. (defer_armed_until c (record (w.switch) { state = next }) now, refl)))

attempt_cases :
    (c : Timings) (w : World) (now : Time) (writes : Bool) (answer : Answer)
    → (((attempt c w now writes answer).switch.armed_until ≡ w.switch.armed_until)
        × ((attempt c w now writes answer).scheduled ≡ w.scheduled))
      ⊎ (((attempt c w now writes answer).switch.armed_until ≡ some (now + c.horizon))
          × ((attempt c w now writes answer).scheduled ≡ some (now + c.horizon)))
      ⊎ (((attempt c w now writes answer).switch.armed_until ≡ w.switch.armed_until)
          × ((attempt c w now writes answer).scheduled ≡ some (now + c.horizon)))
unfolding attempt armed rejected
attempt_cases c w now writes accepted = inr (inl (ground arith))
attempt_cases c w now writes volume_gated =
    inl (rejected_schedule c w now writes ineligible deadman_ineligible)
attempt_cases c w now writes unexpected =
    inl (rejected_schedule c w now writes unknown deadman_unsettled)
attempt_cases c w now writes (ambiguous true) = inr (inr (refl, refl))
attempt_cases c w now writes (ambiguous false) = inl (refl, refl)

attempt-IsConservative :
    (c : Timings) (w : World) (last now : Time) (writes : Bool) (answer : Answer)
    → last ≤ now
    → IsConservative w.switch.armed_until w.scheduled (last + c.horizon)
    → IsConservative
        (attempt c w now writes answer).switch.armed_until
        (attempt c w now writes answer).scheduled
        (now + c.horizon)
attempt-IsConservative c w last now writes answer le h =
    elim (attempt_cases c w now writes answer) [
      | inl (known, real) ↦
          subst (λ k. IsConservative k w2.scheduled (now + c.horizon)) (sym known)
            (subst (λ r. IsConservative w.switch.armed_until r (now + c.horizon)) (sym real)
              (IsConservative-later w.switch.armed_until w.scheduled (last + c.horizon)
                (now + c.horizon) later h))
      | inr (inl (known, real)) ↦
          subst (λ k. IsConservative k w2.scheduled (now + c.horizon)) (sym known)
            (subst (λ r. IsConservative (some (now + c.horizon)) r (now + c.horizon)) (sym real)
              (omega arith, omega arith))
      | inr (inr (known, real)) ↦
          subst (λ k. IsConservative k w2.scheduled (now + c.horizon)) (sym known)
            (subst (λ r. IsConservative w.switch.armed_until r (now + c.horizon)) (sym real)
              (IsConservative-replaced w.switch.armed_until w.scheduled (last + c.horizon)
                (now + c.horizon) later h))
    ]
  where
    w2 : World
    w2 = attempt c w now writes answer

    later : last + c.horizon ≤ now + c.horizon
    later = omega (arith, le)

-- Along any run of cycles, whatever the exchange answers and ambiguous attempts included, the
-- instant that the switch believes in is on the exchange, or a later one is: a push that may not
-- have happened is never believed.
pub maintain_all-IsConservative :
    (c : Timings) (w : World) (last : Time) (ks : List Cycle)
    → IsConservative w.switch.armed_until w.scheduled (last + c.horizon)
    → Forwards last ks
    → (latest : Time) × IsConservative
        (maintain_all c w ks).switch.armed_until
        (maintain_all c w ks).scheduled
        latest
unfolding maintain_all maintain
maintain_all-IsConservative c w last [] h f = (last + c.horizon, h)
maintain_all-IsConservative c w last (k ∷ ks) h f =
    maintain_all-IsConservative c (maintain c w k.now k.writes k.answer) k.now ks
      (if-intro (λ (x : World). IsConservative x.switch.armed_until x.scheduled (k.now + c.horizon))
        (is_due w.switch k.now) (λ _. attempt-IsConservative c w last k.now k.writes k.answer f.0 h)
        (λ _.
          IsConservative-later w.switch.armed_until w.scheduled (last + c.horizon)
            (k.now + c.horizon) (omega (arith, f.0)) h))
      f.1
