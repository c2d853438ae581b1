-- ===== src/Executor/Claims.antt =====
-- One event is handled by the instance that claims it.
-- Either nothing is done: no act but a lost claim or a deferral, and the desk is as it was; or the
-- event is won, and winning it is the first act.
use epigone.Prelude.{
  ◌≡◌, refl, ap, ◌⊎◌, inl, inr, Bool, true, false, List, [], ◌∷◌, ◌++◌, Bool-cases, if-intro,
}
use epigone.Decimal.{Rounding}
use epigone.Executor.{
  Leg, opening, scaling_in, closing, scaling_out, flip_close, flip_open, Skip, Step, goes, declines,
  raises, CopySub, ClaimableEvent, Desk, Act, claims, defers, Ran,
}
use epigone.Executor.Plan.{entry_plan, exit_plan, EntryReads, EntryPlan, ExitPlan}
use epigone.Executor.Steps.{claims_itself, claim_and_skip, gated, EntryWire, ExitWire}
use epigone.Executor.Run.{
  send_entry, run_entry, entry, send_exit, run_exit, exit, handle_flip, handle_kind, handle,
}
use epigone.Positions.{EventKind, opened, close, flip, scale_in, scale_out}
use epigone.Policy.{RiskLimits}

abbrev pub IsTaken : Bool → Desk → Ran → Type 0
IsTaken won desk ran =
    ((ran.goes_on ≡ false)
      × (ran.desk ≡ desk)
      × ((ran.acts ≡ []) ⊎ (ran.acts ≡ defers ∷ []) ⊎ (ran.acts ≡ claims false ∷ [])))
    ⊎ ((won ≡ true) × ((rest : List Act) × (ran.acts ≡ claims true ∷ rest)))

-- Which claim an event of a kind waits on: a flip's is its close leg's.
abbrev pub won_of : EventKind → EntryWire → ExitWire → Bool
won_of opened k x = k.won
won_of scale_in k x = k.won
won_of close k x = x.won
won_of scale_out k x = x.won
won_of flip k x = x.won

gated-IsTaken :
    (leg : Leg) (won halted : Bool) (desk : Desk) (rest : Ran)
    → claims_itself leg ≡ true
    → IsTaken won desk (gated leg won halted desk rest)
unfolding gated
gated-IsTaken leg false halted desk rest h = rw h (inl (refl, refl, inr (inr refl)))
gated-IsTaken leg true true desk rest h = rw h (inr (refl, (_, refl)))
gated-IsTaken leg true false desk rest h = rw h (inr (refl, (_, refl)))

claim_and_skip-IsTaken :
    (leg : Leg) (won : Bool) (s : Skip) (desk : Desk)
    → claims_itself leg ≡ true
    → IsTaken won desk (claim_and_skip leg won s desk)
unfolding claim_and_skip
claim_and_skip-IsTaken leg won s desk h = elim (Bool-cases s.retry) [
  | inl later ↦ rw (h, later) (inl (refl, refl, inr (inl refl)))
  | inr now ↦ elim (Bool-cases won) [
    | inl ours ↦ rw (h, now, ours) (inr (refl, (_, refl)))
    | inr lost ↦ rw (h, now, lost) (inl (refl, refl, inr (inr refl)))
  ]
]

module _ (r : Rounding) where
  run_entry-IsTaken :
      (leg : Leg) (e : ClaimableEvent) (sub : CopySub) (k : EntryWire) (desk : Desk)
      (m : Step EntryPlan)
      → claims_itself leg ≡ true
      → IsTaken k.won desk (run_entry r leg e sub k desk m)
  unfolding run_entry send_entry
  run_entry-IsTaken leg e sub k desk (goes p) h = gated-IsTaken leg k.won k.halted_first desk _ h
  run_entry-IsTaken leg e sub k desk (declines s) h = claim_and_skip-IsTaken leg k.won s desk h
  run_entry-IsTaken leg e sub k desk raises h = inl (refl, refl, inl refl)

  run_exit-IsTaken :
      (leg : Leg) (e : ClaimableEvent) (k : ExitWire) (desk : Desk) (m : Step ExitPlan)
      → claims_itself leg ≡ true
      → IsTaken k.won desk (run_exit r leg e k desk m)
  unfolding run_exit send_exit
  run_exit-IsTaken leg e k desk (goes p) h = gated-IsTaken leg k.won k.halted desk _ h
  run_exit-IsTaken leg e k desk (declines s) h = claim_and_skip-IsTaken leg k.won s desk h
  run_exit-IsTaken leg e k desk raises h = inl (refl, refl, inl refl)

  -- What follows a close leg that has the event does not undo that it has it.
  handle_flip-IsTaken :
      (e : ClaimableEvent) (sub : CopySub) (l : RiskLimits) (reads : EntryReads) (k : EntryWire)
      (x : ExitWire) (desk : Desk)
      → IsTaken x.won desk (handle_flip r e sub l reads k x desk)
  unfolding handle_flip exit
  handle_flip-IsTaken e sub l reads k x desk =
      let plan = exit_plan r flip_close e sub reads.spec desk in
      let closed = run_exit r flip_close e x desk plan in
      elim (run_exit-IsTaken flip_close e x desk plan refl) [
        | inl (stopped, same, idle) ↦ rw stopped (inl (stopped, same, idle))
        | inr (ours, (rest, first)) ↦
            if-intro (λ (v : Ran). IsTaken x.won desk v) closed.goes_on
              (λ _. inr (
                ours,
                (
                  rest ++ (entry r flip_open e sub l reads k closed.desk).acts,
                  ap (λ (xs : List Act). xs ++ (entry r flip_open e sub l reads k closed.desk).acts)
                      first,
                ),
              ))
              (λ _. inr (ours, (rest, first)))
      ]

  handle_kind-IsTaken :
      (kind : EventKind) (e : ClaimableEvent) (sub : CopySub) (l : RiskLimits) (reads : EntryReads)
      (k : EntryWire) (x : ExitWire) (desk : Desk)
      → IsTaken (won_of kind k x) desk (handle_kind r kind e sub l reads k x desk)
  unfolding handle_kind entry exit
  handle_kind-IsTaken opened e sub l reads k x desk =
      run_entry-IsTaken opening e sub k desk (entry_plan r opening e sub l reads desk) refl
  handle_kind-IsTaken scale_in e sub l reads k x desk =
      run_entry-IsTaken scaling_in e sub k desk (entry_plan r scaling_in e sub l reads desk) refl
  handle_kind-IsTaken close e sub l reads k x desk =
      run_exit-IsTaken closing e x desk (exit_plan r closing e sub reads.spec desk) refl
  handle_kind-IsTaken scale_out e sub l reads k x desk =
      run_exit-IsTaken scaling_out e x desk (exit_plan r scaling_out e sub reads.spec desk) refl
  handle_kind-IsTaken flip e sub l reads k x desk = handle_flip-IsTaken e sub l reads k x desk

  -- An instance that does not win the event, or that defers it, signs nothing, records nothing and
  -- changes nothing; every other handling begins with the claim that it won. For a flip that is
  -- the claim of its close leg, so an instance that loses it does not open either.
  pub handle-IsTaken :
      (e : ClaimableEvent) (sub : CopySub) (l : RiskLimits) (reads : EntryReads) (k : EntryWire)
      (x : ExitWire) (desk : Desk)
      → IsTaken (won_of e.event.kind k x) desk (handle r e sub l reads k x desk)
  unfolding handle
  handle-IsTaken e sub l reads k x desk = handle_kind-IsTaken e.event.kind e sub l reads k x desk
