-- ===== src/Executor/Guarded.antt =====
-- What stands before every signature of execute/executor.py.
use epigone.Executor.Fills.{
  bracket_legs, place_legs, place_brackets, fill_desk, fill_brackets, settle_entry,
}
use epigone.Executor.Gates.{IsGuarded, IsGuarded-append}
use epigone.Prelude.Int.{◌+ℤ◌, ◌-ℤ◌, pos}
use epigone.Policy.{RiskLimits}
use epigone.Dict.{lookup}
use epigone.Executor.Plan.{is_scaling_in, entry_plan, exit_plan, EntryReads, EntryPlan, ExitPlan}
use epigone.Executor.Run.{
  bounded_rounds, sign_entry, lever_entry, send_entry, run_entry, entry, exit_order, round_step,
  reduce_rounds, reduce, exited, send_exit, run_exit, exit, handle_flip, handle_kind, handle,
}
use epigone.Positions.{Side, EventKind, opened, close, flip, scale_in, scale_out, Position}
use epigone.Episodes.{live_episode, forget_brackets, CopyEpisode}
use epigone.Decimal.{Decimal, leb_ℤ, Rounding}
use epigone.Executor.Steps.{
  claims_itself, claim_acts, is_lost, claim_and_skip, gated, fill_of, EntryWire, Round, ExitWire,
  Reduction,
}
use epigone.Executor.{
  exit_retry_attempts, Leg, opening, scaling_in, closing, scaling_out, flip_close, flip_open, Skip,
  Step, goes, declines, raises, AssetSpec, OrderSpec, OrderResult, resting, filled, order_rejected,
  CopySub, ClaimableEvent, Desk, done_halted, done_filled, Act, attempts, reads_halt, skips,
  finishes, Ran,
}
use epigone.Prelude.{
  ℕ, String, refl, inl, inr, Bool, true, false, ◌&&◌, Option, none, some, List, [], ◌∷◌, ◌++◌,
  if◌then◌else◌, Bool-cases, Option-cases, if-intro, string_eq,
}

module _ (r : Rounding) where
  place_legs-IsGuarded :
      (id : ℕ) (k : EntryWire) (desk : Desk) (legs : List OrderSpec)
      → IsGuarded true false (place_legs r id k desk legs).0
  unfolding place_legs
  place_legs-IsGuarded id k desk [] = tt
  place_legs-IsGuarded id k desk (leg ∷ legs) = elim (Bool-cases k.halted_brackets) [
    | inl halted ↦ rw halted tt
    | inr running ↦ rw running (refl, refl, tt)
  ]

  fill_brackets-IsGuarded :
      (sub : CopySub) (p : EntryPlan) (k : EntryWire) (desk : Desk) (position : Option Position)
      (episode : Option CopyEpisode)
      → IsGuarded true false (fill_brackets r sub p k desk position episode).0
  unfolding fill_brackets place_brackets
  fill_brackets-IsGuarded sub p k desk none episode = tt
  fill_brackets-IsGuarded sub p k desk (some position) none = tt
  fill_brackets-IsGuarded sub p k desk (some position) (some episode) =
      elim (Bool-cases sub.brackets) [
        | inl on ↦ rw on (
            place_legs-IsGuarded episode.id k
              (record desk { store = forget_brackets episode.id desk.store })
              (bracket_legs r sub position p.spec episode.side))
        | inr off ↦ rw off tt
      ]

  settle_entry-IsGuarded :
      (leg : Leg) (e : ClaimableEvent) (sub : CopySub) (p : EntryPlan) (k : EntryWire)
      (answer : OrderResult) (desk : Desk)
      → IsGuarded true false (settle_entry r leg e sub p k answer desk).0
  unfolding settle_entry
  settle_entry-IsGuarded leg e sub p k (resting _) desk = tt
  settle_entry-IsGuarded leg e sub p k order_rejected desk = tt
  settle_entry-IsGuarded leg e sub p k (filled size price) desk =
      let left = fill_desk r leg e sub p size price k.settled_at desk in
      IsGuarded-append
        (fill_brackets r sub p k left (lookup e.event.coin left.positions)
          (live_episode sub.id e.event.coin left.store.episodes)).0
        (finishes done_filled ∷ []) true false
        (fill_brackets-IsGuarded sub p k left (lookup e.event.coin left.positions)
          (live_episode sub.id e.event.coin left.store.episodes))
        tt

  sign_entry-IsGuarded :
      (leg : Leg) (e : ClaimableEvent) (sub : CopySub) (p : EntryPlan) (k : EntryWire) (desk : Desk)
      → IsGuarded true true (sign_entry r leg e sub p k desk).acts
  unfolding sign_entry
  sign_entry-IsGuarded leg e sub p k desk = elim (Option-cases k.result) [
    | inl failed ↦ rw failed (refl, refl, tt)
    | inr (answer, came) ↦ rw came (refl, refl, settle_entry-IsGuarded leg e sub p k answer desk)
  ]

  lever_entry-IsGuarded :
      (leg : Leg) (e : ClaimableEvent) (sub : CopySub) (p : EntryPlan) (k : EntryWire) (desk : Desk)
      → IsGuarded true true (lever_entry r leg e sub p k desk).acts
  unfolding lever_entry
  lever_entry-IsGuarded leg e sub p k desk = elim (Bool-cases k.leverage_accepted) [
    | inr refused ↦ rw refused (refl, refl, tt)
    | inl set ↦ elim (Bool-cases k.halted_second) [
      | inl halted ↦ rw (set, halted) (refl, refl, tt)
      | inr running ↦ rw (set, running) (refl, refl, sign_entry-IsGuarded leg e sub p k desk)
    ]
  ]

  claim_acts-IsGuarded :
      (leg : Leg) (won a g : Bool) (xs : List Act)
      → IsGuarded a g xs
      → IsGuarded a g (claim_acts leg won ++ xs)
  claim_acts-IsGuarded leg won a g xs k = elim (Bool-cases (claims_itself leg)) [
    | inl first ↦ rw first k
    | inr claimed ↦ rw claimed k
  ]

  gated-IsGuarded :
      (leg : Leg) (won halted : Bool) (desk : Desk) (rest : Ran)
      → IsGuarded true true rest.acts
      → IsGuarded false false (gated leg won halted desk rest).acts
  unfolding gated
  gated-IsGuarded leg won halted desk rest k = elim (Bool-cases (is_lost leg won)) [
    | inl lost ↦ rw lost tt
    | inr ours ↦ elim (Bool-cases halted) [
      | inl stop ↦
          rw (ours, stop)
            (claim_acts-IsGuarded leg won false false
              (attempts leg ∷ reads_halt true ∷ finishes done_halted ∷ []) tt)
      | inr run ↦
          rw (ours, run)
            (claim_acts-IsGuarded leg won false false (attempts leg ∷ reads_halt false ∷ rest.acts)
              k)
    ]
  ]

  claim_and_skip-IsGuarded :
      (leg : Leg) (won : Bool) (s : Skip) (desk : Desk)
      → IsGuarded false false (claim_and_skip leg won s desk).acts
  unfolding claim_and_skip
  claim_and_skip-IsGuarded leg won s desk = elim (Bool-cases (s.retry && claims_itself leg)) [
    | inl deferred ↦ rw deferred tt
    | inr now ↦ elim (Bool-cases (is_lost leg won)) [
      | inl lost ↦ rw (now, lost) tt
      | inr ours ↦
          rw (now, ours) (claim_acts-IsGuarded leg won false false (skips s.category ∷ []) tt)
    ]
  ]

  run_entry-IsGuarded :
      (leg : Leg) (e : ClaimableEvent) (sub : CopySub) (k : EntryWire) (desk : Desk)
      (m : Step EntryPlan)
      → IsGuarded false false (run_entry r leg e sub k desk m).acts
  unfolding run_entry send_entry
  run_entry-IsGuarded leg e sub k desk (goes p) =
      gated-IsGuarded leg k.won k.halted_first desk
        (if is_scaling_in leg
          then sign_entry r leg e sub p k desk
          else lever_entry r leg e sub p k desk)
        (if-intro (λ (x : Ran). IsGuarded true true x.acts) (is_scaling_in leg)
          (λ _. sign_entry-IsGuarded leg e sub p k desk)
          (λ _. lever_entry-IsGuarded leg e sub p k desk))
  run_entry-IsGuarded leg e sub k desk (declines s) = claim_and_skip-IsGuarded leg k.won s desk
  run_entry-IsGuarded leg e sub k desk raises = tt

  round_step-IsGuarded :
      (order : Option OrderSpec) (result : OrderSpec → Option OrderResult) (target sold : Decimal)
      (rest : Decimal → Reduction)
      → ((total : Decimal) → IsGuarded true false (rest total).acts)
      → IsGuarded true true (round_step r order result target sold rest).acts
  unfolding round_step
  round_step-IsGuarded none result target sold rest k = tt
  round_step-IsGuarded (some order) result target sold rest k = elim (Option-cases (result order)) [
    | inl failed ↦ rw failed (refl, refl, tt)
    | inr (answer, came) ↦ rw came (
      refl,
      refl,
      if-intro (λ (x : Reduction). IsGuarded true false x.acts)
          (leb_ℤ (target -ℤ (sold +ℤ fill_of answer)) (pos 0)) (λ _. tt)
          (λ _. k (sold +ℤ fill_of answer)),
    )
  ]

  reduce_rounds-IsGuarded :
      (first : Bool) (ks : List Round) (spec : AssetSpec) (side : Side) (target sold : Decimal)
      → IsGuarded true first (reduce_rounds r first ks spec side target sold).acts
  unfolding reduce_rounds
  reduce_rounds-IsGuarded first [] spec side target sold = tt
  reduce_rounds-IsGuarded true (k ∷ ks) spec side target sold =
      round_step-IsGuarded (exit_order r k.mark spec side (target -ℤ sold)) k.result target sold
        (λ total. reduce_rounds r false ks spec side target total)
        λ total. reduce_rounds-IsGuarded false ks spec side target total
  reduce_rounds-IsGuarded false (k ∷ ks) spec side target sold = elim (Bool-cases k.halted) [
    | inl halted ↦ rw halted tt
    | inr running ↦ rw running (
        round_step-IsGuarded (exit_order r k.mark spec side (target -ℤ sold)) k.result target sold
          (λ total. reduce_rounds r false ks spec side target total)
          λ total. reduce_rounds-IsGuarded false ks spec side target total)
  ]

  exited-IsGuarded :
      (leg : Leg) (coin : String) (p : ExitPlan) (k : ExitWire) (done : Reduction) (desk : Desk)
      → IsGuarded true true done.acts
      → IsGuarded true true (exited r leg coin p k done desk).acts
  unfolding exited
  exited-IsGuarded leg coin p k done desk h = elim (Bool-cases done.raised) [
    | inl raised ↦ rw raised h
    | inr answered ↦ rw answered (IsGuarded-append done.acts (finishes _ ∷ []) true true h tt)
  ]

  run_exit-IsGuarded :
      (leg : Leg) (e : ClaimableEvent) (k : ExitWire) (desk : Desk) (m : Step ExitPlan)
      → IsGuarded false false (run_exit r leg e k desk m).acts
  unfolding run_exit send_exit reduce
  run_exit-IsGuarded leg e k desk (goes p) =
      gated-IsGuarded leg k.won k.halted desk
        (exited r leg e.event.coin p k (reduce r k.rounds p.spec p.episode.side p.target) desk)
        (exited-IsGuarded leg e.event.coin p k (reduce r k.rounds p.spec p.episode.side p.target)
          desk
          (reduce_rounds-IsGuarded true (bounded_rounds exit_retry_attempts k.rounds) p.spec
            p.episode.side p.target (pos 0)))
  run_exit-IsGuarded leg e k desk (declines s) = claim_and_skip-IsGuarded leg k.won s desk
  run_exit-IsGuarded leg e k desk raises = tt

  handle_flip-IsGuarded :
      (e : ClaimableEvent) (sub : CopySub) (l : RiskLimits) (reads : EntryReads) (k : EntryWire)
      (x : ExitWire) (desk : Desk)
      → IsGuarded false false (handle_flip r e sub l reads k x desk).acts
  unfolding handle_flip entry exit
  handle_flip-IsGuarded e sub l reads k x desk =
      let plan = exit_plan r flip_close e sub reads.spec desk in
      let closed = run_exit r flip_close e x desk plan in
      let guarded = run_exit-IsGuarded flip_close e x desk plan in
      if-intro (λ (v : Ran). IsGuarded false false v.acts) closed.goes_on
        (λ _.
          IsGuarded-append closed.acts (entry r flip_open e sub l reads k closed.desk).acts false
            false guarded
            (run_entry-IsGuarded flip_open e sub k closed.desk
              (entry_plan r flip_open e sub l reads closed.desk)))
        (λ _. guarded)

  handle_kind-IsGuarded :
      (kind : EventKind) (e : ClaimableEvent) (sub : CopySub) (l : RiskLimits) (reads : EntryReads)
      (k : EntryWire) (x : ExitWire) (desk : Desk)
      → IsGuarded false false (handle_kind r kind e sub l reads k x desk).acts
  unfolding handle_kind entry exit
  handle_kind-IsGuarded opened e sub l reads k x desk =
      run_entry-IsGuarded opening e sub k desk (entry_plan r opening e sub l reads desk)
  handle_kind-IsGuarded scale_in e sub l reads k x desk =
      run_entry-IsGuarded scaling_in e sub k desk (entry_plan r scaling_in e sub l reads desk)
  handle_kind-IsGuarded close e sub l reads k x desk =
      run_exit-IsGuarded closing e x desk (exit_plan r closing e sub reads.spec desk)
  handle_kind-IsGuarded scale_out e sub l reads k x desk =
      run_exit-IsGuarded scaling_out e x desk (exit_plan r scaling_out e sub reads.spec desk)
  handle_kind-IsGuarded flip e sub l reads k x desk = handle_flip-IsGuarded e sub l reads k x desk

  -- Whatever the kind of the event and whatever the exchange, the clock and the flag answer, every
  -- order and every leverage that is signed comes after an attempt recorded for this event, and
  -- after a read of the halt flag that was false and that no other signature has used.
  pub handle-IsGuarded :
      (e : ClaimableEvent) (sub : CopySub) (l : RiskLimits) (reads : EntryReads) (k : EntryWire)
      (x : ExitWire) (desk : Desk)
      → IsGuarded false false (handle r e sub l reads k x desk).acts
  unfolding handle
  handle-IsGuarded e sub l reads k x desk =
      handle_kind-IsGuarded e.event.kind e sub l reads k x desk
