-- ===== src/Executor/Run.antt =====
-- The legs of execute/executor.py as they run, and `_handle`, which puts them together.
use epigone.Executor.Fills.{settle_entry}
use epigone.Prelude.Int.{◌+ℤ◌, ◌-ℤ◌, pos}
use epigone.Executor.Plan.{
  is_scaling_in, is_long, entry_plan, exit_plan, EntryReads, EntryPlan, ExitPlan,
}
use epigone.Executor.Steps.{
  claim_and_skip, apply_fill, after, stops, gated, then_reduces, fill_of, settle_exit, reduce_order,
  EntryWire, Round, ExitWire, Reduction,
}
use epigone.Pricing.{round_size, ioc_limit_price}
use epigone.Positions.{Side, EventKind, opened, close, flip, scale_in, scale_out}
use epigone.Policy.{RiskLimits}
use epigone.Executor.{
  exit_retry_attempts, Leg, opening, scaling_in, closing, scaling_out, flip_close, flip_open, Step,
  goes, declines, raises, AssetSpec, OrderSpec, OrderResult, CopySub, ClaimableEvent, Desk,
  done_halted, leverage_not_set, Act, reads_halt, sets_leverage, places, finishes, Ran,
}
use epigone.Decimal.{Decimal, leb_ℤ, Rounding}
use epigone.Prelude.{
  ℕ, zero, suc, String, Bool, true, false, ◌&&◌, not, Option, none, some, List, [], ◌∷◌, ◌++◌,
  if◌then◌else◌,
}

-- The first rounds, as many as the retry is bounded to
abbrev pub bounded_rounds : ℕ → List Round → List Round
bounded_rounds zero ks = []
bounded_rounds (suc n) [] = []
bounded_rounds (suc n) (k ∷ ks) = k ∷ bounded_rounds n ks

module _ (r : Rounding) where
  open r use {mul}

  -- The signing of `_entry`'s order
  unfoldable pub sign_entry : Leg → ClaimableEvent → CopySub → EntryPlan → EntryWire → Desk → Ran
  unfolding settle_entry
  sign_entry leg e sub p k desk = elim k.result [
    | none ↦ stops (places (p.order ∷ []) ∷ []) desk
    | some answer ↦
        let (acts, settled) = settle_entry r leg e sub p k answer desk in
        record { goes_on = true; acts = places (p.order ∷ []) ∷ acts; desk = settled }
  ]

  -- `_set_leverage` and the gate behind it
  unfoldable pub lever_entry : Leg → ClaimableEvent → CopySub → EntryPlan → EntryWire → Desk → Ran
  unfolding sign_entry
  lever_entry leg e sub p k desk =
      if not k.leverage_accepted
      then stops (sets_leverage p.ask.leverage.value ∷ finishes leverage_not_set ∷ []) desk
      else if k.halted_second
      then stops (sets_leverage p.ask.leverage.value ∷ reads_halt true ∷ finishes done_halted ∷ [])
          desk
      else after (sets_leverage p.ask.leverage.value ∷ reads_halt false ∷ [])
          (sign_entry leg e sub p k desk)

  -- `_entry` from its claim on
  unfoldable pub send_entry : Leg → ClaimableEvent → CopySub → EntryPlan → EntryWire → Desk → Ran
  unfolding lever_entry gated
  send_entry leg e sub p k desk =
      gated leg k.won k.halted_first desk (
        if is_scaling_in leg then sign_entry leg e sub p k desk else lever_entry leg e sub p k desk)

  -- `_entry` of what was decided
  unfoldable pub run_entry :
      Leg → ClaimableEvent → CopySub → EntryWire → Desk → Step EntryPlan → Ran
  unfolding send_entry
  run_entry leg e sub k desk (goes p) = send_entry leg e sub p k desk
  run_entry leg e sub k desk (declines s) = claim_and_skip leg k.won s desk
  run_entry leg e sub k desk raises = stops [] desk

  -- `_entry`
  unfoldable pub entry :
      Leg → ClaimableEvent → CopySub → RiskLimits → EntryReads → EntryWire → Desk → Ran
  unfolding run_entry
  entry leg e sub l reads k desk = run_entry leg e sub k desk (entry_plan r leg e sub l reads desk)

  -- An order of so much at such a price, if there are both
  abbrev pub order_of :
      (Decimal → Decimal → OrderSpec) → Option Decimal → Option Decimal → Option OrderSpec
  order_of order (some size) (some price) = some (order size price)
  order_of order _ _ = none

  -- The order of a round of `_reduce`, for what remains; none is the UnpriceableError.
  unfoldable pub exit_order : Option Decimal → AssetSpec → Side → Decimal → Option OrderSpec
  exit_order none spec side remaining = none
  exit_order (some mark) spec side remaining =
      order_of (reduce_order spec (not (is_long side))) (round_size remaining spec.sz_decimals)
        (ioc_limit_price r mark (not (is_long side)) spec.sz_decimals)

  abbrev pub reduced : List Act → Decimal → Bool → Reduction
  reduced acts sold raised = record { acts = acts; filled_size = sold; raised = raised }

  -- One order of `_reduce` and its answer; the rest goes on from what is sold by then.
  unfoldable pub round_step :
      Option OrderSpec
      → (OrderSpec → Option OrderResult)
      → Decimal
      → Decimal
      → (Decimal → Reduction)
      → Reduction
  round_step none result target sold rest = reduced [] sold false
  round_step (some order) result target sold rest =
      then_reduces (places (order ∷ []) ∷ []) (elim (result order) [
        | none ↦ reduced [] sold true
        | some answer ↦
            if leb_ℤ (target -ℤ (sold +ℤ fill_of answer)) (pos 0)
            then reduced [] (sold +ℤ fill_of answer) false
            else rest (sold +ℤ fill_of answer)
      ])

  -- The rounds of `_reduce` after so much is sold
  unfoldable pub reduce_rounds :
      Bool → List Round → AssetSpec → Side → Decimal → Decimal → Reduction
  unfolding exit_order round_step
  reduce_rounds first [] spec side target sold = reduced [] sold false
  reduce_rounds first (k ∷ ks) spec side target sold =
      if not first && k.halted
      then reduced (reads_halt true ∷ []) sold false
      else then_reduces (if first then [] else reads_halt false ∷ []) (
          round_step (exit_order k.mark spec side (target -ℤ sold)) k.result target sold
            (λ total. reduce_rounds false ks spec side target total))

  unfoldable pub reduce : List Round → AssetSpec → Side → Decimal → Reduction
  unfolding reduce_rounds
  reduce ks spec side target =
      reduce_rounds true (bounded_rounds exit_retry_attempts ks) spec side target (pos 0)

  -- What an exit leaves once its orders are answered
  unfoldable pub exited : Leg → String → ExitPlan → ExitWire → Reduction → Desk → Ran
  unfolding settle_exit apply_fill
  exited leg coin p k done desk =
      let (finish, store) =
        settle_exit leg p.episode p.target done.filled_size k.settled_at desk.store in
      if done.raised then stops done.acts desk else record {
        goes_on = true;
        acts = done.acts ++ finishes finish ∷ [];
        desk =
            apply_fill mul coin p.episode.side (p.held -ℤ done.filled_size) p.position.entry_price
              p.position.leverage (record desk { store = store });
      }

  -- `_exit` from its claim on
  unfoldable pub send_exit : Leg → ClaimableEvent → ExitPlan → ExitWire → Desk → Ran
  unfolding exited reduce gated
  send_exit leg e p k desk =
      gated leg k.won k.halted desk
        (exited leg e.event.coin p k (reduce k.rounds p.spec p.episode.side p.target) desk)

  -- `_exit` of what was decided
  unfoldable pub run_exit : Leg → ClaimableEvent → ExitWire → Desk → Step ExitPlan → Ran
  unfolding send_exit
  run_exit leg e k desk (goes p) = send_exit leg e p k desk
  run_exit leg e k desk (declines s) = claim_and_skip leg k.won s desk
  run_exit leg e k desk raises = stops [] desk

  -- `_exit`
  unfoldable pub exit : Leg → ClaimableEvent → CopySub → Option AssetSpec → ExitWire → Desk → Ran
  unfolding run_exit
  exit leg e sub universe k desk = run_exit leg e k desk (exit_plan r leg e sub universe desk)

  -- `_handle` of a flip: the open leg runs where the close leg has the event.
  unfoldable pub handle_flip :
      ClaimableEvent → CopySub → RiskLimits → EntryReads → EntryWire → ExitWire → Desk → Ran
  unfolding entry exit
  handle_flip e sub l reads k x desk =
      let closed = exit flip_close e sub reads.spec x desk in
      if closed.goes_on
      then after closed.acts (entry flip_open e sub l reads k closed.desk)
      else closed

  -- `_handle` of an event of a kind
  unfoldable pub handle_kind :
      EventKind
      → ClaimableEvent
      → CopySub
      → RiskLimits
      → EntryReads
      → EntryWire
      → ExitWire
      → Desk
      → Ran
  unfolding handle_flip
  handle_kind opened e sub l reads k x desk = entry opening e sub l reads k desk
  handle_kind scale_in e sub l reads k x desk = entry scaling_in e sub l reads k desk
  handle_kind close e sub l reads k x desk = exit closing e sub reads.spec x desk
  handle_kind scale_out e sub l reads k x desk = exit scaling_out e sub reads.spec x desk
  handle_kind flip e sub l reads k x desk = handle_flip e sub l reads k x desk

  -- `_handle`
  unfoldable pub handle :
      ClaimableEvent → CopySub → RiskLimits → EntryReads → EntryWire → ExitWire → Desk → Ran
  unfolding handle_kind
  handle e sub l reads k x desk = handle_kind e.event.kind e sub l reads k x desk
