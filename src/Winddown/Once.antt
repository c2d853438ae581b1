-- ===== src/Winddown/Once.antt =====
-- Each notice of a loss budget is told once.
use epigone.Policy.{budget_loss, budget_stage, BudgetStage, within, warning, breached}
use epigone.Prelude.{
  ℕ, ◌+◌, ◌≤◌, ◌≡◌, refl, sym, subst, inl, inr, Bool, true, false, ◌&&◌, not, Option, none, some,
  List, [], ◌∷◌, ◌++◌, arith, if◌then◌else◌, Bool-cases, All,
}
use epigone.Decimal.{Decimal, Time, Rounding}
use epigone.Winddown.{
  is_set, coalesce, same_amount, same_instant, arm_budget, record_budget_spend,
  disable_for_spent_budget, operate_all, earned, is_past_warning, is_breached, notices, written,
  judge_loss_budget, disable_if_flat, step, run, BudgetRow, BudgetEvent, tells_armed, tells_warned,
  tells_breached, tells_disabled, OperatorCall, BudgetCall, judges, disables, operates, judge_armed,
  judge_terms, disable_breach,
}

abbrev pub count : Bool → ℕ
count true = 1
count false = 0

abbrev pub is_event : BudgetEvent → BudgetEvent → Bool
is_event tells_armed tells_armed = true
is_event tells_warned tells_warned = true
is_event tells_breached tells_breached = true
is_event tells_disabled tells_disabled = true
is_event _ _ = false

-- How often an event is told
abbrev pub told : BudgetEvent → List BudgetEvent → ℕ
told e [] = 0
told e (x ∷ xs) = count (is_event e x) + told e xs

-- Whether a row bears the mark of an event
abbrev pub mark : BudgetEvent → BudgetRow → ℕ
mark tells_armed row = count (is_set row.baseline_usd)
mark tells_warned row = count (is_set row.warned_at)
mark tells_breached row = count (is_set row.breached_at)
mark tells_disabled row = count (not row.enabled)

-- A call in which the operator does nothing
abbrev pub IsQuiet : BudgetCall → Type 0
IsQuiet (judges between equity deposits now) = between ≡ []
IsQuiet (disables between flat cleared) = between ≡ []
IsQuiet (operates o) = ⊥

told-append :
    (e : BudgetEvent) (xs ys : List BudgetEvent) → told e (xs ++ ys) ≡ told e xs + told e ys
told-append e [] ys = omega arith
told-append e (x ∷ xs) ys = omega (arith, told-append e xs ys)

mark_le_one : (e : BudgetEvent) (row : BudgetRow) → mark e row ≤ 1
mark_le_one tells_armed row = count_le (is_set row.baseline_usd)
  where
    count_le : (b : Bool) → count b ≤ 1
    count_le true = omega arith
    count_le false = omega arith
mark_le_one tells_warned row = ground arith
mark_le_one tells_breached row = ground arith
mark_le_one tells_disabled row = ground arith

-- What a call tells was not marked before it and is after it.
abbrev IsOnce : BudgetRow → List BudgetEvent × BudgetRow → Type 0
IsOnce row (events, next) = (e : BudgetEvent) → told e events + mark e row ≤ mark e next

silent : (row : BudgetRow) → IsOnce row ([], row)
silent row e = omega arith

-- The notice of a verdict, against the marks it writes
abbrev tells : BudgetEvent → BudgetStage → Option Time → Option Time → Time → ℕ
tells e stage w b now =
    told e (notices (earned (is_breached stage) b now) (earned (is_past_warning stage) w now) stage)

no_other :
    (stage : BudgetStage) (w b : Option Time) (now : Time)
    → (tells tells_armed stage w b now ≡ 0) × (tells tells_disabled stage w b now ≡ 0)
no_other within w b now = (ground arith, ground arith)
no_other warning none b now = (ground arith, ground arith)
no_other warning (some _) b now = (ground arith, ground arith)
no_other breached w none now = (ground arith, ground arith)
no_other breached none (some _) now = (ground arith, ground arith)
no_other breached (some _) (some _) now = (ground arith, ground arith)

once_warned :
    (stage : BudgetStage) (w b : Option Time) (now : Time)
    → tells tells_warned stage w b now + count (is_set w)
      ≤ count (is_set (coalesce w (earned (is_past_warning stage) w now)))
once_warned within none b now = ground arith
once_warned within (some _) b now = ground arith
once_warned warning none b now = ground arith
once_warned warning (some _) b now = ground arith
once_warned breached none none now = ground arith
once_warned breached none (some _) now = ground arith
once_warned breached (some _) none now = ground arith
once_warned breached (some _) (some _) now = ground arith

once_breached :
    (stage : BudgetStage) (w b : Option Time) (now : Time)
    → tells tells_breached stage w b now + count (is_set b)
      ≤ count (is_set (coalesce b (earned (is_breached stage) b now)))
once_breached within w none now = ground arith
once_breached within w (some _) now = ground arith
once_breached warning none none now = ground arith
once_breached warning none (some _) now = ground arith
once_breached warning (some _) none now = ground arith
once_breached warning (some _) (some _) now = ground arith
once_breached breached w none now = ground arith
once_breached breached none (some _) now = ground arith
once_breached breached (some _) (some _) now = ground arith

each :
    (row new : BudgetRow) (events : List BudgetEvent)
    → told tells_armed events + mark tells_armed row ≤ mark tells_armed new
    → told tells_warned events + mark tells_warned row ≤ mark tells_warned new
    → told tells_breached events + mark tells_breached row ≤ mark tells_breached new
    → told tells_disabled events + mark tells_disabled row ≤ mark tells_disabled new
    → IsOnce row (events, new)
each row new events a w b d tells_armed = a
each row new events a w b d tells_warned = w
each row new events a w b d tells_breached = b
each row new events a w b d tells_disabled = d

written-IsOnce :
    (row new : BudgetRow) (c : Bool) (events : List BudgetEvent)
    → IsOnce row (events, new)
    → IsOnce row (written events (if c then some new else none) row)
written-IsOnce row new true events h e = h e
written-IsOnce row new false events h e = omega arith

module _ (r : Rounding) where
  judge_armed-IsOnce :
      (row : BudgetRow) (budget baseline : Decimal) (armed : Time) (equity deposits : Decimal)
      (now : Time)
      → IsOnce row (judge_armed r row budget baseline armed equity deposits now row)
  unfolding judge_armed record_budget_spend
  judge_armed-IsOnce row budget baseline armed equity deposits now =
      let stage = budget_stage r (budget_loss baseline deposits equity) budget in
      let silence = no_other stage row.warned_at row.breached_at now in
      written-IsOnce row _
        (same_amount row.loss_budget_usd (some budget) && same_instant row.armed_at (some armed)) _
        (each _ _ _ (omega (arith, silence)) (once_warned stage row.warned_at row.breached_at now)
          (once_breached stage row.warned_at row.breached_at now) (omega (arith, silence)))

  arm_budget-IsOnce :
      (row : BudgetRow) (equity : Decimal) (now : Time)
      → row.baseline_usd ≡ none
      → IsOnce row (written (tells_armed ∷ []) (arm_budget equity now row) row)
  unfolding arm_budget
  arm_budget-IsOnce row equity now free =
      written-IsOnce row (record row { baseline_usd = some equity; armed_at = some now })
        (is_set row.loss_budget_usd && not (is_set row.baseline_usd)) (tells_armed ∷ [])
        (each row (record row { baseline_usd = some equity; armed_at = some now })
          (tells_armed ∷ []) (ground (arith, free)) (omega arith) (omega arith) (omega arith))

  judge_terms-IsOnce :
      (budget : Option Decimal) (on : Bool) (base : Option Decimal) (armed : Option Time)
      (row : BudgetRow) (equity deposits : Decimal) (now : Time)
      → row.baseline_usd ≡ base
      → IsOnce row (judge_terms r budget on base armed row equity deposits now row)
  unfolding judge_terms
  judge_terms-IsOnce none on base armed row equity deposits now h = silent row
  judge_terms-IsOnce (some budget) false base armed row equity deposits now h = silent row
  judge_terms-IsOnce (some budget) true none armed row equity deposits now h =
      arm_budget-IsOnce row equity now h
  judge_terms-IsOnce (some budget) true (some base) none row equity deposits now h = silent row
  judge_terms-IsOnce (some budget) true (some base) (some armed) row equity deposits now h =
      judge_armed-IsOnce row budget base armed equity deposits now

  disable_breach-IsOnce :
      (breach : Option Time) (ready : Bool) (row : BudgetRow)
      → IsOnce row (disable_breach r breach ready row)
  unfolding disable_breach disable_for_spent_budget
  disable_breach-IsOnce none ready row = silent row
  disable_breach-IsOnce (some breach) false row = silent row
  disable_breach-IsOnce (some breach) true row = elim (Bool-cases row.enabled) [
    | inl on ↦
        written-IsOnce row (record row { enabled = false })
          (row.enabled && same_instant row.breached_at (some breach)) (tells_disabled ∷ [])
          (each row (record row { enabled = false }) (tells_disabled ∷ []) (omega arith)
            (omega arith) (omega arith) (ground (arith, on)))
    | inr off ↦
        subst
          (λ (b : Bool). IsOnce row (
            written (tells_disabled ∷ [])
              (if b && same_instant row.breached_at (some breach)
                then some (record row { enabled = false })
                else none)
              row))
          (sym off) (silent row)
  ]

  step-IsOnce : (c : BudgetCall) (row : BudgetRow) → IsQuiet c → IsOnce row (step r c row)
  unfolding step operate_all judge_loss_budget disable_if_flat
  step-IsOnce (judges between equity deposits now) row quiet =
      subst
        (λ (os : List OperatorCall).
          IsOnce row (judge_loss_budget r row equity deposits now (operate_all os row)))
        (sym quiet)
        (judge_terms-IsOnce row.loss_budget_usd row.enabled row.baseline_usd row.armed_at row equity
          deposits now refl)
  step-IsOnce (disables between flat cleared) row quiet =
      subst
        (λ (os : List OperatorCall).
          IsOnce row (disable_if_flat r row flat cleared (operate_all os row)))
        (sym quiet) (disable_breach-IsOnce row.breached_at (row.enabled && flat && cleared) row)
  step-IsOnce (operates o) row quiet = elim quiet [ ]

  run_told : (cs : List BudgetCall) (row : BudgetRow) → All IsQuiet cs → IsOnce row (run r cs row)
  unfolding run
  run_told [] row quiet e = omega arith
  run_told (c ∷ cs) row (quiet, others) e =
      let here = step-IsOnce c row quiet e in
      let (events, next) = step r c row in
      let later = run_told cs next others e in
      omega (arith, here, later, told-append e events (run r cs next).0)

  -- While the operator leaves a sub alone, each of its notices, armed, warned, breached and
  -- disabled, is told at most once over all the cycles, restarts included, and none is told of
  -- which the row bore the mark at the start.
  pub run_once :
      (cs : List BudgetCall) (row : BudgetRow) (e : BudgetEvent)
      → All IsQuiet cs
      → told e (run r cs row).0 + mark e row ≤ 1
  run_once cs row e quiet = omega (arith, run_told cs row quiet e, mark_le_one e (run r cs row).1)
