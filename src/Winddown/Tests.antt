-- ===== src/Winddown/Tests.antt =====
-- A loss budget from its arming to its end.
use epigone.Prelude.{◌+◌, ◌≤◌, ◌≡◌, refl, true, none, some, List, [], ◌∷◌, All}
use epigone.Decimal.{whole}
use epigone.Winddown.{
  operate, judge_loss_budget, run, BudgetRow, tells_armed, tells_warned, tells_breached,
  tells_disabled, copies, BudgetCall, judges, disables,
}
use epigone.Winddown.Marks.{IsSound, judge_loss_budget_stale, run-IsSound}
use epigone.Winddown.Once.{told, mark, IsQuiet, run_once}
use epigone.Decimal.Truncating.{mag, cut, truncating}
use epigone.Policy.{budget_loss, budget_stage}
use epigone.Prelude.Int.{◌+ℤ◌, ◌-ℤ◌, pos}

abbrev named : BudgetRow
named = record {
  enabled = true;
  loss_budget_usd = some (whole 100);
  baseline_usd = none;
  armed_at = none;
  spent_usd = none;
  warned_at = none;
  breached_at = none;
}

abbrev armed_row : BudgetRow
armed_row = record named { baseline_usd = some (whole 1000); armed_at = some 10 }

-- Armed at $1000, then 85 lost, 110 lost, 90 lost, and flat twice
abbrev life : List BudgetCall
life =
    judges [] (whole 1000) (pos 0) 10
    ∷ judges [] (whole 915) (pos 0) 20
    ∷ judges [] (whole 890) (pos 0) 30
    ∷ judges [] (whole 910) (pos 0) 40
    ∷ disables [] true true
    ∷ disables [] true true
    ∷ []

life-IsQuiet : All IsQuiet life
life-IsQuiet = (refl, (refl, (refl, (refl, (refl, (refl, tt))))))

test_life :
    (run truncating life named).0
    ≡ tells_armed ∷ tells_warned ∷ tells_breached ∷ tells_disabled ∷ []
unfolding run budget_stage budget_loss truncating cut mag ◌-ℤ◌ ◌+ℤ◌
test_life = refl

run_once_example : told tells_warned (run truncating life named).0 + mark tells_warned named ≤ 1
run_once_example = run_once truncating life named tells_warned life-IsQuiet

-- The operator raises the budget while the second cycle measures.
abbrev raised : List BudgetCall
raised =
    judges [] (whole 1000) (pos 0) 10
    ∷ judges (copies (some (whole 500)) ∷ []) (whole 890) (pos 0) 20
    ∷ []

run-IsSound_example : IsSound (run truncating raised named).1
run-IsSound_example = run-IsSound truncating raised named (refl, λ _. refl, λ _. (refl, refl, refl))

test_stale :
    judge_loss_budget truncating armed_row
      (whole 890)
      (pos 0)
      20
      (record armed_row { loss_budget_usd = some (whole 500) })
    ≡ ([], record armed_row { loss_budget_usd = some (whole 500) })
test_stale =
    judge_loss_budget_stale truncating armed_row (whole 890) (pos 0) 20
      (record armed_row { loss_budget_usd = some (whole 500) }) refl refl

-- A budget that is raised and put back while a warned sub is measured loses its warning mark, and
-- the breach of that verdict does not restore it: the warning is told after the breach.
abbrev put_back : List BudgetCall
put_back =
    judges (copies (some (whole 500)) ∷ copies (some (whole 100)) ∷ []) (whole 890) (pos 0) 20
    ∷ judges [] (whole 910) (pos 0) 30
    ∷ []

test_put_back :
    (run truncating put_back (record armed_row { warned_at = some 15 })).0
    ≡ tells_breached ∷ tells_warned ∷ []
unfolding run operate budget_stage budget_loss truncating cut mag ◌-ℤ◌ ◌+ℤ◌
test_put_back = refl
