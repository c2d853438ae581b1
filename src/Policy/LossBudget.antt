-- ===== src/Policy/LossBudget.antt =====
-- The loss budget: `budget_loss` and `budget_stage` of execute/policy.py.
use epigone.Prelude.{ℕ, ◌≤◌, ◌≡◌, ap, arith}
use epigone.Prelude.Int.{◌+ℤ◌, ◌-ℤ◌, ◌≤ℤ◌, int_laws}
use epigone.Decimal.{Decimal, Rounding}
use epigone.Policy.{budget_loss, budget_stage, BudgetStage, within, warning, breached}

abbrev pub severity : BudgetStage → ℕ
severity within = 0
severity warning = 1
severity breached = 2

module _ (r : Rounding) where
  stage_mono :
      (budget loss more : Decimal)
      → loss ≤ℤ more
      → severity (budget_stage r loss budget) ≤ severity (budget_stage r more budget)
  unfolding budget_stage
  stage_mono budget loss more h = ground arith

  -- A fall in equity never makes a budget look less spent, whatever was deposited.
  pub budget_stage_mono :
      (budget baseline deposits equity less : Decimal)
      → less ≤ℤ equity
      → severity (budget_stage r (budget_loss baseline deposits equity) budget)
        ≤ severity (budget_stage r (budget_loss baseline deposits less) budget)
  unfolding budget_loss
  budget_stage_mono budget baseline deposits equity less h =
      stage_mono budget (baseline +ℤ deposits -ℤ equity) (baseline +ℤ deposits -ℤ less)
        (omega int_laws)

  -- Funding is neither profit nor loss: money that is moved in through the ledger, and so raises
  -- deposits and equity alike, leaves the measured loss and its stage as they were.
  pub budget_stage_funding :
      (budget baseline deposits equity top_up : Decimal)
      → (budget_loss baseline (deposits +ℤ top_up) (equity +ℤ top_up)
          ≡ budget_loss baseline deposits equity)
        × (budget_stage r (budget_loss baseline (deposits +ℤ top_up) (equity +ℤ top_up)) budget
            ≡ budget_stage r (budget_loss baseline deposits equity) budget)
  unfolding budget_loss
  budget_stage_funding budget baseline deposits equity top_up =
      let same : baseline +ℤ (deposits +ℤ top_up) -ℤ (equity +ℤ top_up)
          ≡ baseline +ℤ deposits -ℤ equity =
        omega int_laws in
      (same, ap (λ loss. budget_stage r loss budget) same)
