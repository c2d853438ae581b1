-- ===== src/Winddown.antt =====
-- The loss budget of a copied sub: its columns in `copy_subs` (execute/subs.py), and the machine
-- that execute/executor.py drives on them, armed, warned, breached, disabled. A cycle judges the
-- row as it read it and writes the row as it then is; what the operator did between is a list.
use epigone.Decimal.{Decimal, Time, leb_ℤ, Rounding}
use epigone.Policy.{budget_loss, budget_stage, BudgetStage, within, warning, breached}
pub mod Marks
pub mod Once
mod Tests
use epigone.Prelude.{
  Bool, true, false, ◌&&◌, ◌||◌, not, Option, none, some, List, [], ◌∷◌, ◌++◌, ◌==◌, if◌then◌else◌,
}

pub record BudgetRow : Type 0 where
  pub enabled : Bool
  pub loss_budget_usd : Option Decimal
  pub baseline_usd : Option Decimal
  pub armed_at : Option Time
  pub spent_usd : Option Decimal
  pub warned_at : Option Time
  pub breached_at : Option Time

pub data BudgetEvent : Type 0 where
  tells_armed tells_warned tells_breached tells_disabled : BudgetEvent

abbrev pub is_set {ℓ} : {A : Type ℓ} → Option A → Bool
is_set none = false
is_set (some _) = true

abbrev pub coalesce {ℓ} : {A : Type ℓ} → Option A → Option A → Option A
coalesce none new = new
coalesce (some old) new = some old

abbrev pub same_amount : Option Decimal → Option Decimal → Bool
same_amount none none = true
same_amount (some a) (some b) = leb_ℤ a b && leb_ℤ b a
same_amount _ _ = false

abbrev pub same_instant : Option Time → Option Time → Bool
same_instant none none = true
same_instant (some a) (some b) = a == b
same_instant _ _ = false

-- `arm_budget`; none is an update of no row, here and below.
pub arm_budget : Decimal → Time → BudgetRow → Option BudgetRow
arm_budget equity now row =
    if is_set row.loss_budget_usd && not (is_set row.baseline_usd)
    then some (record row { baseline_usd = some equity; armed_at = some now })
    else none

-- `record_budget_spend`
pub record_budget_spend :
    Decimal → Option Time → Option Time → Decimal → Time → BudgetRow → Option BudgetRow
record_budget_spend spent warned breach judged_budget judged_armed row =
    if same_amount row.loss_budget_usd (some judged_budget)
      && same_instant row.armed_at (some judged_armed)
    then some (record row {
      spent_usd = some spent;
      warned_at = coalesce row.warned_at warned;
      breached_at = coalesce row.breached_at breach;
    })
    else none

-- `disable_for_spent_budget`
pub disable_for_spent_budget : Time → BudgetRow → Option BudgetRow
disable_for_spent_budget breach row =
    if row.enabled && same_instant row.breached_at (some breach)
    then some (record row { enabled = false })
    else none

-- The budget columns of `reenable_sub`, which is what /copy writes
pub reenable_sub : Option Decimal → BudgetRow → BudgetRow
reenable_sub budget row =
    let fresh = not (is_set budget) || not row.enabled in
    let moved = not (same_amount budget row.loss_budget_usd) || not row.enabled in
    record {
      enabled = true;
      loss_budget_usd = budget;
      baseline_usd = if fresh then none else row.baseline_usd;
      armed_at = if fresh then none else row.armed_at;
      spent_usd = if fresh then none else row.spent_usd;
      warned_at = if moved then none else row.warned_at;
      breached_at = if moved then none else row.breached_at;
    }

-- What the operator does: /copy with its budget, or /uncopy
pub data OperatorCall : Type 0 where
  copies : Option Decimal → OperatorCall
  uncopies : OperatorCall

pub operate : OperatorCall → BudgetRow → BudgetRow
unfolding reenable_sub
operate (copies budget) row = reenable_sub budget row
operate uncopies row = record row { enabled = false }

pub operate_all : List OperatorCall → BudgetRow → BudgetRow
operate_all [] row = row
operate_all (o ∷ os) row = operate_all os (operate o row)

-- A mark that is earned now, unless the sub that was read has it already
abbrev pub earned : Bool → Option Time → Time → Option Time
earned crossed old now = if crossed && not (is_set old) then some now else none

abbrev pub is_past_warning : BudgetStage → Bool
is_past_warning within = false
is_past_warning warning = true
is_past_warning breached = true

abbrev pub is_breached : BudgetStage → Bool
is_breached breached = true
is_breached _ = false

-- Which notice goes out
abbrev pub notices : Option Time → Option Time → BudgetStage → List BudgetEvent
notices (some _) warned stage = tells_breached ∷ []
notices none (some _) warning = tells_warned ∷ []
notices none _ _ = []

-- What a call leaves: the events that it tells, and the row
abbrev pub written : List BudgetEvent → Option BudgetRow → BudgetRow → List BudgetEvent × BudgetRow
written events none row = ([], row)
written events (some new) row = (events, new)

-- A step of the executor on a sub, with what the operator did since it was read, or the
-- operator's own
pub data BudgetCall : Type 0 where
  judges : List OperatorCall → Decimal → Decimal → Time → BudgetCall
  disables : List OperatorCall → Bool → Bool → BudgetCall
  operates : OperatorCall → BudgetCall

module _ (r : Rounding) where
  -- `_judge_loss_budget` of an armed sub
  judge_armed :
      BudgetRow
      → Decimal
      → Decimal
      → Time
      → Decimal
      → Decimal
      → Time
      → BudgetRow
      → List BudgetEvent × BudgetRow
  unfolding record_budget_spend
  judge_armed sub budget baseline armed equity deposits now row =
      let loss = budget_loss baseline deposits equity in
      let stage = budget_stage r loss budget in
      let warned = earned (is_past_warning stage) sub.warned_at now in
      let breach = earned (is_breached stage) sub.breached_at now in
      written (notices breach warned stage)
        (record_budget_spend loss warned breach budget armed row) row

  -- `_judge_loss_budget` by the terms that were read, its budget, its flag, its baseline and when
  -- it was armed, with `_arm_loss_budget`
  judge_terms :
      Option Decimal
      → Bool
      → Option Decimal
      → Option Time
      → BudgetRow
      → Decimal
      → Decimal
      → Time
      → BudgetRow
      → List BudgetEvent × BudgetRow
  unfolding arm_budget judge_armed
  judge_terms none on base armed sub equity deposits now row = ([], row)
  judge_terms (some budget) false base armed sub equity deposits now row = ([], row)
  judge_terms (some budget) true none armed sub equity deposits now row =
      written (tells_armed ∷ []) (arm_budget equity now row) row
  judge_terms (some budget) true (some base) none sub equity deposits now row = ([], row)
  judge_terms (some budget) true (some base) (some armed) sub equity deposits now row =
      judge_armed sub budget base armed equity deposits now row

  -- `_judge_loss_budget`: the sub as it was read, then its equity and what was moved into it, then
  -- the row as it is
  pub judge_loss_budget :
      BudgetRow → Decimal → Decimal → Time → BudgetRow → List BudgetEvent × BudgetRow
  unfolding judge_terms
  judge_loss_budget sub equity deposits now row =
      judge_terms sub.loss_budget_usd sub.enabled sub.baseline_usd sub.armed_at sub equity deposits
        now row

  -- `_disable_if_flat`: flat is no position and no live episode, cleared that no stray leg rests.
  disable_breach : Option Time → Bool → BudgetRow → List BudgetEvent × BudgetRow
  unfolding disable_for_spent_budget
  disable_breach none ready row = ([], row)
  disable_breach (some breach) false row = ([], row)
  disable_breach (some breach) true row =
      written (tells_disabled ∷ []) (disable_for_spent_budget breach row) row

  pub disable_if_flat : BudgetRow → Bool → Bool → BudgetRow → List BudgetEvent × BudgetRow
  unfolding disable_breach
  disable_if_flat sub flat cleared row =
      disable_breach sub.breached_at (sub.enabled && flat && cleared) row

  pub step : BudgetCall → BudgetRow → List BudgetEvent × BudgetRow
  unfolding judge_loss_budget disable_if_flat operate_all
  step (judges between equity deposits now) sub =
      judge_loss_budget sub equity deposits now (operate_all between sub)
  step (disables between flat cleared) sub =
      disable_if_flat sub flat cleared (operate_all between sub)
  step (operates o) row = ([], operate o row)

  pub run : List BudgetCall → BudgetRow → List BudgetEvent × BudgetRow
  unfolding step
  run [] row = ([], row)
  run (c ∷ cs) row =
      let (events, next) = step c row in let (later, last) = run cs next in (events ++ later, last)
