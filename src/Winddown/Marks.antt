-- ===== src/Winddown/Marks.antt =====
-- The marks of a loss budget agree with one another, whatever the operator does meanwhile.
-- A baseline and its time come together and only with a budget, and an unarmed budget has no
-- ledger: nothing spent, no warning and no breach.
use epigone.Prelude.{
  ◌≡◌, refl, Bool, true, false, ◌&&◌, ◌||◌, not, Option, none, some, List, [], ◌∷◌, arith,
  if◌then◌else◌,
}
use epigone.Decimal.{Decimal, Time, Rounding}
use epigone.Winddown.{
  is_set, same_amount, same_instant, arm_budget, record_budget_spend, disable_for_spent_budget,
  reenable_sub, operate, operate_all, written, judge_loss_budget, disable_if_flat, step, run,
  BudgetRow, BudgetEvent, tells_armed, tells_disabled, OperatorCall, copies, uncopies, BudgetCall,
  judges, disables, operates, judge_armed, judge_terms, disable_breach,
}

abbrev pub IsSound : BudgetRow → Type 0
IsSound row =
    (is_set row.baseline_usd ≡ is_set row.armed_at)
    × (is_set row.loss_budget_usd ≡ false → is_set row.baseline_usd ≡ false)
    × (is_set row.baseline_usd ≡ false
        → (is_set row.spent_usd ≡ false)
          × (is_set row.warned_at ≡ false)
          × (is_set row.breached_at ≡ false))

cleared :
    {A : Type 0} (c : Bool) (x : Option A)
    → is_set x ≡ false
    → is_set (if c then none else x) ≡ false
cleared true x h = refl
cleared false x h = h

gone : {A : Type 0} (c : Bool) (x : Option A) → is_set (if c || true then none else x) ≡ false
gone true x = refl
gone false x = refl

-- What /copy leaves, by whether the sub was on and by the two budgets
reenabled-IsSound :
    (on : Bool) (budget old : Option Decimal) (row : BudgetRow)
    → row.enabled ≡ on
    → row.loss_budget_usd ≡ old
    → IsSound row
    → IsSound (reenable_sub budget row)
unfolding reenable_sub
reenabled-IsSound false none old row off o (h, k, m) = rw off (
  refl,
  λ _. refl,
  λ _. (
    refl,
    gone (not (same_amount none row.loss_budget_usd)) row.warned_at,
    gone (not (same_amount none row.loss_budget_usd)) row.breached_at,
  ),
)
reenabled-IsSound false (some b) old row off o (h, k, m) = rw off (
  refl,
  λ _. refl,
  λ _. (
    refl,
    gone (not (same_amount (some b) row.loss_budget_usd)) row.warned_at,
    gone (not (same_amount (some b) row.loss_budget_usd)) row.breached_at,
  ),
)
reenabled-IsSound true none none row on o (h, k, m) =
    let (_, warned, breach) = m (k (rw o refl)) in
    rw (on, o) (refl, λ _. refl, λ _. (refl, warned, breach))
reenabled-IsSound true none (some b) row on o (h, k, m) =
    rw (on, o) (refl, λ _. refl, λ _. (refl, refl, refl))
reenabled-IsSound true (some b) old row on o (h, k, m) = rw on (
  h,
  λ none_named. ground (arith, none_named),
  λ bare.
      let (spent, warned, breach) = m bare in
      (
        spent,
        cleared (not (same_amount (some b) row.loss_budget_usd) || false) row.warned_at warned,
        cleared (not (same_amount (some b) row.loss_budget_usd) || false) row.breached_at breach,
      ),
)

operate_all-IsSound :
    (os : List OperatorCall) (row : BudgetRow) → IsSound row → IsSound (operate_all os row)
unfolding operate_all operate
operate_all-IsSound [] row h = h
operate_all-IsSound (copies budget ∷ os) row h =
    operate_all-IsSound os (reenable_sub budget row)
      (reenabled-IsSound row.enabled budget row.loss_budget_usd row refl refl h)
operate_all-IsSound (uncopies ∷ os) row h =
    operate_all-IsSound os (record row { enabled = false }) h

written-IsSound :
    (events : List BudgetEvent) (c : Bool) (new row : BudgetRow)
    → (c ≡ true → IsSound new)
    → IsSound row
    → IsSound (written events (if c then some new else none) row).1
written-IsSound events true new row h k = h refl
written-IsSound events false new row h k = k

armed_set :
    (c : Bool) (at : Option Time) (t : Time)
    → (c && same_instant at (some t)) ≡ true
    → is_set at ≡ true
armed_set true none t h = ground (arith, h)
armed_set true (some _) t h = refl
armed_set false at t h = ground (arith, h)

-- A verdict about terms that the operator has replaced since they were read writes nothing and
-- tells nothing: the row that /copy left is judged afresh by the next cycle.
pub judge_loss_budget_stale :
    (r : Rounding) (sub : BudgetRow) (equity deposits : Decimal) (now : Time) (row : BudgetRow)
    → is_set sub.baseline_usd ≡ true
    → same_amount row.loss_budget_usd sub.loss_budget_usd && same_instant row.armed_at sub.armed_at
      ≡ false
    → judge_loss_budget r sub equity deposits now row ≡ ([], row)
unfolding judge_loss_budget judge_terms judge_armed record_budget_spend
judge_loss_budget_stale r sub equity deposits now row armed moved =
    stale sub.loss_budget_usd sub.enabled sub.baseline_usd sub.armed_at armed moved
  where
    stale :
        (budget : Option Decimal) (on : Bool) (base : Option Decimal) (at : Option Time)
        → is_set base ≡ true
        → same_amount row.loss_budget_usd budget && same_instant row.armed_at at ≡ false
        → judge_terms r budget on base at sub equity deposits now row ≡ ([], row)
    stale none on base at h m = refl
    stale (some b) false base at h m = refl
    stale (some b) true none at h m = ground (arith, h)
    stale (some b) true (some c) none h m = refl
    stale (some b) true (some c) (some t) h m = rw m refl

module _ (r : Rounding) where
  judge_terms-IsSound :
      (budget : Option Decimal) (on : Bool) (base : Option Decimal) (armed : Option Time)
      (sub : BudgetRow) (equity deposits : Decimal) (now : Time) (row : BudgetRow)
      → IsSound row
      → IsSound (judge_terms r budget on base armed sub equity deposits now row).1
  unfolding judge_terms judge_armed arm_budget record_budget_spend
  judge_terms-IsSound none on base armed sub equity deposits now row h = h
  judge_terms-IsSound (some budget) false base armed sub equity deposits now row h = h
  judge_terms-IsSound (some budget) true none armed sub equity deposits now row (h, k, m) =
      written-IsSound (tells_armed ∷ [])
        (is_set row.loss_budget_usd && not (is_set row.baseline_usd)) _ row
        (λ free. (refl, λ unnamed. ground (arith, free, unnamed), λ bare. ground (arith, bare)))
        (h, k, m)
  judge_terms-IsSound (some budget) true (some base) none sub equity deposits now row h = h
  judge_terms-IsSound (some budget) true (some base) (some armed) sub equity deposits now row
        (h, k, m) =
      written-IsSound _
        (same_amount row.loss_budget_usd (some budget) && same_instant row.armed_at (some armed)) _
        row
        (λ same. (
          h,
          k,
          λ bare. ground (
            arith,
            bare,
            h,
            armed_set (same_amount row.loss_budget_usd (some budget)) row.armed_at armed same,
          ),
        ))
        (h, k, m)

  disable_breach-IsSound :
      (breach : Option Time) (ready : Bool) (row : BudgetRow)
      → IsSound row
      → IsSound (disable_breach r breach ready row).1
  unfolding disable_breach disable_for_spent_budget
  disable_breach-IsSound none ready row h = h
  disable_breach-IsSound (some breach) false row h = h
  disable_breach-IsSound (some breach) true row h =
      written-IsSound (tells_disabled ∷ [])
        (row.enabled && same_instant row.breached_at (some breach)) (record row { enabled = false })
        row (λ _. h) h

  step-IsSound : (c : BudgetCall) (row : BudgetRow) → IsSound row → IsSound (step r c row).1
  unfolding step judge_loss_budget disable_if_flat
  step-IsSound (judges between equity deposits now) row h =
      judge_terms-IsSound row.loss_budget_usd row.enabled row.baseline_usd row.armed_at row equity
        deposits now (operate_all between row) (operate_all-IsSound between row h)
  step-IsSound (disables between flat ready) row h =
      disable_breach-IsSound row.breached_at (row.enabled && flat && ready)
        (operate_all between row) (operate_all-IsSound between row h)
  step-IsSound (operates o) row h = operate_all-IsSound (o ∷ []) row h

  -- In every run, whatever the operator commands between a cycle's reading of a sub and its
  -- writing of it, a baseline and its instant stand together and only beside a budget, and a
  -- budget without a baseline has no loss, no warning and no breach on record.
  pub run-IsSound :
      (cs : List BudgetCall) (row : BudgetRow) → IsSound row → IsSound (run r cs row).1
  unfolding run
  run-IsSound [] row h = h
  run-IsSound (c ∷ cs) row h = run-IsSound cs (step r c row).1 (step-IsSound c row h)
