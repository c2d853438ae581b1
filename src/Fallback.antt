-- ===== src/Fallback.antt =====
-- The in-process bucket of src/epigone/budget.py and, over it, the budget of the kill path,
-- src/epigone/safety/budget.py: the shared bucket when it answers, and this one when it cannot or
-- while an incident is declared. Units are those of RateBudget, so that the source's floats are
-- integers. What the shared bucket makes of a call is an argument.
pub mod Proceeds
mod Tests
use epigone.Prelude.{
  ℕ, zero, suc, ◌+◌, ◌-◌, ◌*◌, Bool, true, false, Option, none, some, ltb, ◌==◌, if◌then◌else◌,
}
use epigone.Prelude.Int.{pos_part, ◌+ℤ◌, ◌-ℤ◌, ℤ, pos}
use epigone.Decimal.{Time, min_ℤ}
use epigone.RateBudget.{shared_weight_per_minute, tokens, rate, sleep_of}

-- `_available` and `_last_refill` of a WeightBudget of 900 a minute.
pub record Bucket : Type 0 where
  pub available : ℤ
  pub last_refill : Time

abbrev pub full : ℕ
full = tokens shared_weight_per_minute

-- `__init__`
abbrev fresh_bucket : Time → Bucket
fresh_bucket now = record { available = pos full; last_refill = now }

-- `_refill`, with a clock that does not go back
pub refill : Bucket → Time → Bucket
refill b now = record {
  available = min_ℤ (pos full) (b.available +ℤ pos ((now - b.last_refill) * rate));
  last_refill = now;
}

abbrev pub draw : ℕ → Bucket → Bucket
draw weight b = record b { available = b.available -ℤ pos (tokens weight) }

-- the tokens that are missing
pub deficit : ℕ → Bucket → ℕ
deficit weight b = pos_part (pos (tokens weight) -ℤ b.available)

-- the loop of `spend`, with the number of rounds as fuel: the bucket and the instant of the grant
pub take_loop : ℕ → Bucket → Time → ℕ → Option (Bucket × Time)
unfolding refill deficit
take_loop zero b now weight = none
take_loop (suc rounds) b now weight =
    let filled = refill b now in
    let missing = deficit weight filled in
    let again = take_loop rounds filled (now + sleep_of missing) weight in
    if missing == 0 then some (draw weight filled, now) else again

pub data Taken : Type 0 where
  took : Bucket → Time → Taken
  too_heavy out_of_rounds : Taken

-- `spend`, with its ValueError
pub take : ℕ → Bucket → Time → ℕ → Taken
unfolding take_loop
take rounds b now weight =
    if ltb shared_weight_per_minute weight
    then too_heavy
    else elim (take_loop rounds b now weight) [
      | none ↦ out_of_rounds
      | some (next, at) ↦ took next at
    ]

-- `settle`
bill : Bucket → Time → ℕ → Bucket
unfolding refill
bill b now weight = if weight == 0 then b else draw weight (refill b now)

pub record FallbackBudget : Type 0 where
  pub incident_mode : Bool
  pub fallback : Bucket

-- What the shared bucket makes of a call: it answers at some instant, or raises at one.
pub data Primary : Type 0 where
  answers raises : Time → Primary

-- A spend: the budget afterwards, the instant of the grant, and whether the shared bucket was
-- called; or the ValueError of the in-process bucket.
pub data Spent : Type 0 where
  proceeds : FallbackBudget → Time → Bool → Spent
  refused_weight out_of_fuel : Spent

abbrev spent_on : FallbackBudget → Bool → Taken → Spent
spent_on f called (took next at) = proceeds (record f { fallback = next }) at called
spent_on f called too_heavy = refused_weight
spent_on f called out_of_rounds = out_of_fuel

-- `FallbackBudget.spend`, past its first test
spend_primary : ℕ → FallbackBudget → ℕ → Primary → Spent
unfolding take
spend_primary rounds f weight (answers at) = proceeds f at true
spend_primary rounds f weight (raises at) = spent_on f true (take rounds f.fallback at weight)

pub protect : ℕ → FallbackBudget → Time → ℕ → Primary → Spent
unfolding spend_primary
protect rounds f now weight primary =
    if f.incident_mode
    then spent_on f false (take rounds f.fallback now weight)
    else spend_primary rounds f weight primary

settle_primary : FallbackBudget → ℕ → Primary → FallbackBudget
unfolding bill
settle_primary f weight (answers at) = f
settle_primary f weight (raises at) = record f { fallback = bill f.fallback at weight }

-- `FallbackBudget.settle`
protect_settle : FallbackBudget → Time → ℕ → Primary → FallbackBudget
unfolding settle_primary
protect_settle f now weight primary =
    if f.incident_mode
    then record f { fallback = bill f.fallback now weight }
    else settle_primary f weight primary
