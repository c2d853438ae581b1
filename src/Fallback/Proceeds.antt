-- ===== src/Fallback/Proceeds.antt =====
-- The protective action always proceeds (safety/budget.py over budget.py's WeightBudget).
use epigone.Prelude.{
  ℕ, suc, ◌+◌, ◌-◌, ◌*◌, ◌≤◌, ◌≡◌, refl, ◌∙◌, inl, inr, Bool, true, false, some, arith, ◌==◌,
  Bool-cases,
}
use epigone.Prelude.Int.{◌+ℤ◌, ◌-ℤ◌, ◌≤ℤ◌, +ℤ_parts, -ℤ_parts, pos}
use epigone.Decimal.{Time, min_ℤ}
use epigone.Fallback.{
  full, refill, draw, deficit, take_loop, take, protect, Bucket, took, FallbackBudget, Primary,
  answers, raises, proceeds, spend_primary,
}
use epigone.RateBudget.Spend.{sleep_covers}
use epigone.RateBudget.{shared_weight_per_minute, tokens, rate, sleep_of}

sleep_mono : (a b : ℕ) → a ≤ b → sleep_of a ≤ sleep_of b
unfolding sleep_of
sleep_mono a b h = ground arith

-- How far the bucket is in debt at the most.
abbrev pub Owes : Bucket → ℕ → Type 0
Owes b debt = pos 0 -ℤ pos (tokens debt) ≤ℤ b.available

deficit_bound :
    (b : Bucket) (now : Time) (weight debt : ℕ)
    → Owes b debt
    → deficit weight (refill b now) ≤ tokens (weight + debt)
unfolding deficit refill
deficit_bound b now weight debt h = ground (
  arith,
  -ℤ_parts (pos 0) (pos (tokens debt)),
  +ℤ_parts b.available (pos ((now - b.last_refill) * rate)),
  -ℤ_parts (pos (tokens weight))
      (min_ℤ (pos full) (b.available +ℤ pos ((now - b.last_refill) * rate))),
)

refill_enough :
    (b : Bucket) (now nap weight : ℕ)
    → b.last_refill ≡ now
    → weight ≤ shared_weight_per_minute
    → deficit weight b ≤ nap * rate
    → deficit weight (refill b (now + nap)) ≡ 0
unfolding deficit refill
refill_enough b now nap weight e h k = ground (
  arith,
  -ℤ_parts (pos (tokens weight)) b.available,
  +ℤ_parts b.available (pos ((now + nap - b.last_refill) * rate)),
  -ℤ_parts (pos (tokens weight))
      (min_ℤ (pos full) (b.available +ℤ pos ((now + nap - b.last_refill) * rate))),
)

loop_now :
    (rounds : ℕ) (b : Bucket) (now : Time) (weight : ℕ)
    → (deficit weight (refill b now) == 0) ≡ true
    → take_loop (suc rounds) b now weight ≡ some (draw weight (refill b now), now)
unfolding take_loop
loop_now rounds b now weight e = rw e

loop_again :
    (rounds : ℕ) (b : Bucket) (now : Time) (weight : ℕ)
    → (deficit weight (refill b now) == 0) ≡ false
    → take_loop (suc rounds) b now weight
      ≡ take_loop rounds (refill b now) (now + sleep_of (deficit weight (refill b now))) weight
unfolding take_loop
loop_again rounds b now weight e = rw e

last_refill-refill : (b : Bucket) (now : Time) → (refill b now).last_refill ≡ now
unfolding refill
last_refill-refill b now = refl

-- The bucket takes the weight at the second round at the latest, within the wait for what it lacks.
take_loop_lem :
    (rounds : ℕ) (b : Bucket) (now : Time) (weight debt : ℕ)
    → weight ≤ shared_weight_per_minute
    → Owes b debt
    → (next : Bucket) × (at : Time) × (take_loop (suc (suc rounds)) b now weight ≡ some (next, at))
      × (at ≤ now + sleep_of (tokens (weight + debt)))
take_loop_lem rounds b now weight debt h owes =
    let missing = deficit weight (refill b now) in
    let later : Time = now + sleep_of missing in
    elim (Bool-cases (missing == 0)) [
      | inl at_once ↦
          (draw weight (refill b now), now, loop_now (suc rounds) b now weight at_once, omega arith)
      | inr waits ↦ (
        draw weight (refill (refill b now) later),
        later,
        loop_again (suc rounds) b now weight waits
            ∙ loop_now rounds (refill b now) later weight (
                rw
                  (refill_enough (refill b now) now (sleep_of missing) weight
                    (last_refill-refill b now) h (sleep_covers missing))
                  refl),
        omega (
          arith,
          sleep_mono missing (tokens (weight + debt)) (deficit_bound b now weight debt owes),
        ),
      )
    ]

take_lem :
    (rounds : ℕ) (b : Bucket) (now : Time) (weight debt : ℕ)
    → weight ≤ shared_weight_per_minute
    → Owes b debt
    → (next : Bucket) × (at : Time) × (take (suc (suc rounds)) b now weight ≡ took next at)
      × (at ≤ now + sleep_of (tokens (weight + debt)))
unfolding take
take_lem rounds b now weight debt h owes =
    let (next, at, loop, by) = take_loop_lem rounds b now weight debt h owes in
    (next, at, ground (arith, loop), by)

-- When the call turns to the in-process bucket, or has its answer.
abbrev pub turns_at : Bool → Time → Primary → Time
turns_at true now primary = now
turns_at false now (answers at) = at
turns_at false now (raises at) = at

-- The shared bucket is asked only outside an incident, and its answer leaves this one alone.
abbrev pub IsAsked : FallbackBudget → Bool → Primary → FallbackBudget → Bool → Type 0
IsAsked f true primary next called = called ≡ false
IsAsked f false (answers at) next called = (called ≡ true) × (next ≡ f)
IsAsked f false (raises at) next called = called ≡ true

abbrev budget : Bool → Bucket → FallbackBudget
budget incident b = record { incident_mode = incident; fallback = b }

protect_lem :
    (rounds : ℕ) (incident : Bool) (b : Bucket) (now : Time) (weight debt : ℕ) (primary : Primary)
    → weight ≤ shared_weight_per_minute
    → Owes b debt
    → (next : FallbackBudget) × (at : Time) × (called : Bool) × (protect
          (suc (suc rounds))
          (budget incident b)
          now
          weight
          primary
        ≡ proceeds next at called)
      × (at ≤ turns_at incident now primary + sleep_of (tokens (weight + debt)))
      × IsAsked (budget incident b) incident primary next called
unfolding protect spend_primary
protect_lem rounds true b now weight debt primary h owes =
    let (next, at, taken, by) = take_lem rounds b now weight debt h owes in
    (budget true next, at, false, rw taken refl, by, refl)
protect_lem rounds false b now weight debt (answers at) h owes =
    (budget false b, at, true, refl, omega arith, (refl, refl))
protect_lem rounds false b now weight debt (raises then_at) h owes =
    let (next, at, taken, by) = take_lem rounds b then_at weight debt h owes in
    (budget false next, at, true, rw taken refl, by, refl)

-- The protective action always proceeds: whatever the shared bucket does, in an incident or not,
-- a spend of at most a minute's weight is granted, with two rounds of the in-process bucket, and
-- no later than that bucket needs to refill the weight and its debt, counted from the instant at
-- which the shared one answered or raised, or from the call in an incident. In an incident the
-- shared bucket is not called, and where it answers the in-process one is left as it was.
pub protect_proceeds :
    (rounds : ℕ) (f : FallbackBudget) (now : Time) (weight debt : ℕ) (primary : Primary)
    → weight ≤ shared_weight_per_minute
    → Owes f.fallback debt
    → (next : FallbackBudget) × (at : Time) × (called : Bool) × (protect
          (suc (suc rounds))
          f
          now
          weight
          primary
        ≡ proceeds next at called)
      × (at ≤ turns_at f.incident_mode now primary + sleep_of (tokens (weight + debt)))
      × IsAsked f f.incident_mode primary next called
protect_proceeds rounds f now weight debt primary h owes =
    protect_lem rounds f.incident_mode f.fallback now weight debt primary h owes
