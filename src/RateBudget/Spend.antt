-- ===== src/RateBudget/Spend.antt =====
-- What one spender of the shared bucket (budget.py) is promised.
use native.Mathlib.Nat.{le_refl}
use epigone.Prelude.{
  ℕ, suc, ◌+◌, ◌-◌, ◌*◌, ◌≤◌, max, ◌≡◌, ◌∙◌, inl, inr, true, false, some, arith, ◌==◌, Bool-cases,
}
use epigone.Prelude.Int.{◌+ℤ◌, ◌≤ℤ◌, +ℤ_parts, -ℤ_parts, pos}
use epigone.Decimal.{Time}
use epigone.RateBudget.{
  burst_weight, tokens, rate, capacity, refilled, try_spend, sleep_of, spend_loop, spend, Row,
  granted, token_wait, gate_wait,
}

-- The reserve is a floor and gives the order of priority: a grant leaves at least the reserve in
-- the bucket, and where a spender with some reserve is granted, one with a smaller reserve is too.
pub try_spend_reserve :
    (row : Row) (now : Time) (weight reserve smaller : ℕ)
    → (try_spend row now weight reserve).1 ≡ 0
    → smaller ≤ reserve
    → (pos (tokens reserve) ≤ℤ (try_spend row now weight reserve).0.available)
      × ((try_spend row now weight smaller).1 ≡ 0)
unfolding try_spend
try_spend_reserve row now weight reserve smaller h k = ground (
  arith,
  -ℤ_parts (pos (tokens (weight + reserve))) (refilled row now),
  -ℤ_parts (pos (tokens (weight + smaller))) (refilled row now),
  -ℤ_parts (refilled row now) (pos (tokens weight)),
)

-- What a refused attempt leaves, and what its wait covers.
refused_lem :
    (row : Row) (now : Time) (weight reserve : ℕ)
    → row.last_refill ≤ now
    → ((try_spend row now weight reserve).1 == 0) ≡ false
    → let (next, wait) = try_spend row now weight reserve in
      (next.last_refill ≡ now)
      × (next.next_send_at * rate ≤ now * rate + wait)
      × (pos (tokens (weight + reserve)) ≤ℤ next.available +ℤ pos wait)
unfolding try_spend
refused_lem row now weight reserve h e = ground (
  arith,
  -ℤ_parts (pos (tokens (weight + reserve))) (refilled row now),
  +ℤ_parts (refilled row now)
      (pos (max (token_wait (refilled row now) weight reserve) (gate_wait row now))),
)

granted_lem :
    (row : Row) (now : Time) (weight reserve : ℕ)
    → row.next_send_at ≤ now
    → pos (tokens (weight + reserve)) ≤ℤ refilled row now
    → (try_spend row now weight reserve).1 ≡ 0
unfolding try_spend
granted_lem row now weight reserve h k =
    ground (arith, -ℤ_parts (pos (tokens (weight + reserve))) (refilled row now))

pub sleep_covers : (wait : ℕ) → wait ≤ sleep_of wait * rate
unfolding sleep_of
sleep_covers wait = omega arith

refilled_after :
    (row : Row) (now : Time) (nap wait need : ℕ)
    → row.last_refill ≡ now
    → need ≤ capacity
    → wait ≤ nap * rate
    → pos need ≤ℤ row.available +ℤ pos wait
    → pos need ≤ℤ refilled row (now + nap)
unfolding refilled
refilled_after row now nap wait need e k h m = ground (
  arith,
  +ℤ_parts row.available (pos wait),
  +ℤ_parts row.available (pos ((now + nap - row.last_refill) * rate)),
)

second_granted :
    (row : Row) (now : Time) (weight reserve : ℕ)
    → row.last_refill ≤ now
    → weight + reserve ≤ burst_weight
    → ((try_spend row now weight reserve).1 == 0) ≡ false
    → (try_spend
        (try_spend row now weight reserve).0
        (now + sleep_of (try_spend row now weight reserve).1)
        weight
        reserve).1
      ≡ 0
second_granted row now weight reserve h k e =
    let (next, wait) = try_spend row now weight reserve in
    let (written, gate, short) = refused_lem row now weight reserve h e in
    granted_lem next (now + sleep_of wait) weight reserve (omega (arith, gate, sleep_covers wait)) (
      refilled_after next now (sleep_of wait) wait (tokens (weight + reserve)) written (omega arith)
        (sleep_covers wait) short)

loop_now :
    (attempts : ℕ) (row : Row) (now : Time) (weight reserve : ℕ)
    → ((try_spend row now weight reserve).1 == 0) ≡ true
    → spend_loop (suc attempts) row now weight reserve
      ≡ some ((try_spend row now weight reserve).0, now)
unfolding spend_loop
loop_now attempts row now weight reserve e = rw e

loop_again :
    (attempts : ℕ) (row : Row) (now : Time) (weight reserve : ℕ)
    → ((try_spend row now weight reserve).1 == 0) ≡ false
    → spend_loop (suc attempts) row now weight reserve
      ≡ spend_loop attempts
          (try_spend row now weight reserve).0
          (now + sleep_of (try_spend row now weight reserve).1)
          weight
          reserve
unfolding spend_loop
loop_again attempts row now weight reserve e = rw e

spend_of_loop :
    (attempts : ℕ) (row : Row) (now : Time) (weight reserve : ℕ) (next : Row) (at : Time)
    → weight + reserve ≤ burst_weight
    → spend_loop attempts row now weight reserve ≡ some (next, at)
    → spend attempts row now weight reserve ≡ granted next at
unfolding spend
spend_of_loop attempts row now weight reserve next at k e = ground arith

-- A spender that is alone with the row, whose weight and reserve fit the bucket and whose clock is
-- not behind the row's, is granted at the second attempt at the latest, and no later than its
-- first wait after it began.
pub spend_returns :
    (row : Row) (now : Time) (weight reserve attempts : ℕ)
    → row.last_refill ≤ now
    → weight + reserve ≤ burst_weight
    → (next : Row) × (at : Time) × (spend (suc (suc attempts)) row now weight reserve
        ≡ granted next at)
      × (now ≤ at)
      × (at ≤ now + sleep_of (try_spend row now weight reserve).1)
spend_returns row now weight reserve attempts h k =
    let (next, wait) = try_spend row now weight reserve in
    let later : Time = now + sleep_of wait in
    elim (Bool-cases (wait == 0)) [
      | inl at_once ↦ (
        next,
        now,
        spend_of_loop (suc (suc attempts)) row now weight reserve next now k
            (loop_now (suc attempts) row now weight reserve at_once),
        le_refl now,
        omega arith,
      )
      | inr refused ↦ (
        (try_spend next later weight reserve).0,
        later,
        spend_of_loop (suc (suc attempts)) row now weight reserve
            (try_spend next later weight reserve).0 later k
            (loop_again (suc attempts) row now weight reserve refused
              ∙ loop_now attempts next later weight reserve
                  (rw (second_granted row now weight reserve h k refused))),
        omega arith,
        le_refl later,
      )
    ]
