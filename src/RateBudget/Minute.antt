-- ===== src/RateBudget/Minute.antt =====
-- How much weight the shared bucket of budget.py can grant in a stretch of time.
use native.Mathlib.Nat.{le_refl}
use epigone.Prelude.{
  ℕ, ◌+◌, ◌-◌, ◌*◌, ◌≤◌, ◌<◌, ◌≡◌, inl, inr, true, false, List, [], ◌∷◌, arith, ◌==◌, if◌then◌else◌,
  Bool-cases,
}
use epigone.Prelude.Int.{pos_part, ◌+ℤ◌, -ℤ_parts, pos}
use epigone.Decimal.{Time, seconds}
use epigone.RateBudget.{
  shared_weight_per_minute, per_ip_weight_per_minute, burst_weight, tokens, rate, capacity,
  refilled, try_spend, settle, operate, run, Row, Operation, attempt, settlement,
}

-- The operations stand in the order of time, from one instant to another.
abbrev pub Between : Time → Time → List (Time × Operation) → Type 0
Between start finish [] = start ≤ finish
Between start finish ((now, op) ∷ ops) = (start ≤ now) × Between now finish ops

Between-le :
    (start finish : Time) (ops : List (Time × Operation))
    → Between start finish ops
    → start ≤ finish
Between-le start finish [] b = b
Between-le start finish ((now, op) ∷ ops) b = omega (arith, b.0, Between-le now finish ops b.1)

-- Tokens at hand; a debt counts as none.
abbrev at_hand : Row → Time → ℕ
at_hand row now = pos_part (refilled row now)

refilled_later :
    (row : Row) (start now : Time)
    → row.last_refill ≤ start
    → start ≤ now
    → at_hand row now ≤ at_hand row start + (now - start) * rate
unfolding refilled ◌+ℤ◌
refilled_later row start now h k = ground arith

at_hand_le : (row : Row) (now : Time) → at_hand row now ≤ capacity
unfolding refilled
at_hand_le row now = ground arith

-- A row that was just written has its tokens at hand.
at_hand_written :
    (row : Row) (now : Time) → row.last_refill ≡ now → at_hand row now ≤ pos_part row.available
unfolding refilled ◌+ℤ◌
at_hand_written row now h = ground arith

-- One operation: what it grants leaves the bucket.
try_spend_lem :
    (row : Row) (now : Time) (weight reserve : ℕ)
    → row.last_refill ≤ now
    → ((try_spend row now weight reserve).0.last_refill ≡ now)
      × (pos_part (try_spend row now weight reserve).0.available
            + tokens (if (try_spend row now weight reserve).1 == 0 then weight else 0)
          ≤ at_hand row now)
unfolding try_spend
try_spend_lem row now weight reserve h = ground (
  arith,
  -ℤ_parts (pos (tokens (weight + reserve))) (refilled row now),
  -ℤ_parts (refilled row now) (pos (tokens weight)),
)

settle_written :
    (row : Row) (now : Time) (weight : ℕ)
    → row.last_refill ≤ now
    → (weight == 0) ≡ false
    → ((settle row now weight).last_refill ≡ now)
      × (pos_part (settle row now weight).available ≤ at_hand row now)
unfolding settle
settle_written row now weight h e =
    ground (arith, -ℤ_parts (refilled row now) (pos (tokens weight)))

settle_nothing :
    (row : Row) (now : Time) (weight : ℕ) → (weight == 0) ≡ true → settle row now weight ≡ row
unfolding settle
settle_nothing row now weight e = rw (e, settle)

settle_lem :
    (row : Row) (now : Time) (weight : ℕ)
    → row.last_refill ≤ now
    → ((settle row now weight).last_refill ≤ now)
      × (at_hand (settle row now weight) now ≤ at_hand row now)
settle_lem row now weight h = elim (Bool-cases (weight == 0)) [
  | inl nothing ↦ rw (settle_nothing row now weight nothing) (h, le_refl _)
  | inr some_weight ↦
      let (written, paid) = settle_written row now weight h some_weight in
      (omega arith, omega (arith, at_hand_written (settle row now weight) now written))
]

operate_lem :
    (row : Row) (now : Time) (op : Operation)
    → row.last_refill ≤ now
    → ((operate row now op).0.last_refill ≤ now)
      × (at_hand (operate row now op).0 now + tokens (operate row now op).1 ≤ at_hand row now)
unfolding operate
operate_lem row now (attempt weight reserve) h =
    let (written, paid) = try_spend_lem row now weight reserve h in
    (omega arith, omega (arith, at_hand_written (try_spend row now weight reserve).0 now written))
operate_lem row now (settlement weight) h =
    ((settle_lem row now weight h).0, omega (arith, settle_lem row now weight h))

-- Whatever is granted was at hand at the start or flowed in since.
at_hand-run :
    (row : Row) (start finish : Time) (ops : List (Time × Operation))
    → row.last_refill ≤ start
    → Between start finish ops
    → tokens (run row ops).1 ≤ at_hand row start + (finish - start) * rate
unfolding run
at_hand-run row start finish [] h b = omega arith
at_hand-run row start finish ((now, op) ∷ ops) h b =
    let (written, paid) = operate_lem row now op (omega (arith, b.0)) in
    omega (
      arith,
      b,
      refilled_later row start now h b.0,
      at_hand-run (operate row now op).0 now finish ops written b.1,
      Between-le now finish ops b.1,
    )

-- However the processes' attempts and settlements interleave, and whatever their reserves, the
-- weight that the bucket grants from any instant on is at most a full burst and the refill since.
pub run_granted :
    (row : Row) (start finish : Time) (ops : List (Time × Operation))
    → row.last_refill ≤ start
    → Between start finish ops
    → tokens (run row ops).1 ≤ capacity + (finish - start) * rate
run_granted row start finish ops h b =
    omega (arith, at_hand_le row start, at_hand-run row start finish ops h b)

-- In any minute the granted weight is at most 1140, which is less than the exchange's allowance
-- for the address.
pub run_granted_in_a_minute :
    (row : Row) (start finish : Time) (ops : List (Time × Operation))
    → row.last_refill ≤ start
    → Between start finish ops
    → finish ≤ start + seconds 60
    → ((run row ops).1 ≤ burst_weight + shared_weight_per_minute)
      × ((run row ops).1 < per_ip_weight_per_minute)
run_granted_in_a_minute row start finish ops h b m = (
  omega (arith, run_granted row start finish ops h b),
  omega (arith, run_granted row start finish ops h b),
)
