-- ===== src/RateBudget/Gate.antt =====
-- The send gate of budget.py: no stretch of time is granted faster than twenty a second.
use epigone.Prelude.{ℕ, ◌+◌, ◌≤◌, max, ◌≡◌, List, [], ◌∷◌, arith, ◌==◌, if◌then◌else◌}
use epigone.Decimal.{Time}
use epigone.RateBudget.{
  gate_window, try_spend, settle, operate, run, Row, Operation, attempt, settlement,
}
use epigone.RateBudget.Minute.{Between}

try_spend_gate :
    (row : Row) (now : Time) (weight reserve : ℕ)
    → max now row.next_send_at
        + gate_window (if (try_spend row now weight reserve).1 == 0 then weight else 0)
      ≤ max now (try_spend row now weight reserve).0.next_send_at
unfolding try_spend
try_spend_gate row now weight reserve = ground arith

settle_gate :
    (row : Row) (now : Time) (weight : ℕ) → row.next_send_at ≤ (settle row now weight).next_send_at
unfolding settle
settle_gate row now weight = ground arith

-- An open gate: what was granted found the gate behind the clock.
granted_gate :
    (row : Row) (now : Time) (weight reserve : ℕ)
    → (try_spend row now weight reserve).1 ≡ 0
    → row.next_send_at ≤ now
unfolding try_spend
granted_gate row now weight reserve h = ground arith

operate_gate :
    (row : Row) (now : Time) (op : Operation)
    → max now row.next_send_at + gate_window (operate row now op).1
      ≤ max now (operate row now op).0.next_send_at
unfolding operate
operate_gate row now (attempt weight reserve) = try_spend_gate row now weight reserve
operate_gate row now (settlement weight) =
    unfold gate_window in omega (arith, settle_gate row now weight)

run_gate :
    (row : Row) (start finish : Time) (ops : List (Time × Operation))
    → Between start finish ops
    → max start row.next_send_at + gate_window (run row ops).1
      ≤ max finish (run row ops).0.next_send_at
unfolding run gate_window
run_gate row start finish [] b = omega arith
run_gate row start finish ((now, op) ∷ ops) b =
    omega (arith, b.0, operate_gate row now op, run_gate (operate row now op).0 now finish ops b.1)

-- When an attempt is granted, everything that was granted since any earlier instant has had its
-- full share of a second at twenty a second, settled surcharges only adding to the wait.
pub run_gated :
    (row : Row) (start finish : Time) (ops : List (Time × Operation)) (weight reserve : ℕ)
    → Between start finish ops
    → (try_spend (run row ops).0 finish weight reserve).1 ≡ 0
    → start + gate_window (run row ops).1 ≤ finish
run_gated row start finish ops weight reserve b h =
    omega
      (arith, run_gate row start finish ops b, granted_gate (run row ops).0 finish weight reserve h)
