-- ===== src/RateBudget.antt =====
-- src/epigone/budget.py: the token bucket that every process shares, one row that each attempt
-- locks, reads and writes. Tokens are counted in millionths of a weight and instants in
-- microseconds, so that a microsecond of refill at 900 a minute is fifteen tokens; waits are
-- counted in fifteenths of a microsecond. These units make the source's float arithmetic exact.
pub mod Minute
pub mod Gate
pub mod Spend
mod Tests
use epigone.Prelude.{
  ℕ, zero, suc, ◌+◌, ◌-◌, ◌*◌, ◌/◌, max, ◌&&◌, Option, none, some, List, [], ◌∷◌, ltb, ◌==◌,
  if◌then◌else◌,
}
use epigone.Prelude.Int.{pos_part, ◌+ℤ◌, ◌-ℤ◌, ℤ, pos}
use epigone.Decimal.{Time, seconds, min_ℤ}

abbrev pub shared_weight_per_minute : ℕ
shared_weight_per_minute = 900

abbrev pub per_ip_weight_per_minute : ℕ
per_ip_weight_per_minute = 1200

abbrev pub burst_weight : ℕ
burst_weight = 240

abbrev pub stream_reserve_weight : ℕ
stream_reserve_weight = 120

abbrev pub execution_reserve_weight : ℕ
execution_reserve_weight = 30

-- tokens of a weight
abbrev pub tokens : ℕ → ℕ
tokens weight = weight * 1000000

-- tokens that flow in during one microsecond
abbrev pub rate : ℕ
rate = 15

abbrev pub capacity : ℕ
capacity = tokens burst_weight

abbrev pub pacing_sleep_floor : Time
pacing_sleep_floor = 50000

abbrev pub meter_window : Time
meter_window = seconds 60

-- The row of `rate_budget`.
pub record Row : Type 0 where
  pub available : ℤ
  pub last_refill : Time
  pub next_send_at : Time
  pub minute_started_at : Time
  pub minute_spent : ℕ

-- `_locked_row`: the row that is inserted where none is
pub fresh_row : Time → Row
fresh_row now = record {
  available = pos capacity;
  last_refill = now;
  next_send_at = now;
  minute_started_at = now;
  minute_spent = 0;
}

-- `_refilled`: elapsed time stops at 0, as the source's guard against clock skew has it
pub refilled : Row → Time → ℤ
refilled row now = min_ℤ (pos capacity) (row.available +ℤ pos ((now - row.last_refill) * rate))

-- `_gate_window`: a weight's share of a second at twenty a second
pub gate_window : ℕ → Time
gate_window weight = weight * 50000

-- `_roll_meter`; the finished minute is only logged
roll_meter : Time → Time → ℕ → Time × ℕ
roll_meter now started_at spent =
    if ltb (now - started_at) meter_window then (started_at, spent) else (now, 0)

-- `_store`
store : Row → ℤ → Time → Time → Time → ℕ → Row
store row available now gate started_at spent = record {
  available = available;
  last_refill = max now row.last_refill;
  next_send_at = gate;
  minute_started_at = started_at;
  minute_spent = spent;
}

-- the tokens that are missing, and so the time until they flow in
token_wait : ℤ → ℕ → ℕ → ℕ
token_wait available weight reserve = pos_part (pos (tokens (weight + reserve)) -ℤ available)

gate_wait : Row → Time → ℕ
gate_wait row now = (row.next_send_at - now) * rate

-- `_try_spend`: the row that is written, and the wait, which is 0 exactly when it was granted
pub try_spend : Row → Time → ℕ → ℕ → Row × ℕ
unfolding token_wait gate_wait roll_meter store gate_window
try_spend row now weight reserve =
    let available = refilled row now in
    let tokens_in = token_wait available weight reserve in
    let gate_in = gate_wait row now in
    let (started_at, spent) = roll_meter now row.minute_started_at row.minute_spent in
    if tokens_in == 0 && gate_in == 0
    then (
      store row (available -ℤ pos (tokens weight)) now (now + gate_window weight) started_at
          (spent + weight),
      0,
    )
    else (store row available now row.next_send_at started_at spent, max tokens_in gate_in)

-- `settle` and `_settle_attempt`
pub settle : Row → Time → ℕ → Row
unfolding roll_meter store gate_window
settle row now weight =
    let available = refilled row now in
    let (started_at, spent) = roll_meter now row.minute_started_at row.minute_spent in
    if weight == 0
    then row
    else store row (available -ℤ pos (tokens weight)) now
        (max row.next_send_at now + gate_window weight) started_at (spent + weight)

-- What a spender's sleep takes: at least the wait, rounded up to whole microseconds, and at least
-- the floor.
unfoldable pub sleep_of : ℕ → Time
sleep_of wait = max ((wait + 14) / rate) pacing_sleep_floor

-- `spend` of a spender that is alone, with the number of attempts as fuel: the row and the instant
-- of the grant.
pub spend_loop : ℕ → Row → Time → ℕ → ℕ → Option (Row × Time)
unfolding sleep_of
spend_loop zero row now weight reserve = none
spend_loop (suc attempts) row now weight reserve =
    let (next, wait) = try_spend row now weight reserve in
    let again = spend_loop attempts next (now + sleep_of wait) weight reserve in
    if wait == 0 then some (next, now) else again

pub data SpendError : Type 0 where
  exceeds_capacity out_of_attempts : SpendError

pub data SpendResult : Type 0 where
  granted : Row → Time → SpendResult
  failed : SpendError → SpendResult

-- `spend`, with its ValueError
pub spend : ℕ → Row → Time → ℕ → ℕ → SpendResult
spend attempts row now weight reserve =
    if ltb burst_weight (weight + reserve)
    then failed exceeds_capacity
    else elim (spend_loop attempts row now weight reserve) [
      | none ↦ failed out_of_attempts
      | some (next, at) ↦ granted next at
    ]

-- What the processes do to the row between them.
pub data Operation : Type 0 where
  attempt : ℕ → ℕ → Operation
  settlement : ℕ → Operation

-- The row after one operation, and the weight that it granted.
pub operate : Row → Time → Operation → Row × ℕ
operate row now (attempt weight reserve) =
    let (next, wait) = try_spend row now weight reserve in (next, if wait == 0 then weight else 0)
operate row now (settlement weight) = (settle row now weight, 0)

-- Any interleaving of the processes' operations, and the weight that it granted in all.
pub run : Row → List (Time × Operation) → Row × ℕ
run row [] = (row, 0)
run row ((now, op) ∷ ops) =
    let (next, weight) = operate row now op in
    let (last, more) = run next ops in (last, weight + more)
