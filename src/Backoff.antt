-- ===== src/Backoff.antt =====
-- src/epigone/gateway/backoff.py and the retry loop of gateway/http.py over it. Times are
-- microseconds; the jitter is the number that the generator draws, in millionths, and a header's
-- number is what `float` makes of it, none where it makes nothing.
pub mod Bounded
mod Tests
use epigone.Prelude.Int.{pos_part, ℤ}
use epigone.Decimal.{Time, seconds}
use epigone.Prelude.{
  ℕ, zero, suc, ◌+◌, ◌-◌, ◌*◌, ◌/◌, ◌^◌, min, Bool, ◌||◌, not, Option, none, some, leb, ◌==◌,
  if◌then◌else◌,
}

abbrev pub rate_limit_max_tries : ℕ
rate_limit_max_tries = 6

abbrev pub rate_limit_backoff_base : ℕ
rate_limit_backoff_base = seconds 1

abbrev pub rate_limit_backoff_cap : ℕ
rate_limit_backoff_cap = seconds 30

abbrev pub rate_limit_total_budget : ℕ
rate_limit_total_budget = seconds 35

-- `retry_fits_budget`
pub retry_fits_budget : Time → Time → ℕ → Bool
retry_fits_budget started now delay = leb (now - started + delay) rate_limit_total_budget

abbrev pub backoff_window : ℕ → ℕ
backoff_window attempt = min rate_limit_backoff_cap (rate_limit_backoff_base * 2 ^ attempt)

-- `backoff_delay`
backoff_delay : ℕ → ℕ → ℕ
backoff_delay attempt jitter = backoff_window attempt * (1000000 + jitter) / 2000000

-- `parse_retry_after`
parse_retry_after : Option ℤ → Option ℕ
parse_retry_after none = none
parse_retry_after (some n) = some (min (pos_part n) rate_limit_backoff_cap)

-- One request: how long it takes, what is drawn should it be limited, and the answer; a status of
-- 429 has its header.
pub data Reply : Type 0 where
  answered failed : Reply
  limited : Option ℤ → Reply

pub record Request : Type 0 where
  pub took : ℕ
  pub jitter : ℕ
  pub reply : Reply

-- How long to wait after a limited try
pub delay_after : ℕ → ℕ → Option ℤ → ℕ
unfolding backoff_delay parse_retry_after
delay_after attempt jitter header = elim (parse_retry_after header) [
  | none ↦ backoff_delay attempt jitter
  | some delay ↦ delay
]

-- How a call ends; rate_limited is the RateLimitedError.
pub data Result : Type 0 where
  got raised rate_limited : Result

pub record Ended : Type 0 where
  pub result : Result
  pub tries : ℕ
  pub at : Time

abbrev pub ended : Result → ℕ → Time → Ended
ended result tries at = record { result = result; tries = tries; at = at }

-- What a reply to a try leads to, with how many tries are left; the rest is the next try after a
-- sleep.
next_try : Reply → Time → ℕ → ℕ → ℕ → Time → (Time → Ended) → Ended
unfolding delay_after retry_fits_budget
next_try answered started attempt jitter left arrived rest = ended got (suc attempt) arrived
next_try failed started attempt jitter left arrived rest = ended raised (suc attempt) arrived
next_try (limited header) started attempt jitter left arrived rest =
    let delay = delay_after attempt jitter header in
    if (left == 0) || not (retry_fits_budget started arrived delay)
    then ended rate_limited (suc attempt) arrived
    else rest (arrived + delay)

-- The tries of the loop from one on
attempts : (ℕ → Request) → Time → ℕ → ℕ → Time → Ended
unfolding next_try
attempts requests started attempt zero now = ended rate_limited attempt now
attempts requests started attempt (suc left) now =
    next_try (requests attempt).reply started attempt (requests attempt).jitter left
      (now + (requests attempt).took) (λ next. attempts requests started (suc attempt) left next)

-- `_request_json`
pub request_json : (ℕ → Request) → Time → Ended
unfolding attempts
request_json requests started = attempts requests started 0 rate_limit_max_tries started
