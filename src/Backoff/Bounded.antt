-- ===== src/Backoff/Bounded.antt =====
-- A call of gateway/http.py is over in bounded time, whatever the server says.
-- Ended by a time, after so many tries
use epigone.Prelude.{
  ℕ, zero, suc, ◌+◌, ◌≤◌, ◌≡◌, Bool, true, false, ◌||◌, not, arith, ◌==◌, if-intro,
}
use epigone.Decimal.{Time}
use epigone.Backoff.{
  rate_limit_max_tries, rate_limit_total_budget, retry_fits_budget, delay_after, request_json,
  Reply, answered, failed, limited, Request, Ended, next_try, attempts,
}

abbrev pub EndsBy : Time → ℕ → Ended → Type 0
EndsBy by n e = (e.at ≤ by) × (e.tries ≤ n)

next_try-EndsBy :
    (reply : Reply) (started : Time) (attempt jitter left : ℕ) (arrived by : Time) (n : ℕ)
    (rest : Time → Ended)
    → arrived ≤ by
    → suc attempt ≤ n
    → started ≤ arrived
    → ((next : Time)
        → started ≤ next
        → next ≤ started + rate_limit_total_budget
        → EndsBy by n (rest next))
    → EndsBy by n (next_try reply started attempt jitter left arrived rest)
unfolding next_try retry_fits_budget
next_try-EndsBy answered started attempt jitter left arrived by n rest h k s m = (h, k)
next_try-EndsBy failed started attempt jitter left arrived by n rest h k s m = (h, k)
next_try-EndsBy (limited header) started attempt jitter left arrived by n rest h k s m =
    let delay = delay_after attempt jitter header in
    if-intro (EndsBy by n) ((left == 0) || not (retry_fits_budget started arrived delay))
      (λ _. (h, k))
      (λ fits. m (arrived + delay) (omega (arith, s)) (fitting (left == 0) arrived delay fits))
  where
    fitting :
        (b : Bool) (arrived : Time) (delay : ℕ)
        → (b || not (retry_fits_budget started arrived delay)) ≡ false
        → arrived + delay ≤ started + rate_limit_total_budget
    fitting true arrived delay f = ground (arith, f)
    fitting false arrived delay f = ground (arith, f)

attempts-EndsBy :
    (requests : ℕ → Request) (started : Time) (attempt left timeout : ℕ) (now : Time)
    → ((i : ℕ) → (requests i).took ≤ timeout)
    → started ≤ now
    → now ≤ started + rate_limit_total_budget
    → EndsBy
        (started + rate_limit_total_budget + timeout)
        (attempt + left)
        (attempts requests started attempt left now)
unfolding attempts
attempts-EndsBy requests started attempt zero timeout now quick h k =
    (omega (arith, k), omega arith)
attempts-EndsBy requests started attempt (suc left) timeout now quick h k =
    next_try-EndsBy (requests attempt).reply started attempt (requests attempt).jitter left
      (now + (requests attempt).took) (started + rate_limit_total_budget + timeout)
      (attempt + suc left) (λ next. attempts requests started (suc attempt) left next)
      (omega (arith, k, quick attempt)) (omega arith) (omega (arith, h))
      λ next after within.
        let (by, few) =
          attempts-EndsBy requests started (suc attempt) left timeout next quick after within in
        (by, omega (arith, few))

-- Where no single request outlasts its timeout, a call that meets rate limits makes at most six
-- tries and is over within the total budget and one timeout of its start, whatever the headers ask
-- for and whatever is drawn.
pub request_json-EndsBy :
    (requests : ℕ → Request) (started : Time) (timeout : ℕ)
    → ((i : ℕ) → (requests i).took ≤ timeout)
    → EndsBy
        (started + rate_limit_total_budget + timeout)
        rate_limit_max_tries
        (request_json requests started)
unfolding request_json
request_json-EndsBy requests started timeout quick =
    attempts-EndsBy requests started 0 rate_limit_max_tries timeout started quick (omega arith)
      (omega arith)
