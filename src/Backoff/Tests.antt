-- ===== src/Backoff/Tests.antt =====
-- A server that answers 429 and asks for a long wait.
use epigone.Prelude.{ℕ, ◌≡◌, refl, some, arith}
use epigone.Prelude.Int.{pos}
use epigone.Decimal.{seconds}
use epigone.Backoff.{rate_limit_max_tries, ended, request_json, limited, Request, rate_limited}
use epigone.Backoff.Bounded.{EndsBy, request_json-EndsBy}

abbrev greedy : ℕ → Request
greedy _ = record { took = seconds 2; jitter = 0; reply = limited (some (pos (seconds 100000))) }

test_greedy : request_json greedy 0 ≡ ended rate_limited 2 (seconds 34)
unfolding request_json
test_greedy = refl

request_json-EndsBy_example : EndsBy (seconds 65) rate_limit_max_tries (request_json greedy 0)
request_json-EndsBy_example = request_json-EndsBy greedy 0 (seconds 30) λ _. omega arith
