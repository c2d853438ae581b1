-- ===== src/Halts/Tests.antt =====
-- A halt that is opened, joined, swept and resumed.
use epigone.Prelude.{◌≡◌, refl, none, some, [], ◌∷◌, arith}
use epigone.Halts.{
  active_halt, is_halted, inserted_halt, insert_halt, perform_all, request_attempts, kill, watchdog,
  halted, Halts, HaltRequest, requests, sweeps, resumes, created, joined,
}
use epigone.Halts.Standing.{active_count}
use epigone.Halts.Trail.{Agrees, perform_all-Agrees}
use epigone.Halts.Request.{Answers, request_attempts-Answers}

abbrev calm : Halts
calm = record { next_id = 1; rows = []; trail = [] }

abbrev by_kill : HaltRequest
by_kill = record { at = 10; from = kill; why = "operator"; by = some 7 }

abbrev by_watchdog : HaltRequest
by_watchdog = record { at = 11; from = watchdog; why = "executor silent"; by = none }

abbrev halted_once : Halts
halted_once = record { next_id = 2; rows = inserted_halt 1 by_kill ∷ []; trail = halted 1 ∷ [] }

test_opens :
    request_attempts ((by_kill, [], []) ∷ []) calm
    ≡ (created (inserted_halt 1 by_kill), halted_once)
unfolding request_attempts insert_halt is_halted
test_opens = refl

test_joins :
    request_attempts ((by_watchdog, [], []) ∷ []) halted_once
    ≡ (joined (inserted_halt 1 by_kill), halted_once)
unfolding request_attempts insert_halt is_halted active_halt perform_all
test_joins = refl

perform_all-Agrees_example : Agrees (
    perform_all
      (requests by_kill ∷ sweeps 1 20 [] "hold" ∷ resumes 1 30 7 ∷ requests by_watchdog ∷ [])
      calm)
perform_all-Agrees_example =
    perform_all-Agrees
      (requests by_kill ∷ sweeps 1 20 [] "hold" ∷ resumes 1 30 7 ∷ requests by_watchdog ∷ []) calm
      (tt, tt)

request_attempts-Answers_example : Answers (
    request_attempts
      ((by_watchdog, resumes 1 12 7 ∷ [], []) ∷ (by_watchdog, [], []) ∷ [])
      halted_once)
unfolding active_count
request_attempts-Answers_example =
    request_attempts-Answers ((by_watchdog, resumes 1 12 7 ∷ [], []) ∷ (by_watchdog, [], []) ∷ [])
      halted_once (omega arith)
