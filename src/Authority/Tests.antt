-- ===== src/Authority/Tests.antt =====
-- Lanes that change hands, on concrete evaluations.
use epigone.Prelude.{
  ◌+◌, ◌-◌, ◌≤◌, ◌<◌, ◌≡◌, refl, ◌⊎◌, Bool, true, none, some, [], ◌∷◌, ◌++◌, arith, length, All,
}
use epigone.Decimal.{Time, seconds}
use epigone.Authority.{
  ws_recovery, max_subscribed_traders, authority_of, owns, is_fresh, is_outgrown, unresynced,
  is_blocked, evaluate_authority, evaluate_all, poll, ws, stale, Authority, Look, take_ownership,
  probation, handback, decide,
}
use epigone.Authority.Recovery.{evaluate_all_recovers}
use epigone.Authority.Probation.{IsHealthy, evaluated, handback_whole_window}
use epigone.Authority.Safety.{evaluate_authority_ws}

abbrev look : Time → Bool → Look
look now enabled = record {
  now = now;
  enabled = enabled;
  beaten_at = some (now - seconds 5);
  tracked = "0xa" ∷ "0xb" ∷ [];
  resynced_at = λ w. some (seconds 1100);
}

abbrev polling : Authority
polling = record { owner = poll; since = seconds 1000; reason = stale; healthy_since = none }

abbrev serving : Authority
serving = record {
  owner = poll;
  since = seconds 1000;
  reason = stale;
  healthy_since = some (seconds 1200);
}

test_handback : owns (some (evaluate_authority (some serving) (look (seconds 1500) true))) ws ≡ true
unfolding owns evaluate_authority decide handback is_blocked is_outgrown unresynced take_ownership
    probation is_fresh
test_handback = refl

evaluate_authority_ws_example :
    ((look (seconds 1500) true).enabled ≡ true)
    × (is_fresh (look (seconds 1500) true) ≡ true)
    × (length (look (seconds 1500) true).tracked ≤ max_subscribed_traders)
    × (((authority_of (some serving)).owner ≡ ws)
        ⊎ (((authority_of (some serving)).owner ≡ poll)
            × (All
                (λ w.
                  (at : Time) × ((look (seconds 1500) true).resynced_at w ≡ some at)
                  × ((authority_of (some serving)).since ≤ at))
                (look (seconds 1500) true).tracked)
            × ((evaluate_authority (some serving) (look (seconds 1500) true)).since ≡ seconds 1500)
            × ((h : Time) × ((authority_of (some serving)).healthy_since ≡ some h)
                × (h + ws_recovery ≤ seconds 1500))))
unfolding evaluate_authority decide handback is_blocked is_outgrown unresynced take_ownership
    probation is_fresh
evaluate_authority_ws_example = evaluate_authority_ws (some serving) (look (seconds 1500) true) refl

handback_whole_window_example :
    All
      (λ j. (seconds 1500 < j.now + ws_recovery) → IsHealthy j)
      (look (seconds 1300) true ∷ look (seconds 1200) true ∷ [])
unfolding evaluate_authority decide handback is_blocked is_outgrown unresynced take_ownership
    probation is_fresh evaluated
handback_whole_window_example =
    handback_whole_window (some polling) (look (seconds 1300) true ∷ look (seconds 1200) true ∷ [])
      (look (seconds 1500) true) refl (omega arith, (omega arith, tt)) refl refl

evaluate_all_recovers_example :
    (authority_of (
      evaluate_all (some polling) (
        look (seconds 1200) true ∷ (look (seconds 1300) true ∷ [])
        ++ look (seconds 1500) true ∷ []))).owner
    ≡ ws
unfolding is_fresh unresynced
evaluate_all_recovers_example =
    evaluate_all_recovers (some polling) (look (seconds 1200) true) (look (seconds 1500) true)
      (look (seconds 1300) true ∷ []) refl (omega arith) (refl, refl, omega arith, refl)
      ((refl, refl, omega arith, refl), tt) (refl, refl, omega arith, refl) (omega arith)
