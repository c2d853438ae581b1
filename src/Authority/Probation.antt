-- ===== src/Authority/Probation.antt =====
-- What the recovery window of lane_authority.py proves about the past, and the kill switch.
use epigone.Prelude.{
  ◌+◌, ◌≤◌, ◌<◌, ◌≡◌, refl, ◌⊎◌, inl, inr, true, Option, none, some, List, [], ◌∷◌, arith, All,
}
use epigone.Decimal.{Time}
use epigone.Authority.Safety.{evaluate_authority_ws}
use epigone.Authority.{
  ws_recovery, authority_of, is_fresh, evaluate_authority, Owner, poll, ws, Authority, Look,
  handback, decide,
}

abbrev pub IsHealthy : Look → Type 0
IsHealthy k = (k.enabled ≡ true) × (is_fresh k ≡ true)

-- Of the evaluations so far, newest first, each after some instant was healthy.
abbrev pub HealthyAfter : Time → List Look → Type 0
HealthyAfter h [] = Unit {0}
HealthyAfter h (k ∷ ks) = ((h < k.now) → IsHealthy k) × HealthyAfter h ks

-- Newest first, in the order of time.
abbrev pub Backwards : Time → List Look → Type 0
Backwards now [] = Unit {0}
Backwards now (k ∷ ks) = (k.now ≤ now) × Backwards k.now ks

-- The standing answer after a history, newest first.
unfoldable pub evaluated : Option Authority → List Look → Option Authority
evaluated row [] = row
evaluated row (k ∷ ks) = some (evaluate_authority (evaluated row ks) k)

HealthyAfter-now : (now h : Time) (ks : List Look) → Backwards now ks → now ≤ h → HealthyAfter h ks
HealthyAfter-now now h [] b e = tt
HealthyAfter-now now h (k ∷ ks) b e =
    ((λ lt. absurd (omega (arith, b.0))), HealthyAfter-now k.now h ks b.1 (omega (arith, b.0)))

handback_probation :
    (a : Authority) (k : Look) (from : Option Time) (h : Time)
    → a.healthy_since ≡ from
    → a.owner ≡ poll
    → (handback a k).owner ≡ poll
    → (handback a k).healthy_since ≡ some h
    → (a.healthy_since ≡ some h) ⊎ (h ≡ k.now)
unfolding handback
handback_probation a k none h e was o p = ground arith
handback_probation a k (some first) h e was o p = ground arith

-- The probation that an evaluation leaves standing was standing before, or begins now; and it is
-- left only by a healthy evaluation.
decide_probation :
    (a : Authority) (k : Look) (h : Time)
    → (decide a k).owner ≡ poll
    → (decide a k).healthy_since ≡ some h
    → IsHealthy k
      × (a.owner ≡ poll)
      × ((handback a k).owner ≡ poll)
      × ((handback a k).healthy_since ≡ some h)
unfolding decide
decide_probation a k h o e = ground arith

probation_HealthyAfter :
    (row : Option Authority) (ks : List Look) (now h : Time)
    → (authority_of row).healthy_since ≡ none
    → Backwards now ks
    → (authority_of (evaluated row ks)).owner ≡ poll
    → (authority_of (evaluated row ks)).healthy_since ≡ some h
    → HealthyAfter h ks
unfolding evaluate_authority evaluated
probation_HealthyAfter row [] now h fresh b o p = tt
probation_HealthyAfter row (k ∷ ks) now h fresh b o p =
    let a : Authority = authority_of (evaluated row ks) in
    let (sound, polled, still, since) = decide_probation a k h o p in
    elim (handback_probation a k a.healthy_since h refl polled still since) [
      | inl earlier ↦ ((λ _. sound), probation_HealthyAfter row ks k.now h fresh b.1 polled earlier)
      | inr begins ↦ ((λ _. sound), HealthyAfter-now k.now h ks b.1 (omega (arith, begins)))
    ]

within_window :
    (h now : Time) (ks : List Look)
    → HealthyAfter h ks
    → h + ws_recovery ≤ now
    → All (λ j. (now < j.now + ws_recovery) → IsHealthy j) ks
within_window h now [] a e = tt
within_window h now (k ∷ ks) a e =
    ((λ recent. a.0 (omega (arith, recent, e))), within_window h now ks a.1 e)

poll_ws : {o : Owner} → o ≡ poll → o ≡ ws → ⊥
poll_ws p w = ground arith

-- Along any run of evaluations in the order of time, from a row that is on no probation: where an
-- evaluation gives production back to the websocket, every evaluation of the recovery window
-- before it found the switch on and the heartbeat fresh. One stale look anywhere in the window
-- is enough to keep the poller.
pub handback_whole_window :
    (row : Option Authority) (ks : List Look) (k : Look)
    → (authority_of row).healthy_since ≡ none
    → Backwards k.now ks
    → (authority_of (evaluated row ks)).owner ≡ poll
    → (evaluate_authority (evaluated row ks) k).owner ≡ ws
    → All (λ j. (k.now < j.now + ws_recovery) → IsHealthy j) ks
handback_whole_window row ks k fresh b polled handed =
    elim (evaluate_authority_ws (evaluated row ks) k handed).3 [
      | inl held ↦ absurd (poll_ws polled held)
      | inr (_, _, _, (h, since, window)) ↦
          within_window h k.now ks (probation_HealthyAfter row ks k.now h fresh b polled since)
            window
    ]
