-- ===== src/Authority/Safety.antt =====
-- When the websocket may own production: every evaluation of lane_authority.py.
use epigone.Prelude.{
  ◌+◌, ◌≤◌, String, ◌≡◌, refl, ap, ◌∙◌, ◌⊎◌, inl, inr, true, Option, none, some, List, [], ◌∷◌,
  arith, Option-cases, length, All,
}
use epigone.Decimal.{Time}
use epigone.Authority.{
  ws_recovery, max_subscribed_traders, authority_of, is_fresh, is_outgrown, unresynced, is_blocked,
  evaluate_authority, poll, ws, Authority, Look, handback, decide,
}

All-resynced :
    (stamps : String → Option Time) (since : Time) (ws : List String)
    → unresynced stamps since ws ≡ 0
    → All (λ w. (at : Time) × (stamps w ≡ some at) × (since ≤ at)) ws
unfolding unresynced
All-resynced stamps since [] h = tt
All-resynced stamps since (w ∷ more) h = elim (Option-cases (stamps w)) [
  | inl absent ↦ absurd (first_absent absent h)
  | inr (at, found) ↦ ((at, found, ground arith), All-resynced stamps since more (ground arith))
]
  where
    first_absent : stamps w ≡ none → unresynced stamps since (w ∷ more) ≡ 0 → ⊥
    first_absent e z = ground arith

handback_ws :
    (a : Authority) (k : Look) (from : Option Time)
    → a.healthy_since ≡ from
    → a.owner ≡ poll
    → (handback a k).owner ≡ ws
    → (length k.tracked ≤ max_subscribed_traders)
      × (unresynced k.resynced_at a.since k.tracked ≡ 0)
      × ((handback a k).since ≡ k.now)
      × ((h : Time) × (from ≡ some h) × (h + ws_recovery ≤ k.now))
unfolding handback is_blocked is_outgrown
handback_ws a k none e o h = ground arith
handback_ws a k (some first) e o h =
    (ground arith, ground arith, ground arith, (first, refl, ground arith))

decide_ws :
    (a : Authority) (k : Look)
    → (decide a k).owner ≡ ws
    → ((k.enabled ≡ true)
        × (is_fresh k ≡ true)
        × (length k.tracked ≤ max_subscribed_traders)
        × (a.owner ≡ ws))
      ⊎ ((k.enabled ≡ true)
          × (is_fresh k ≡ true)
          × (a.owner ≡ poll)
          × ((handback a k).owner ≡ ws)
          × (decide a k ≡ handback a k))
unfolding decide is_outgrown
decide_ws a k h = ground arith

-- The websocket owns production after an evaluation only if the switch is on, its heartbeat is
-- fresh and the poll set fits one address; and it is given production, where the poller had it,
-- only after its whole recovery window and with every tracked wallet resynced since the poller
-- took over.
pub evaluate_authority_ws :
    (row : Option Authority) (k : Look)
    → (evaluate_authority row k).owner ≡ ws
    → (k.enabled ≡ true)
      × (is_fresh k ≡ true)
      × (length k.tracked ≤ max_subscribed_traders)
      × (((authority_of row).owner ≡ ws)
          ⊎ (((authority_of row).owner ≡ poll)
              × (All
                  (λ w. (at : Time) × (k.resynced_at w ≡ some at) × ((authority_of row).since ≤ at))
                  k.tracked)
              × ((evaluate_authority row k).since ≡ k.now)
              × ((h : Time) × ((authority_of row).healthy_since ≡ some h)
                  × (h + ws_recovery ≤ k.now))))
unfolding evaluate_authority
evaluate_authority_ws row k h =
    let a : Authority = authority_of row in
    elim (decide_ws a k h) [
      | inl (on, fresh, fits, held) ↦ (on, fresh, fits, inl held)
      | inr (on, fresh, polled, handed, same) ↦
          let (fits, read, at, window) = handback_ws a k a.healthy_since refl polled handed in
          (
            on,
            fresh,
            fits,
            inr (
              polled,
              All-resynced k.resynced_at a.since k.tracked read,
              ap (λ (x : Authority). x.since) same ∙ at,
              window,
            ),
          )
    ]
