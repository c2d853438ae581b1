-- ===== src/Authority/Recovery.antt =====
-- That lane_authority.py gives production back, and what its kill switch does.
-- What a look needs for the handback, beside the window.
use epigone.Prelude.{
  ◌+◌, ◌≤◌, ◌≡◌, refl, sym, ap, ◌∙◌, subst, ◌⊎◌, inl, inr, true, false, Option, none, some, List,
  [], ◌∷◌, ◌++◌, arith, length, All,
}
use epigone.Decimal.{Time}
use epigone.Authority.{
  ws_recovery, max_subscribed_traders, authority_of, is_ws, is_disabled, is_fresh, take_ownership,
  is_outgrown, unresynced, is_blocked, evaluate_authority, evaluate_all, Owner, poll, ws, Reason,
  unrecorded, pre_cutover, disabled, never_beaten, stale, outgrown, healthy, drift, Authority, Look,
  probation, handback, decide,
}

abbrev pub IsReady : Time → Look → Type 0
IsReady since k =
    (k.enabled ≡ true)
    × (is_fresh k ≡ true)
    × (length k.tracked ≤ max_subscribed_traders)
    × (unresynced k.resynced_at since k.tracked ≡ 0)

-- Under way: production is back, or the probation began at `start` or before.
abbrev IsRecovering : Time → Time → Authority → Type 0
IsRecovering since start a =
    (a.owner ≡ ws)
    ⊎ ((a.owner ≡ poll)
        × (a.since ≡ since)
        × ((h : Time) × (a.healthy_since ≡ some h) × (h ≤ start)))

poll_ws : {o : Owner} → o ≡ poll → o ≡ ws → ⊥
poll_ws p w = ground arith

-- When the probation under way at `now` began.
abbrev pub started : Option Time → Time → Time
started none now = now
started (some h) now = h

handback_cases :
    (a : Authority) (k : Look) (from : Option Time)
    → a.healthy_since ≡ from
    → a.owner ≡ poll
    → ((handback a k).owner ≡ ws)
      ⊎ (((handback a k).owner ≡ poll)
          × ((handback a k).since ≡ a.since)
          × ((handback a k).healthy_since ≡ some (started from k.now)))
unfolding handback
handback_cases a k none e p = ground arith
handback_cases a k (some first) e p = ground arith

decide_ready :
    (a : Authority) (k : Look) (since : Time)
    → IsReady since k
    → ((a.owner ≡ ws) × ((decide a k).owner ≡ ws))
      ⊎ ((a.owner ≡ poll) × (decide a k ≡ handback a k))
unfolding decide is_outgrown
decide_ready a k since (on, fresh, fits, read) = elim (owner_cases a.owner) [
  | inl held ↦ inl (held, ground arith)
  | inr polled ↦ inr (polled, ground arith)
]
  where
    owner_cases : (o : Owner) → (o ≡ ws) ⊎ (o ≡ poll)
    owner_cases poll = inr refl
    owner_cases ws = inl refl

handback_hands :
    (a : Authority) (k : Look) (h : Time)
    → a.healthy_since ≡ some h
    → h + ws_recovery ≤ k.now
    → IsReady a.since k
    → (handback a k).owner ≡ ws
unfolding handback is_blocked is_outgrown
handback_hands a k h e window (on, fresh, fits, read) = ground arith

decide-IsRecovering :
    (a : Authority) (k : Look) (since start : Time)
    → IsReady since k
    → IsRecovering since start a
    → IsRecovering since start (decide a k)
decide-IsRecovering a k since start ready r = elim (decide_ready a k since ready) [
  | inl (_, stays) ↦ inl stays
  | inr (polled, same) ↦ subst (IsRecovering since start) (sym same) (still r polled)
]
  where
    still : IsRecovering since start a → a.owner ≡ poll → IsRecovering since start (handback a k)
    still (inl held) polled = absurd (poll_ws polled held)
    still (inr (_, s, (h, e, le))) polled = elim (handback_cases a k (some h) e polled) [
      | inl handed ↦ inl handed
      | inr (o, s', e') ↦ inr (o, s' ∙ s, (h, e', le))
    ]

decide_begins :
    (a : Authority) (k : Look)
    → IsReady a.since k
    → a.owner ≡ poll
    → started a.healthy_since k.now ≤ k.now
    → IsRecovering a.since k.now (decide a k)
decide_begins a k ready polled le = elim (decide_ready a k a.since ready) [
  | inl (held, _) ↦ absurd (poll_ws polled held)
  | inr (_, same) ↦
      subst (IsRecovering a.since k.now) (sym same)
        (elim (handback_cases a k a.healthy_since refl polled) [
          | inl handed ↦ inl handed
          | inr (o, s, e) ↦ inr (o, s, (started a.healthy_since k.now, e, le))
        ])
]

decide_recovered :
    (a : Authority) (k : Look) (since start : Time)
    → IsReady since k
    → start + ws_recovery ≤ k.now
    → IsRecovering since start a
    → (decide a k).owner ≡ ws
decide_recovered a k since start ready window r = elim (decide_ready a k since ready) [
  | inl (_, stays) ↦ stays
  | inr (polled, same) ↦ ap (λ (x : Authority). x.owner) same ∙ hands r polled
]
  where
    hands : IsRecovering since start a → a.owner ≡ poll → (handback a k).owner ≡ ws
    hands (inl held) polled = absurd (poll_ws polled held)
    hands (inr (_, s, (h, e, le))) polled =
        handback_hands a k h e (omega (arith, le, window)) (subst (λ t. IsReady t k) (sym s) ready)

evaluate_all-append :
    (row : Option Authority) (xs ys : List Look)
    → evaluate_all row (xs ++ ys) ≡ evaluate_all (evaluate_all row xs) ys
unfolding evaluate_all
evaluate_all-append row [] ys = refl
evaluate_all-append row (x ∷ xs) ys = evaluate_all-append (some (evaluate_authority row x)) xs ys

evaluate_all-IsRecovering :
    (a : Authority) (ks : List Look) (since start : Time)
    → All (IsReady since) ks
    → IsRecovering since start a
    → IsRecovering since start (authority_of (evaluate_all (some a) ks))
unfolding evaluate_all evaluate_authority
evaluate_all-IsRecovering a [] since start ready r = r
evaluate_all-IsRecovering a (k ∷ ks) since start ready r =
    evaluate_all-IsRecovering (decide a k) ks since start ready.1
      (decide-IsRecovering a k since start ready.0 r)

-- Production comes back: from any row under which the poller owns, on no probation that begins
-- in the future, a run of evaluations that all find the switch on, the heartbeat fresh, the poll
-- set within one address and every tracked wallet resynced since the takeover ends with the
-- websocket owning, once the last of them is the recovery window after the first.
pub evaluate_all_recovers :
    (row : Option Authority) (first last : Look) (ks : List Look)
    → (authority_of row).owner ≡ poll
    → started (authority_of row).healthy_since first.now ≤ first.now
    → IsReady (authority_of row).since first
    → All (IsReady (authority_of row).since) ks
    → IsReady (authority_of row).since last
    → first.now + ws_recovery ≤ last.now
    → (authority_of (evaluate_all row (first ∷ ks ++ last ∷ []))).owner ≡ ws
unfolding evaluate_all evaluate_authority
evaluate_all_recovers row first last ks polled le ready0 ready readyn window =
    let a : Authority = authority_of row in
    let during =
      evaluate_all-IsRecovering (decide a first) ks a.since first.now ready
        (decide_begins a first ready0 polled le) in
    ap (λ x. (authority_of x).owner) (evaluate_all-append (some (decide a first)) ks (last ∷ []))
    ∙ decide_recovered (authority_of (evaluate_all (some (decide a first)) ks)) last a.since
        first.now readyn window during

is_ws_poll : (o : Owner) → (is_ws o ≡ true) ⊎ (o ≡ poll)
is_ws_poll poll = inr refl
is_ws_poll ws = inl refl

is_disabled_cases : (r : Reason) → (r ≡ disabled) ⊎ (is_disabled r ≡ false)
is_disabled_cases unrecorded = inr refl
is_disabled_cases pre_cutover = inr refl
is_disabled_cases disabled = inl refl
is_disabled_cases never_beaten = inr refl
is_disabled_cases stale = inr refl
is_disabled_cases outgrown = inr refl
is_disabled_cases healthy = inr refl
is_disabled_cases drift = inr refl

abbrev IsSwitchedOff : Authority → Type 0
IsSwitchedOff a = (a.owner ≡ poll) × (a.healthy_since ≡ none) × (a.reason ≡ disabled)

decide_off : (a : Authority) (k : Look) → k.enabled ≡ false → IsSwitchedOff (decide a k)
unfolding decide take_ownership probation
decide_off a k off = elim (is_ws_poll a.owner) [
  | inl held ↦ ground arith
  | inr polled ↦ elim (is_disabled_cases a.reason) [
    | inl already ↦ ground arith
    | inr other ↦ ground arith
  ]
]

decide_off_again : (a : Authority) (k : Look) → k.enabled ≡ false → IsSwitchedOff a → decide a k ≡ a
unfolding decide probation
decide_off_again a k off (polled, none_yet, already) =
    let stops : decide a k ≡ probation a none = ground arith in
    stops ∙ ap (λ h. record a { healthy_since = h }) (sym none_yet)

-- The kill switch: whatever stands, an evaluation that finds it off leaves production to the
-- poller, on no probation, and further evaluations that find it off write nothing.
pub evaluate_authority_off :
    (row : Option Authority) (k later : Look)
    → k.enabled ≡ false
    → later.enabled ≡ false
    → ((evaluate_authority row k).owner ≡ poll)
      × ((evaluate_authority row k).healthy_since ≡ none)
      × ((evaluate_authority row k).reason ≡ disabled)
      × (evaluate_authority (some (evaluate_authority row k)) later ≡ evaluate_authority row k)
unfolding evaluate_authority
evaluate_authority_off row k later off still_off =
    let off_now = decide_off (authority_of row) k off in
    (
      off_now.0,
      off_now.1,
      off_now.2,
      decide_off_again (decide (authority_of row) k) later still_off off_now,
    )
