-- ===== src/Polling/Books.antt =====
-- What `_reconcile` (stream/poller.py) records and tells, and that its assertion never fails.
use epigone.Polling.{websocket_rows}
use epigone.Prelude.{
  String, ◌≡◌, refl, sym, ap, ◌∙◌, ◌⊎◌, inl, inr, Bool, true, false, ◌||◌, Option, some, List, [],
  ◌∷◌, ◌++◌, map, if◌then◌else◌, if-intro, select, member, string_eq,
}
use epigone.Decimal.{Time, Rounding}
use epigone.Polling.Reconcile.{
  is_nil, earliest, unproduced, doubted_coins, is_joining, shadow, publish_any, shadowed,
  applied_of, conclude, escalate, resolve, judge, reconcile, PollLook, Race, Applied,
}
use mathlib.Core.List.{append-nil, append_assoc}
use epigone.Publication.Fanout.{prune-append, prune-record_events, queue_alerts-nil, publish_owned}
use epigone.Publication.{event_row, prune, queue_alerts, Follower, EventRow, Tables}
use epigone.Authority.{owns, take_ownership, poll, drift}
use epigone.Positions.{PositionEvent}

-- Rows that a prune of the pass's instant keeps.
abbrev pub SameRows : Time → List EventRow → List EventRow → Type 0
SameRows now xs ys = prune now xs ≡ prune now ys

module _ (followers : List Follower) (k : PollLook) (events : List PositionEvent) where
  abbrev pub rows_of : Bool → List PositionEvent → List EventRow
  rows_of authoritative es = map (event_row k.address k.now poll authoritative) es

  -- Tables in which every event of the pass is told, or recorded as a shadow, or held: the ones
  -- told are rows that consumers act on and the alerts are theirs, the shadow rows are of the
  -- others that are not held, and nothing else has changed.
  abbrev pub TellsOnce : List String → (PositionEvent → Bool) → Tables → Tables → Type 0
  TellsOnce held told t out =
      SameRows k.now out.events (
        t.events
        ++ (rows_of true (select told events)
            ++ rows_of false (shadow followers k events held told)))
      × (out.alerts ≡ t.alerts ++ queue_alerts followers k.address (select told events) k.now)
      × (out.withdrawals ≡ t.withdrawals)
      × (out.authority ≡ t.authority)

  -- A publication of some events, as far as it is told apart from none.
  abbrev Publishes : List PositionEvent → Tables → Tables → Type 0
  Publishes es t out =
      SameRows k.now out.events (t.events ++ rows_of true es)
      × (out.alerts ≡ t.alerts ++ queue_alerts followers k.address es k.now)
      × (out.withdrawals ≡ t.withdrawals)
      × (out.authority ≡ t.authority)

  -- The poller owns production, or there is nothing to publish.
  abbrev MayPublish : List PositionEvent → Tables → Type 0
  MayPublish es t = (owns t.authority poll ≡ true) ⊎ (is_nil es ≡ true)

  publish_any_lem :
      (es : List PositionEvent) (t : Tables)
      → MayPublish es t
      → (out : Tables) × (publish_any followers k events es t ≡ (true, out)) × Publishes es t out
  unfolding publish_any
  publish_any_lem [] t h = (
    t,
    refl,
    (
      ap (prune k.now) (sym (append-nil t.events)),
      sym (rw (queue_alerts-nil followers k.address k.now) (append-nil t.alerts)),
      refl,
      refl,
    ),
  )
  publish_any_lem (e ∷ es) t (inr h) = cc
  publish_any_lem (e ∷ es) t (inl h) = (
    _,
    publish_owned followers k.address (e ∷ es) k.now poll t h,
    (prune-record_events k.address (e ∷ es) k.now poll true t.events, refl, refl, refl),
  )

  abbrev Shadows : List PositionEvent → Tables → Tables → Type 0
  Shadows es t out =
      SameRows k.now out.events (t.events ++ rows_of false es)
      × (out.alerts ≡ t.alerts)
      × (out.withdrawals ≡ t.withdrawals)
      × (out.authority ≡ t.authority)

  shadowed_lem :
      (es : List PositionEvent) (t : Tables) → Shadows es t (shadowed followers k events es t)
  unfolding shadowed
  shadowed_lem [] t = (ap (prune k.now) (sym (append-nil t.events)), refl, refl, refl)
  shadowed_lem (e ∷ es) t =
      (prune-record_events k.address (e ∷ es) k.now poll false t.events, refl, refl, refl)

  rows_join :
      (a b c : List EventRow) (out next : List EventRow)
      → SameRows k.now next (a ++ b)
      → SameRows k.now out (next ++ c)
      → SameRows k.now out (a ++ (b ++ c))
  rows_join a b c out next h g =
      g
      ∙ prune-append k.now next c
      ∙ rw h refl
      ∙ sym (prune-append k.now (a ++ b) c)
      ∙ ap (prune k.now) (append_assoc a b c)

  pub conclude_lem :
      (held : List String) (held_since : Time) (drifted : Bool) (told : PositionEvent → Bool)
      (t : Tables)
      → MayPublish (select told events) t
      → (out : Tables) × (conclude followers k events held held_since drifted told t
          ≡ some (out, applied_of followers k events held held_since drifted told))
        × TellsOnce held told t out
  unfolding conclude
  conclude_lem held held_since drifted told t h =
      let (next, published, (rows, alerts, withdrawals, authority)) =
        publish_any_lem (select told events) t h in
      let left = shadow followers k events held told in
      let (rows', alerts', withdrawals', authority') = shadowed_lem left next in
      (
        shadowed followers k events left next,
        rw published,
        (
          rows_join t.events (rows_of true (select told events)) (rows_of false left) _ next.events
              rows rows',
          alerts' ∙ alerts,
          withdrawals' ∙ withdrawals,
          authority' ∙ authority,
        ),
      )

  select_none : (es : List PositionEvent) → is_nil (select (λ _. false) es) ≡ true
  select_none [] = refl
  select_none (e ∷ es) = select_none es

pub owns-take_ownership : (now : Time) → owns (some (take_ownership poll drift now)) poll ≡ true
unfolding owns take_ownership
owns-take_ownership now = refl

-- `true || b`, `b || true`
or_cases : (a b : Bool) → a || b ≡ true → (a ≡ true) ⊎ (b ≡ true)
or_cases true b h = inl refl
or_cases false b h = inr h

module _ (r : Rounding) (followers : List Follower) (k : PollLook) (race : Race)
    (events : List PositionEvent) where
  -- The tables that a pass publishes onto: after an escalation, with the poller as the owner and
  -- what the websocket committed before the lock.
  abbrev pub base_of : Bool → Tables → Tables
  base_of false t = t
  base_of true t = record t {
    authority = some (take_ownership poll drift k.now);
    events = t.events ++ race.rows;
  }

  abbrev pub EndsWith :
      Tables
      → Option (Tables × Applied)
      → List String
      → Time
      → Bool
      → (PositionEvent → Bool)
      → Tables
      → Type 0
  EndsWith t result held held_since drifted told out =
      (result ≡ some (out, applied_of followers k events held held_since drifted told))
      × TellsOnce followers k events held told (base_of drifted t) out
      × MayPublish followers k events (select told events) (base_of drifted t)
      × ((is_nil held ≡ true) ⊎ (is_nil (select told events) ≡ true))

  abbrev pub Ends : Tables → Option (Tables × Applied) → Type 0
  Ends t result =
      (held : List String) × (held_since : Time) × (drifted : Bool) × (told : (PositionEvent
        → Bool))
      × (out : Tables) × EndsWith t result held held_since drifted told out

  conclude-Ends :
      (held : List String) (held_since : Time) (drifted : Bool) (told : PositionEvent → Bool)
      (t : Tables)
      → MayPublish followers k events (select told events) (base_of drifted t)
      → ((is_nil held ≡ true) ⊎ (is_nil (select told events) ≡ true))
      → Ends t (conclude followers k events held held_since drifted told (base_of drifted t))
  conclude-Ends held held_since drifted told t may apart =
      let (out, ends, tells) =
        conclude_lem followers k events held held_since drifted told (base_of drifted t) may in
      (held, held_since, drifted, told, out, (ends, tells, may, apart))

  escalate-Ends : (t : Tables) → Ends t (escalate r followers k race events t)
  unfolding escalate
  escalate-Ends t = conclude-Ends [] k.since true _ t (inl (owns-take_ownership k.now)) (inl refl)

  resolve-Ends :
      (doubted again : List String) (joining : Bool) (t : Tables)
      → Ends t (resolve r followers k race events doubted again joining t)
  unfolding resolve
  resolve-Ends doubted again joining t =
      let quiet = select_none followers k events events in
      let since = if is_nil again then k.since else k.doubted_since in
      if-intro (Ends t) (is_nil doubted)
        (λ _. conclude-Ends [] k.since false (λ _. false) t (inr quiet) (inl refl))
        (λ _.
          if-intro (Ends t) (is_nil again || joining)
            (λ _. conclude-Ends doubted since false (λ _. false) t (inr quiet) (inr quiet))
            (λ _. escalate-Ends t))

  pub reconcile-Ends : (t : Tables) → Ends t (reconcile r followers k race events t)
  unfolding reconcile judge
  reconcile-Ends t =
      let rows = websocket_rows k.address (earliest k) t.events in
      let unvouched = unproduced r k rows k.lane events in
      if-intro (Ends t) (is_nil (select unvouched events) || owns t.authority poll)
        (λ h.
          conclude-Ends [] k.since false unvouched t
            (elim (or_cases _ _ h) [ inl none_left ↦ inr none_left | inr ours ↦ inl ours ])
            (inl refl))
        (λ _.
          let doubted = doubted_coins r k events rows unvouched in
          resolve-Ends doubted (select (λ coin. member coin k.pending) doubted) (is_joining r k) t)
