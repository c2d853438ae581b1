-- ===== src/Polling/Looks.antt =====
-- The two looks that a change gets which the websocket owes and has not told (stream/poller.py,
-- `_reconcile`): it is held on the first, and on the second the poller takes production and tells it.
use mathlib.Core.List.{append-nil}
use epigone.Polling.Books.{TellsOnce, conclude_lem, owns-take_ownership, base_of}
use epigone.Prelude.{
  String, ◌≡◌, refl, ap, ◌∙◌, inl, inr, Bool, true, false, ◌&&◌, some, List, [], ◌∷◌, ◌++◌, map,
  Bool-cases, select, ◌is◌, member, select-middle, select-false, string_eq,
}
use epigone.Decimal.{Rounding}
use epigone.Dict.Laws.{is_refl}
use epigone.Polling.{websocket_rows, WsRows}
use epigone.Polling.Reconcile.{
  is_nil, earliest, unproduced, is_doubted, doubted_coins, is_joining, applied_of, conclude,
  escalate, resolve, judge, reconcile, PollLook, Race,
}
use epigone.Publication.Fanout.{queue_alerts-nil}
use epigone.Publication.{Follower, Tables}
use epigone.Authority.{owns, poll}
use epigone.Positions.{PositionEvent}

is_nil-middle {ℓ} : {A : Type ℓ} (xs ys : List A) (x : A) → is_nil (xs ++ x ∷ ys) ≡ false
is_nil-middle [] ys x = refl
is_nil-middle (y ∷ xs) ys x = refl

abbrev coin_of : PositionEvent → String
coin_of e = e.coin

map-middle :
    (xs ys : List PositionEvent) (e : PositionEvent)
    → map coin_of (xs ++ e ∷ ys) ≡ map coin_of xs ++ e.coin ∷ map coin_of ys
map-middle [] ys e = refl
map-middle (x ∷ xs) ys e = ap (λ rest. x.coin ∷ rest) (map-middle xs ys e)

member-middle : (c : String) (xs ys : List String) → member c (xs ++ c ∷ ys) ≡ true
member-middle c [] ys = rw (is_refl c)
member-middle c (x ∷ xs) ys = elim (Bool-cases (x is c)) [
  | inl same ↦ rw same
  | inr other ↦ rw other (member-middle c xs ys)
]

module _ (r : Rounding) (followers : List Follower) (k : PollLook) (race : Race)
    (before after : List PositionEvent) (e : PositionEvent) (t : Tables) where
  abbrev events : List PositionEvent
  events = before ++ e ∷ after

  abbrev rows : WsRows
  rows = websocket_rows k.address (earliest k) t.events

  abbrev unvouched : PositionEvent → Bool
  unvouched = unproduced r k rows k.lane events

  -- The websocket owns production, nothing vouches for the change, and it is still somebody's.
  abbrev pub IsOwed : Type 0
  IsOwed =
      (owns t.authority poll ≡ false)
      × (unproduced r k (websocket_rows k.address (earliest k) t.events) k.lane
            (before ++ e ∷ after) e
          ≡ true)
      × (is_doubted r k (websocket_rows k.address (earliest k) t.events) e ≡ true)

  abbrev doubted_now : List String
  doubted_now = doubted_coins r k events rows unvouched

  abbrev again_now : List String
  again_now = select (λ coin. member coin k.pending) doubted_now

  reconcile_owed :
      IsOwed
      → reconcile r followers k race events t
        ≡ resolve r followers k race events doubted_now again_now (is_joining r k) t
  unfolding reconcile judge
  reconcile_owed owed =
      let some_left : is_nil (select unvouched events) ≡ false =
        rw (select-middle unvouched before after e owed.1)
          (is_nil-middle (select unvouched before) (select unvouched after) e) in
      rw (some_left, owed.0)

  -- The doubted coins, with the one of the change among them.
  doubted_middle : IsOwed → (xs ys : List String) × (doubted_now ≡ xs ++ e.coin ∷ ys)
  unfolding doubted_coins
  doubted_middle owed =
      let p : PositionEvent → Bool = λ x. unvouched x && is_doubted r k rows x in
      let both : p e ≡ true = rw (owed.1, owed.2) in
      (
        map coin_of (select p before),
        map coin_of (select p after),
        rw (select-middle p before after e both) (map-middle (select p before) (select p after) e),
      )

  is_nil-doubted_now : IsOwed → is_nil doubted_now ≡ false
  is_nil-doubted_now owed =
      let (xs, ys, middle) = doubted_middle owed in rw middle (is_nil-middle xs ys e.coin)

  member-doubted_now : IsOwed → member e.coin doubted_now ≡ true
  member-doubted_now owed =
      let (xs, ys, middle) = doubted_middle owed in rw middle (member-middle e.coin xs ys)

  none_again :
      (coins : List String)
      → ((coin : String) → member coin k.pending ≡ false)
      → select (λ coin. member coin k.pending) coins ≡ []
  none_again [] fresh = refl
  none_again (c ∷ coins) fresh = rw (fresh c) (none_again coins fresh)

  is_nil-again_now : IsOwed → member e.coin k.pending ≡ true → is_nil again_now ≡ false
  is_nil-again_now owed pending =
      let (xs, ys, middle) = doubted_middle owed in
      let again : String → Bool = λ coin. member coin k.pending in
      rw (middle, select-middle again xs ys e.coin pending)
        (is_nil-middle (select again xs) (select again ys) e.coin)

  resolve_held :
      (doubted again : List String) (joining : Bool)
      → is_nil doubted ≡ false
      → is_nil again ≡ true
      → resolve r followers k race events doubted again joining t
        ≡ conclude followers k events doubted k.since false (λ _. false) t
  unfolding resolve
  resolve_held [] again joining h g = cc
  resolve_held (c ∷ cs) [] joining h g = refl
  resolve_held (c ∷ cs) (d ∷ ds) joining h g = cc

  resolve_escalated :
      (doubted again : List String) (joining : Bool)
      → is_nil doubted ≡ false
      → is_nil again ≡ false
      → joining ≡ false
      → resolve r followers k race events doubted again joining t
        ≡ escalate r followers k race events t
  unfolding resolve
  resolve_escalated [] again joining h g j = cc
  resolve_escalated (c ∷ cs) [] joining h g j = cc
  resolve_escalated (c ∷ cs) (d ∷ ds) true h g j = cc
  resolve_escalated (c ∷ cs) (d ∷ ds) false h g j = refl

  -- On the first look nobody is told and nobody is blamed: while the websocket owns production, a
  -- change that its rows do not vouch for and that is still somebody's to produce is held, when
  -- no coin was under doubt before; the doubt is dated by the pass's previous look, no alert is
  -- queued, and the owner stays.
  pub reconcile_first_look :
      IsOwed
      → ((coin : String) → member coin k.pending ≡ false)
      → (held : List String) × (out : Tables) × (reconcile r followers k race
            (before ++ e ∷ after)
            t
          ≡ some
              (out, applied_of followers k (before ++ e ∷ after) held k.since false (λ _. false)))
        × (member e.coin held ≡ true)
        × (out.alerts ≡ t.alerts)
        × (out.authority ≡ t.authority)
  reconcile_first_look owed fresh =
      let quiet = select-false events in
      let (out, ends, (same, alerts, withdrawals, authority)) =
        conclude_lem followers k events doubted_now k.since false (λ _. false) t
          (inr (rw quiet refl)) in
      (
        doubted_now,
        out,
        reconcile_owed owed
            ∙ resolve_held doubted_now again_now (is_joining r k) (is_nil-doubted_now owed)
                (rw (none_again doubted_now fresh) refl)
            ∙ ends,
        member-doubted_now owed,
        alerts ∙ rw (quiet, queue_alerts-nil followers k.address k.now) (append-nil t.alerts),
        authority,
      )

  -- On the second look it is told: when the coin was under doubt already, the lane is not still
  -- joining, and nothing vouches for the change under the lock either, the poller owns
  -- production afterwards, the pass is marked as drifted, and the change is among those whose
  -- rows consumers act on and whose alerts the followers get, once each.
  pub reconcile_second_look :
      IsOwed
      → member e.coin k.pending ≡ true
      → is_joining r k ≡ false
      → unproduced r k
          (websocket_rows k.address (earliest k) (t.events ++ race.rows))
          race.lane
          (before ++ e ∷ after)
          e
        ≡ true
      → (told : (PositionEvent → Bool)) × (out : Tables) × (reconcile r followers k race
            (before ++ e ∷ after)
            t
          ≡ some (out, applied_of followers k (before ++ e ∷ after) [] k.since true told))
        × (told e ≡ true)
        × TellsOnce followers k
            (before ++ e ∷ after)
            []
            told
            (base_of r followers k race (before ++ e ∷ after) true t)
            out
        × (owns out.authority poll ≡ true)
  unfolding escalate
  reconcile_second_look owed pending arrived silent =
      let told =
        unproduced r k (websocket_rows k.address (earliest k) (t.events ++ race.rows)) race.lane
          events in
      let base = base_of r followers k race events true t in
      let (out, ends, tells) =
        conclude_lem followers k events [] k.since true told base
          (inl (owns-take_ownership k.now)) in
      (
        told,
        out,
        reconcile_owed owed
            ∙ resolve_escalated doubted_now again_now (is_joining r k) (is_nil-doubted_now owed)
                (is_nil-again_now owed pending) arrived
            ∙ ends,
        silent,
        tells,
        rw tells.3 (owns-take_ownership k.now),
      )
