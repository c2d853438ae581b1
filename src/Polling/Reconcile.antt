-- ===== src/Polling/Reconcile.antt =====
-- `_reconcile` of stream/poller.py. The reads before the lock are one look at the websocket's
-- tables; what that lane commits until the exclusive lock is taken is the `Race`. The assertion
-- that a publication was authoritative is a fault, `none`.
use epigone.Prelude.{
  ℕ, ◌-◌, min, String, Bool, true, false, ◌&&◌, ◌||◌, not, Option, none, some, List, [], ◌∷◌, ◌++◌,
  map, if◌then◌else◌, length, any_of, select, member, string_eq,
}
use epigone.Decimal.{Time, Rounding}
use epigone.Dict.{Dict}
use epigone.Polling.{
  reconcile_grace, websocket_rows, every_leg_covered, is_flip, vouched_for, left_a_row,
  still_joining, lane_memory, WsRows, Lane,
}
use epigone.Positions.{Position, SnapshotState, PositionEvent}
use epigone.Authority.{owns, take_ownership, poll, drift}
use epigone.Publication.{record_events, publish, Follower, EventRow, Tables}

pub record PollLook : Type 0 where
  pub address : String
  pub positions : List Position
  pub now : Time
  pub since : Time
  pub pending : List String
  pub doubted_since : Time
  pub poller_baselined_at : Time
  pub memory : Dict String SnapshotState
  pub lane : Lane

pub record Race : Type 0 where
  pub rows : List EventRow
  pub lane : Lane

pub record Applied : Type 0 where
  pub events : ℕ
  pub produced : ℕ
  pub drifted : Bool
  pub held : List String
  pub held_since : Option Time
  pub deferred : Bool

abbrev pub no_change : Applied
no_change = record {
  events = 0;
  produced = 0;
  drifted = false;
  held = [];
  held_since = none;
  deferred = false;
}

abbrev pub is_nil {ℓ} : {A : Type ℓ} → List A → Bool
is_nil [] = true
is_nil (_ ∷ _) = false

-- `lookback`
pub lookback : PollLook → String → Time
lookback k coin = (if member coin k.pending then k.doubted_since else k.since) - reconcile_grace

pub earliest : PollLook → Time
earliest k = min k.since k.doubted_since - reconcile_grace

module _ (r : Rounding) where
  -- the anchor as `unproduced` consults it: only where a flip's rows cover both its legs
  flips_owed : PollLook → WsRows → Lane → List PositionEvent → List String
  flips_owed k rows lane events =
      if any_of (λ e. is_flip e.kind && every_leg_covered e rows.produced (lookback k e.coin))
        events
      then (lane_memory r lane k.memory k.positions k.now).owed
      else []

  -- `unproduced`: the test that the events have to pass
  unfoldable pub unproduced : PollLook → WsRows → Lane → List PositionEvent → PositionEvent → Bool
  unfolding flips_owed vouched_for lookback
  unproduced k rows lane events e =
      not (vouched_for e rows.produced (lookback k e.coin) (flips_owed k rows lane events))

  -- the tests by which a change is somebody's to produce
  unfoldable pub is_doubted : PollLook → WsRows → PositionEvent → Bool
  unfolding lane_memory left_a_row lookback
  is_doubted k rows e =
      member e.coin (lane_memory r k.lane k.memory k.positions k.now).owed
      || left_a_row e rows.observed (lookback k e.coin)

  -- `doubted`, of the events that nothing vouches for
  unfoldable pub doubted_coins :
      PollLook → List PositionEvent → WsRows → (PositionEvent → Bool) → List String
  unfolding is_doubted
  doubted_coins k events rows unvouched =
      map (λ (e : PositionEvent). e.coin) (select (λ e. unvouched e && is_doubted k rows e) events)

  -- whether the silence of the lane is it still arriving
  unfoldable pub is_joining : PollLook → Bool
  unfolding lane_memory
  is_joining k =
      still_joining (lane_memory r k.lane k.memory k.positions k.now) k.poller_baselined_at k.now

module _ (followers : List Follower) (k : PollLook) (events : List PositionEvent) where
  -- What the pass did not produce, without what is held
  abbrev pub shadow : List String → (PositionEvent → Bool) → List PositionEvent
  shadow held told = select (λ e. not (member e.coin held) && not (told e)) events

  -- the publication, if there is anything to publish
  unfoldable pub publish_any : List PositionEvent → Tables → Bool × Tables
  publish_any [] t = (true, t)
  publish_any (e ∷ es) t = publish followers k.address (e ∷ es) k.now poll t

  -- what the shadow rows leave
  unfoldable pub shadowed : List PositionEvent → Tables → Tables
  shadowed [] t = t
  shadowed (e ∷ es) t = record t {
    events = record_events k.address (e ∷ es) k.now poll false t.events;
  }

  pub applied_of : List String → Time → Bool → (PositionEvent → Bool) → Applied
  applied_of held held_since drifted told = record {
    events = length events;
    produced = length (select told events);
    drifted = drifted;
    held = held;
    held_since = some held_since;
    deferred = not (is_nil held);
  }

  -- the end of `_reconcile`, from the publication on
  unfoldable pub conclude :
      List String → Time → Bool → (PositionEvent → Bool) → Tables → Option (Tables × Applied)
  unfolding publish_any shadowed applied_of
  conclude held held_since drifted told t =
      let (authoritative, next) = publish_any (select told events) t in
      if not authoritative
      then none
      else some (shadowed (shadow held told) next, applied_of held held_since drifted told)

module _ (r : Rounding) (followers : List Follower) (k : PollLook) (race : Race)
    (events : List PositionEvent) where
  -- `confirmed`: the escalation, and what stands unproduced under the exclusive lock
  unfoldable pub escalate : Tables → Option (Tables × Applied)
  unfolding conclude take_ownership
  escalate t =
      let now_visible = t.events ++ race.rows in
      conclude followers k events [] k.since true
        (unproduced r k (websocket_rows k.address (earliest k) now_visible) race.lane events)
        (record t { authority = some (take_ownership poll drift k.now); events = now_visible })

  -- the coins under doubt, those that were so already, and whether the lane is still joining:
  -- nothing, one more look, or the escalation
  unfoldable pub resolve : List String → List String → Bool → Tables → Option (Tables × Applied)
  unfolding escalate
  resolve doubted again joining t =
      if is_nil doubted
      then conclude followers k events [] k.since false (λ _. false) t
      else if is_nil again || joining
      then conclude followers k events doubted (if is_nil again then k.since else k.doubted_since)
          false (λ _. false) t
      else escalate t

  -- `doubted` and what follows, where the poller does not own production
  unfoldable pub judge : WsRows → (PositionEvent → Bool) → Tables → Option (Tables × Applied)
  unfolding resolve doubted_coins is_joining
  judge rows unvouched t =
      let doubted = doubted_coins r k events rows unvouched in
      resolve doubted (select (λ coin. member coin k.pending) doubted) (is_joining r k) t

  unfoldable pub reconcile : Tables → Option (Tables × Applied)
  unfolding judge
  reconcile t =
      let rows = websocket_rows k.address (earliest k) t.events in
      let unvouched = unproduced r k rows k.lane events in
      if is_nil (select unvouched events) || owns t.authority poll
      then conclude followers k events [] k.since false unvouched t
      else judge rows unvouched t
