-- ===== src/Publication/Fanout.antt =====
-- What a publication (position_publish.py) records and whom it tells.
use mathlib.Core.List.{append-nil, append_assoc}
use mathlib.Core.Path.{fun_ext}
use epigone.Prelude.{
  ℕ, ◌+◌, String, ◌≡◌, refl, sym, ap, ◌∙◌, inl, inr, Bool, true, false, not, Option, none, some,
  List, [], ◌∷◌, ◌++◌, map, arith, ltb, ◌==◌, if◌then◌else◌, ==_iff, Bool-cases, All, select,
}
use epigone.Decimal.{Decimal, Time, leb_ℤ}
use epigone.Prelude.Int.{ltb_ℤ}
use epigone.Publication.{
  position_event_retention, event_row, prune, record_events, min_size, is_below_floor, queue_alerts,
  mark_due_now, any_closing, publish, Follower, EventRow, PositionAlert, Tables, alerts_to,
}
use epigone.Positions.{PositionEvent}
use epigone.Authority.{owns, Owner}

-- Pruning two parts is pruning each, and pruning again changes nothing.
pub prune-append :
    (now : Time) (xs ys : List EventRow) → prune now (xs ++ ys) ≡ prune now xs ++ prune now ys
unfolding prune
prune-append now [] ys = refl
prune-append now (x ∷ xs) ys =
    elim (Bool-cases (ltb (x.observed_at + position_event_retention) now)) [
      | inl old ↦ rw old (prune-append now xs ys)
      | inr young ↦ rw young (ap (λ rest. x ∷ rest) (prune-append now xs ys))
    ]

prune-prune : (now : Time) (xs : List EventRow) → prune now (prune now xs) ≡ prune now xs
unfolding prune
prune-prune now [] = refl
prune-prune now (x ∷ xs) = elim (Bool-cases (ltb (x.observed_at + position_event_retention) now)) [
  | inl old ↦ rw old (prune-prune now xs)
  | inr young ↦ rw young (rw young (ap (λ rest. x ∷ rest) (prune-prune now xs)))
]

-- Recording twice in a row is recording both, as far as a prune of that instant tells.
pub prune-record_events :
    (address : String) (events : List PositionEvent) (now : Time) (source : Owner)
    (authoritative : Bool) (rows : List EventRow)
    → prune now (record_events address events now source authoritative rows)
      ≡ prune now (rows ++ map (event_row address now source authoritative) events)
unfolding record_events
prune-record_events address events now source authoritative rows =
    prune-prune now (rows ++ map (event_row address now source authoritative) events)

pub queue_alerts-nil :
    (followers : List Follower) (address : String) (now : Time)
    → queue_alerts followers address [] now ≡ []
unfolding queue_alerts
queue_alerts-nil [] address now = refl
queue_alerts-nil (f ∷ fs) address now = ground (arith, queue_alerts-nil fs address now)

-- The events that the alerts tell one User, in their order.
unfoldable pub events_to : ℕ → List PositionAlert → List PositionEvent
events_to user [] = []
events_to user (a ∷ rest) =
    let more = events_to user rest in if a.user == user then a.event ∷ more else more

-- Whether an event reaches a follower, from the Track's floor, the User's and the event's size: an
-- event without a size always does, and so does any where neither floor is set; else the size has
-- to be at least the Track's floor, or the User's where the Track has none.
abbrev pub reaches : Option Decimal → Option Decimal → Option Decimal → Bool
reaches track user none = true
reaches none none (some size) = true
reaches none (some floor) (some size) = leb_ℤ floor size
reaches (some floor) user (some size) = leb_ℤ floor size

at_least : (size floor : Decimal) → not (ltb_ℤ size floor) ≡ leb_ℤ floor size
at_least size floor = ground arith

reached : Option Decimal → Option Decimal → PositionEvent → Bool
reached track user e = not (is_below_floor e (elim track [ none ↦ user | some floor ↦ some floor ]))

reached_lem :
    (track user size : Option Decimal) (e : PositionEvent)
    → e.size_usd ≡ size
    → reached track user e ≡ reaches track user size
unfolding reached is_below_floor
reached_lem none none none e h = refl
reached_lem none (some floor) none e h = rw h refl
reached_lem (some floor) user none e h = rw h refl
reached_lem none none (some size) e h = refl
reached_lem none (some floor) (some size) e h = rw h (at_least size floor)
reached_lem (some floor) user (some size) e h = rw h (at_least size floor)

told-reaches :
    (f : Follower) (e : PositionEvent)
    → not (is_below_floor e (min_size f)) ≡ reaches f.track_min_size f.user_min_size e.size_usd
unfolding reached
told-reaches f e = reached_lem f.track_min_size f.user_min_size e.size_usd e refl

abbrev pub IsOther : ℕ → Follower → Type 0
IsOther user f = (f.user == user) ≡ false

module _ (address : String) (events : List PositionEvent) (now : Time) where
  events_to-alerts_to :
      (f : Follower) (es : List PositionEvent) (rest : List PositionAlert)
      → events_to f.user (alerts_to f address now es ++ rest)
        ≡ select (λ e. not (is_below_floor e (min_size f))) es ++ events_to f.user rest
  unfolding events_to alerts_to
  events_to-alerts_to f [] rest = refl
  events_to-alerts_to f (e ∷ es) rest = elim (Bool-cases (is_below_floor e (min_size f))) [
    | inl below ↦ rw below (events_to-alerts_to f es rest)
    | inr told ↦ rw told (ground (arith, ==_iff f.user f.user, events_to-alerts_to f es rest))
  ]

  other_events_to :
      (user : ℕ) (f : Follower) (es : List PositionEvent) (rest : List PositionAlert)
      → IsOther user f
      → events_to user (alerts_to f address now es ++ rest) ≡ events_to user rest
  unfolding events_to alerts_to
  other_events_to user f [] rest h = refl
  other_events_to user f (e ∷ es) rest h = elim (Bool-cases (is_below_floor e (min_size f))) [
    | inl below ↦ rw below (other_events_to user f es rest h)
    | inr told ↦ rw told (rw h (other_events_to user f es rest h))
  ]

  -- A muted follower's share of the alerts is none.
  if_heard :
      (user : ℕ) (muted : Bool) (xs rest : List PositionAlert) (es : List PositionEvent)
      → events_to user (xs ++ rest) ≡ es ++ events_to user rest
      → events_to user ((if muted then [] else xs) ++ rest)
        ≡ (if muted then [] else es) ++ events_to user rest
  if_heard user true xs rest es h = refl
  if_heard user false xs rest es h = h

  if_other :
      (user : ℕ) (muted : Bool) (xs rest : List PositionAlert)
      → events_to user (xs ++ rest) ≡ events_to user rest
      → events_to user ((if muted then [] else xs) ++ rest) ≡ events_to user rest
  if_other user true xs rest h = refl
  if_other user false xs rest h = h

  events_to-others :
      (user : ℕ) (fs : List Follower) (rest : List PositionAlert)
      → All (IsOther user) fs
      → events_to user (queue_alerts fs address events now ++ rest) ≡ events_to user rest
  unfolding queue_alerts
  events_to-others user [] rest h = refl
  events_to-others user (f ∷ fs) rest h =
      let here = alerts_to f address now events in
      let there = queue_alerts fs address events now in
      rw (append_assoc (if f.muted then [] else here) there rest) (
        if_other user f.muted here (there ++ rest)
          (other_events_to user f events (there ++ rest) h.0)
        ∙ events_to-others user fs rest h.1)

  nobody_else :
      (f : Follower) (fs : List Follower)
      → All (IsOther f.user) fs
      → events_to f.user (queue_alerts fs address events now) ≡ []
  unfolding events_to
  nobody_else f fs k = ap (events_to f.user) (sym (append-nil _)) ∙ events_to-others f.user fs [] k

  events_to-floored :
      (before after : List Follower) (f : Follower)
      → All (IsOther f.user) before
      → All (IsOther f.user) after
      → events_to f.user (queue_alerts (before ++ f ∷ after) address events now)
        ≡ (if f.muted then [] else select (λ e. not (is_below_floor e (min_size f))) events)
  unfolding queue_alerts
  events_to-floored [] after f h k =
      let here = alerts_to f address now events in
      let there = queue_alerts after address events now in
      if_heard f.user f.muted here there (select (λ e. not (is_below_floor e (min_size f))) events)
        (events_to-alerts_to f events there)
      ∙ ap
          (λ rest.
            (if f.muted then [] else select (λ e. not (is_below_floor e (min_size f))) events)
            ++ rest)
          (nobody_else f after k)
      ∙ append-nil _
  events_to-floored (g ∷ before) after f h k =
      if_other f.user g.muted (alerts_to g address now events) _
        (other_events_to f.user g events _ h.0)
      ∙ events_to-floored before after f h.1 k

  -- What a follower is told: when no other row of the Trader's followers is the same User's, the
  -- alerts to that User are none if the Track is muted, and otherwise exactly these events, in
  -- order: the ones without a size, and the ones whose size is at least the Track's own floor, or
  -- the User's where the Track has none, or any at all where neither has one.
  pub events_to-queue_alerts :
      (before after : List Follower) (f : Follower)
      → All (IsOther f.user) before
      → All (IsOther f.user) after
      → events_to f.user (queue_alerts (before ++ f ∷ after) address events now) ≡ (
          if f.muted
          then []
          else select (λ e. reaches f.track_min_size f.user_min_size e.size_usd) events)
  events_to-queue_alerts before after f h k =
      events_to-floored before after f h k
      ∙ ap (λ (keep : PositionEvent → Bool). if f.muted then [] else select keep events)
          (fun_ext (told-reaches f))

module _ (followers : List Follower) (address : String) (events : List PositionEvent) (now : Time)
    (source : Owner) (t : Tables) where
  -- A lane that does not own production records its events as ones that nobody consumes, and
  -- tells nobody: no alert is queued and no Trader is marked due.
  publish_shadow :
      owns t.authority source ≡ false
      → publish followers address events now source t
        ≡ (false, record t { events = record_events address events now source false t.events })
  unfolding publish
  publish_shadow h = rw h

  pub publish_owned :
      owns t.authority source ≡ true
      → publish followers address events now source t ≡ (
        true,
        record t {
          events = record_events address events now source true t.events;
          alerts = t.alerts ++ queue_alerts followers address events now;
          traders = if any_closing events then mark_due_now address now t.traders else t.traders;
        },
      )
  unfolding publish
  publish_owned h = rw h
