-- ===== src/Executor/Reconcile.antt =====
-- `_reconcile_episode` and `_classify_vanished` of execute/executor.py: one live episode against
-- what the exchange shows of its coin. Nothing here places an order. An order book that cannot be
-- read raises, and ends the cycle's reconciliation.
use epigone.Prelude.{
  ℕ, String, Bool, true, false, ◌&&◌, ◌||◌, not, Option, none, some, List, [], ◌∷◌, ◌==◌,
  if◌then◌else◌, ◌is◌, string_eq,
}
use epigone.Executor.Books.{booked_size}
use epigone.Episodes.{
  adopt_size, end_episode, Ending, bracket, operator_closed, liquidated, CopyEpisode, BracketOrder,
  Store,
}
use epigone.Dict.{Dict, lookup}
use epigone.Decimal.{Decimal, Time, leb_ℤ}
use epigone.Positions.{same_side, Position}

-- A fill, and whether its direction names a liquidation
pub record Fill : Type 0 where
  pub coin : String
  pub liquidates : Bool

-- What a reconciliation reads of a vanished position: the ids of the orders that rest on the
-- sub's books, and the fills since the episode opened, none where they are unreadable.
pub record VanishedReads : Type 0 where
  pub book : List ℕ
  pub fills : Option (List Fill)

-- What it does about an episode: the audit rows of the case, with the episode and what follows
pub data Finding : Type 0 where
  in_order : Finding
  size_adopted : Decimal → Finding
  opposite_side : Finding
  unclassifiable : Finding
  episode_over : Ending → Finding

-- Whether one of the fills of the coin tells a liquidation
unfoldable pub liquidated_among : String → List Fill → Bool
liquidated_among coin [] = false
liquidated_among coin (f ∷ fs) = ((f.coin is coin) && f.liquidates) || liquidated_among coin fs

-- `_was_liquidated`
unfoldable pub was_liquidated : String → Option (List Fill) → Option Bool
unfolding liquidated_among
was_liquidated coin none = none
was_liquidated coin (some fs) = some (liquidated_among coin fs)

unfoldable pub has_id : ℕ → List ℕ → Bool
has_id n [] = false
has_id n (m ∷ ms) = (m == n) || has_id n ms

-- `_brackets_still_resting`, of the episode's own legs
unfoldable pub still_resting : ℕ → List ℕ → List BracketOrder → Bool
still_resting id book [] = false
still_resting id book (b ∷ bs) =
    ((b.episode_id == id) && has_id b.order_id book) || still_resting id book bs

-- Whether the episode has legs on record
unfoldable pub has_legs : ℕ → List BracketOrder → Bool
has_legs id [] = false
has_legs id (b ∷ bs) = (b.episode_id == id) || has_legs id bs

-- Why a position is gone, once its brackets are ruled out
unfoldable pub by_fills : Option Bool → Finding
by_fills none = unclassifiable
by_fills (some true) = episode_over liquidated
by_fills (some false) = episode_over operator_closed

-- `_classify_vanished`
unfoldable pub classify_vanished : CopyEpisode → VanishedReads → Store → Finding
unfolding by_fills
classify_vanished e k s =
    if has_legs e.id s.brackets && not (still_resting e.id k.book s.brackets)
    then episode_over bracket
    else by_fills (was_liquidated e.coin k.fills)

-- A size that is observed, against the one that is booked
unfoldable pub size_finding : Option Decimal → Decimal → Finding
size_finding none booked_size = in_order
size_finding (some held) booked_size =
    if leb_ℤ held booked_size && leb_ℤ booked_size held then in_order else size_adopted held

-- `_reconcile_episode` of a coin's position
unfoldable pub find_divergence : CopyEpisode → VanishedReads → Store → Option Position → Finding
unfolding classify_vanished size_finding
find_divergence e k s none = classify_vanished e k s
find_divergence e k s (some p) =
    if same_side p.side e.side then size_finding p.size_coin e.size_coin else opposite_side

-- What a finding writes
unfoldable pub write_finding : CopyEpisode → Time → Finding → Store → Store
write_finding e now in_order s = s
write_finding e now (size_adopted held) s = adopt_size e.id held s
write_finding e now opposite_side s = s
write_finding e now unclassifiable s = s
write_finding e now (episode_over why) s = end_episode e.id why now s

-- What is left: the store, the episodes that were paged once, and whether the chat hears of it
pub record Reconciled : Type 0 where
  pub store : Store
  pub flagged : List ℕ
  pub found : Finding
  pub chat : Bool

-- `_flagged` after a finding: a page is remembered.
flagged_after : ℕ → Finding → List ℕ → List ℕ
unfolding has_id
flagged_after id opposite_side ids = if has_id id ids then ids else id ∷ ids
flagged_after id unclassifiable ids = if has_id id ids then ids else id ∷ ids
flagged_after id _ ids = ids

-- Whether the chat hears: of an end always, of a page the first time
tells_chat : ℕ → Finding → List ℕ → Bool
unfolding has_id
tells_chat id (episode_over _) ids = true
tells_chat id opposite_side ids = not (has_id id ids)
tells_chat id unclassifiable ids = not (has_id id ids)
tells_chat id _ ids = false

-- `_reconcile_episode`, with `_end_episode` and `_page`
unfoldable pub reconcile_episode :
    CopyEpisode → VanishedReads → Dict String Position → Time → List ℕ → Store → Reconciled
unfolding find_divergence write_finding flagged_after tells_chat
reconcile_episode e k positions now flagged s =
    let found = find_divergence e k s (lookup e.coin positions) in
    record {
      store = write_finding e now found s;
      flagged = flagged_after e.id found flagged;
      found = found;
      chat = tells_chat e.id found flagged;
    }
