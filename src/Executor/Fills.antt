-- ===== src/Executor/Fills.antt =====
-- `_settle_entry` of execute/executor.py, with the brackets that `_place_brackets` signs at a fill.
use epigone.Executor.Steps.{apply_fill, size_or_zero, booked, EntryWire}
use epigone.Prelude.Int.{◌+ℤ◌}
use epigone.Pricing.{trigger_price}
use epigone.Executor.Plan.{is_long, held_size, EntryPlan}
use epigone.Episodes.{
  live_episode, record_bracket, forget_brackets, CopyEpisode, Tpsl, tp, sl, Store,
}
use epigone.Positions.{Side, Position}
use epigone.Executor.{
  Leg, AssetSpec, gtc, OrderSpec, OrderResult, resting, filled, order_rejected, CopySub,
  ClaimableEvent, Desk, done_rejected, unexpected_resting, done_filled, Act, reads_halt, places,
  finishes,
}
use epigone.Decimal.{Decimal, Time, whole, Rounding}
use epigone.Dict.{lookup}
use epigone.Prelude.{
  ℕ, Bool, true, false, not, Option, none, some, List, [], ◌∷◌, ◌++◌, if◌then◌else◌, string_eq,
}

-- The brackets that rest, from the legs and the answers side by side
record_resting : ℕ → Time → List OrderSpec → List OrderResult → Store → Store
record_resting id now [] results s = s
record_resting id now (o ∷ os) [] s = s
record_resting id now (o ∷ os) (result ∷ results) s =
    record_resting id now os results (record_leg id now o.trigger result s)
  where
    record_leg : ℕ → Time → Option (Decimal × Tpsl) → OrderResult → Store → Store
    record_leg id now (some (_, t)) (resting oid) s =
        record_bracket (record { episode_id = id; order_id = oid; tpsl = t; placed_at = now }) s
    record_leg id now _ _ s = s

abbrev pub leg_order : AssetSpec → Bool → Decimal → Decimal → Tpsl → OrderSpec
leg_order spec is_buy size at t = record {
  asset = spec.asset_id;
  is_buy = is_buy;
  size = size;
  limit_price = at;
  tif = gtc;
  reduce_only = true;
  trigger = some (at, t);
}

module _ (r : Rounding) where
  open r use {mul}

  -- A leg of the bracket; one that has no price is left out.
  bracket_leg : Option Decimal → Tpsl → Position → Decimal → AssetSpec → Side → List OrderSpec
  bracket_leg none t p size spec side = []
  bracket_leg (some pct) t p size spec side =
      elim (trigger_price r p.entry_price pct (is_long side) (is_target t) spec.sz_decimals) [
        | none ↦ []
        | some at ↦ leg_order spec (not (is_long side)) size at t ∷ []
      ]
    where
      is_target : Tpsl → Bool
      is_target tp = true
      is_target sl = false

  pub bracket_legs : CopySub → Position → AssetSpec → Side → List OrderSpec
  unfolding bracket_leg
  bracket_legs sub p spec side = elim p.size_coin [
    | none ↦ []
    | some size ↦
        bracket_leg sub.take_profit_pct tp p size spec side
        ++ bracket_leg sub.stop_loss_pct sl p size spec side
  ]

  -- The part of `_place_brackets` that signs
  unfoldable pub place_legs : ℕ → EntryWire → Desk → List OrderSpec → List Act × Desk
  unfolding record_resting
  place_legs id k desk [] = ([], desk)
  place_legs id k desk (leg ∷ legs) = if k.halted_brackets then (reads_halt true ∷ [], desk) else (
    reads_halt false ∷ places (leg ∷ legs) ∷ [],
    elim k.bracket_results [
      | none ↦ desk
      | some results ↦ record desk {
        store = record_resting id k.settled_at (leg ∷ legs) results desk.store;
      }
    ],
  )

  -- `_place_brackets` at a fill
  unfoldable pub place_brackets :
      CopySub → ℕ → Position → AssetSpec → Side → EntryWire → Desk → List Act × Desk
  unfolding bracket_legs place_legs
  place_brackets sub id p spec side k desk = place_legs id k desk (bracket_legs sub p spec side)

  -- `_settle_entry` of a fill, before its brackets
  unfoldable pub fill_desk :
      Leg → ClaimableEvent → CopySub → EntryPlan → Decimal → Decimal → Time → Desk → Desk
  unfolding booked apply_fill
  fill_desk leg e sub p size price now desk =
      let coin = e.event.coin in
      let leverage = whole p.ask.leverage.value in
      apply_fill mul coin p.side (size_or_zero (held_size (lookup coin desk.positions)) +ℤ size)
        price leverage
        (record desk {
          store =
              booked
                (record {
                  sub_id = sub.id;
                  coin = coin;
                  side = p.side;
                  entry_price = price;
                  size_coin = size;
                  opened_at = now;
                  opened_event_id = some e.id;
                  leverage = some leverage;
                })
                desk.store;
        })

  -- The brackets of `_settle_entry`, for the position and the episode that the fill left
  unfoldable pub fill_brackets :
      CopySub
      → EntryPlan
      → EntryWire
      → Desk
      → Option Position
      → Option CopyEpisode
      → List Act × Desk
  unfolding place_brackets
  fill_brackets sub p k desk (some position) (some episode) =
      if sub.brackets
      then place_brackets sub episode.id position p.spec episode.side k
          (record desk { store = forget_brackets episode.id desk.store })
      else ([], desk)
  fill_brackets sub p k desk _ _ = ([], desk)

  -- `_settle_entry`
  unfoldable pub settle_entry :
      Leg → ClaimableEvent → CopySub → EntryPlan → EntryWire → OrderResult → Desk → List Act × Desk
  unfolding fill_desk fill_brackets
  settle_entry leg e sub p k (resting _) desk = (finishes unexpected_resting ∷ [], desk)
  settle_entry leg e sub p k order_rejected desk = (finishes done_rejected ∷ [], desk)
  settle_entry leg e sub p k (filled size price) desk =
      let coin = e.event.coin in
      let filled_desk = fill_desk leg e sub p size price k.settled_at desk in
      let (acts, settled) =
        fill_brackets sub p k filled_desk (lookup coin filled_desk.positions)
          (live_episode sub.id coin filled_desk.store.episodes) in
      (acts ++ finishes done_filled ∷ [], settled)
