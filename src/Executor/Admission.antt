-- ===== src/Executor/Admission.antt =====
-- What an entry of execute/executor.py has passed before it is priced.
use epigone.Dict.{lookup}
use epigone.Episodes.{live_episode, CopyEpisode}
use epigone.Prelude.{
  ◌-◌, ◌≤◌, ◌≡◌, refl, inl, inr, Bool, true, false, ◌&&◌, ◌||◌, not, Option, none, some, arith, ltb,
  if◌then◌else◌, Option-cases, string_eq,
}
use epigone.Prelude.Int.{◌≤ℤ◌, ltb_ℤ}
use epigone.Decimal.{Decimal, Rounding}
use epigone.Executor.{
  because, next_cycle, skip_if, then-goes, skip_if-goes, or_skip-goes, winding_down,
  entry_staleness_guard, leader_equity_floor, Leg, opening, scaling_in, closing, scaling_out,
  flip_close, flip_open, stale_entry, no_local_position, coin_occupied, unorderable,
  under_liquidity_floor, under_liveness_floor, loss_budget_spent, Skip, goes, CopySub,
  ClaimableEvent, Desk,
}
use epigone.Executor.Plan.{
  is_scaling_in, held_size, has, held_skip, liveness_skip, floor_skip, fresh_skip, entry_skip,
  EntryReads,
}
use epigone.Positions.{Position}
use epigone.Policy.{judge_coin, RiskLimits, MarketStats}

module _ (r : Rounding) where
  -- What the skips of an entry have ruled out: a sub that winds down, a stale event, a coin that
  -- cannot be ordered, and a position that the leg does not fit. A fresh entry has read a leader
  -- above the liveness floor and a coin that the policy allows; a scale-in needs neither.
  abbrev pub HasRoom : Leg → Option CopyEpisode → Option Position → Type 0
  HasRoom leg episode position =
      if is_scaling_in leg
      then (has episode && has (held_size position)) ≡ true
      else (has episode || has position) ≡ false

  pub record IsAdmitted (leg : Leg) (e : ClaimableEvent) (sub : CopySub) (l : RiskLimits)
      (reads : EntryReads) (desk : Desk) : Type 0 where
    pub not_breached : sub.budget_breached_at ≡ none
    pub not_stale : reads.now - e.observed_at ≤ entry_staleness_guard
    pub has_room :
        HasRoom leg
          (live_episode sub.id e.event.coin desk.store.episodes)
          (lookup e.event.coin desk.positions)
    pub leader_alive :
        is_scaling_in leg ≡ false
        → (v : Decimal) × (reads.leader_equity ≡ some v) × (leader_equity_floor ≤ℤ v)
    pub coin_allowed :
        is_scaling_in leg ≡ false
        → (m : Option MarketStats) × (reads.stats ≡ some m) × ((judge_coin r m l).allowed ≡ true)

  kept : (c : Bool) (s : Skip) → skip_if c s ≡ goes tt → c ≡ false
  kept true s h = ground (arith, h)
  kept false s h = refl

  held_skip-HasRoom :
      (leg : Leg) (episode : Option CopyEpisode) (position : Option Position)
      → held_skip leg episode position ≡ goes tt
      → HasRoom leg episode position
  unfolding held_skip
  held_skip-HasRoom scaling_in episode position h =
      unnegated (has episode && has (held_size position)) (kept _ (because no_local_position) h)
    where
      unnegated : (b : Bool) → not b ≡ false → b ≡ true
      unnegated true h = refl
      unnegated false h = ground (arith, h)
  held_skip-HasRoom opening episode position h = kept _ (because coin_occupied) h
  held_skip-HasRoom closing episode position h = kept _ (because coin_occupied) h
  held_skip-HasRoom scaling_out episode position h = kept _ (because coin_occupied) h
  held_skip-HasRoom flip_close episode position h = kept _ (because coin_occupied) h
  held_skip-HasRoom flip_open episode position h = kept _ (because coin_occupied) h

  liveness_skip-goes :
      (equity : Option Decimal)
      → liveness_skip equity ≡ goes tt
      → (v : Decimal) × (equity ≡ some v) × (leader_equity_floor ≤ℤ v)
  unfolding liveness_skip
  liveness_skip-goes equity h =
      let (v, read, rest) =
        or_skip-goes equity next_cycle
          (λ value. skip_if (ltb_ℤ value leader_equity_floor) (because under_liveness_floor)) tt
          h in
      let large = kept (ltb_ℤ v leader_equity_floor) (because under_liveness_floor) rest in
      (v, read, ground (arith, large))

  floor_skip-goes :
      (stats : Option (Option MarketStats)) (l : RiskLimits)
      → floor_skip r stats l ≡ goes tt
      → (m : Option MarketStats) × (stats ≡ some m) × ((judge_coin r m l).allowed ≡ true)
  unfolding floor_skip
  floor_skip-goes stats l h =
      let (m, read, rest) =
        or_skip-goes stats next_cycle
          (λ market. skip_if (not (judge_coin r market l).allowed) (because under_liquidity_floor))
          tt h in
      let allowed = kept (not (judge_coin r m l).allowed) (because under_liquidity_floor) rest in
      (m, read, ground (arith, allowed))

  fresh_skip-goes :
      (scaling : Bool) (reads : EntryReads) (l : RiskLimits)
      → (if scaling then goes tt else fresh_skip r reads l) ≡ goes tt
      → scaling ≡ false
      → (liveness_skip reads.leader_equity ≡ goes tt) × (floor_skip r reads.stats l ≡ goes tt)
  unfolding fresh_skip
  fresh_skip-goes true reads l h f = ground (arith, f)
  fresh_skip-goes false reads l h f =
      let (_, alive, floor) =
        then-goes (liveness_skip reads.leader_equity) (floor_skip r reads.stats l) tt h in
      (alive, floor)

  unbreached : (sub : CopySub) → winding_down sub ≡ false → sub.budget_breached_at ≡ none
  unbreached sub h = elim (Option-cases sub.budget_breached_at) [
    | inl never ↦ never
    | inr (at, since) ↦ ground (arith, h, since)
  ]

  -- An entry is admitted only where none of its skips applies: the sub is not winding down, the
  -- event is at most five minutes old, a scale has an episode and a position to grow and a fresh
  -- entry finds the coin free of both, and a fresh entry's leader and coin were read and passed
  -- their floors.
  pub entry_skip-IsAdmitted :
      (leg : Leg) (e : ClaimableEvent) (sub : CopySub) (l : RiskLimits) (reads : EntryReads)
      (desk : Desk)
      → entry_skip r leg e sub l reads desk ≡ goes tt
      → IsAdmitted leg e sub l reads desk
  unfolding entry_skip
  entry_skip-IsAdmitted leg e sub l reads desk h =
      let (calm, h1) = skip_if-goes (winding_down sub) (because loss_budget_spent) _ tt h in
      let (fresh, h2) =
        skip_if-goes (ltb entry_staleness_guard (reads.now - e.observed_at)) (because stale_entry) _
          tt h1 in
      let (_, h3) = skip_if-goes (not (has reads.spec)) (because unorderable) _ tt h2 in
      let (_, room, h4) =
        then-goes
          (held_skip leg (live_episode sub.id e.event.coin desk.store.episodes)
            (lookup e.event.coin desk.positions))
          _ tt h3 in
      let floors = fresh_skip-goes (is_scaling_in leg) reads l h4 in
      record {
        not_breached = unbreached sub calm;
        not_stale = ground (arith, fresh);
        has_room =
            held_skip-HasRoom leg (live_episode sub.id e.event.coin desk.store.episodes)
              (lookup e.event.coin desk.positions) room;
        leader_alive = λ first. liveness_skip-goes reads.leader_equity (floors first).0;
        coin_allowed = λ first. floor_skip-goes reads.stats l (floors first).1;
      }
