-- ===== src/Executor/Books.antt =====
-- What a fill leaves in the books of execute/executor.py: the episode and this cycle's position.
use epigone.Executor.Fills.{fill_desk}
use epigone.Dict.Laws.{is_refl, lookup-insert, lookup-erase}
use epigone.Executor.Run.{exited}
use epigone.Executor.Exits.{IsExitPlan}
use epigone.Prelude.{
  ℕ, ◌≤◌, String, ◌≡◌, refl, sym, ap, ◌∙◌, subst, inl, inr, true, false, Option, none, some, arith,
  Bool-cases, if-intro, string_eq,
}
use epigone.Prelude.Int.{◌+ℤ◌, ◌-ℤ◌, ◌≤ℤ◌, ltb_ℤ, -ℤ_parts, pos, int_laws}
use epigone.Decimal.{Decimal, Time, whole, leb_ℤ, ◌<ℤ◌, max_ℤ, Rounding}
use epigone.Dict.{lookup}
use epigone.Executor.{Leg, flip_close, AssetSpec, CopySub, ClaimableEvent, Desk}
use epigone.Executor.Plan.{held_size, EntryPlan, ExitPlan}
use epigone.Executor.Steps.{
  apply_fill, size_or_zero, is_full_exit, ending_of, settle_exit, booked, ExitWire, Reduction,
}
use epigone.Positions.{Side}
use epigone.Episodes.{
  live_episode, open_episode, adopt_size, end_episode, leader_flip, CopyEpisode, Store, Opening,
}
use epigone.Episodes.Live.{
  live_count, live_episode-adopt_size, open_episode-live_episode, end_episode-live_episode,
}

abbrev pub size_of : Option CopyEpisode → Decimal
size_of none = pos 0
size_of (some e) = e.size_coin

-- The size that the books hold of a coin, nothing where it has no live episode
abbrev pub booked_size : ℕ → String → Store → Decimal
booked_size sub coin s = size_of (live_episode sub coin s.episodes)

-- The size that this cycle's view holds of a coin
abbrev pub viewed_size : String → Desk → Decimal
viewed_size coin desk = size_or_zero (held_size (lookup coin desk.positions))

zero_plus : (d : Decimal) → d ≡ pos 0 +ℤ d
zero_plus d = omega int_laws

booked-adopts :
    (o : Opening) (s : Store) (e : CopyEpisode)
    → live_episode o.sub_id o.coin s.episodes ≡ some e
    → booked o s ≡ adopt_size e.id (e.size_coin +ℤ o.size_coin) s
unfolding booked ◌+ℤ◌
booked-adopts o s e live = rw (booked, live) refl

booked-opens :
    (o : Opening) (s t : Store)
    → live_episode o.sub_id o.coin s.episodes ≡ none
    → open_episode o s ≡ some t
    → booked o s ≡ t
unfolding booked
booked-opens o s t free fresh = rw (booked, free, fresh) refl

booked-grows :
    (o : Opening) (s : Store)
    → booked_size o.sub_id o.coin (booked o s) ≡ booked_size o.sub_id o.coin s +ℤ o.size_coin
booked-grows o s = elim (open_episode-live_episode o s) [
  | inl (e, live, refused) ↦
      ap (booked_size o.sub_id o.coin) (booked-adopts o s e live)
      ∙ ap size_of (live_episode-adopt_size o.sub_id o.coin (e.size_coin +ℤ o.size_coin) e s live)
      ∙ sym (ap (λ (x : Option CopyEpisode). size_of x +ℤ o.size_coin) live)
  | inr (t, free, fresh, live, _) ↦
      ap (booked_size o.sub_id o.coin) (booked-opens o s t free fresh)
      ∙ ap size_of live
      ∙ zero_plus o.size_coin
      ∙ sym (ap (λ (x : Option CopyEpisode). size_of x +ℤ o.size_coin) free)
]

module _ (r : Rounding) where
  apply_fill-holds :
      (coin : String) (side : Side) (size price leverage : Decimal) (desk : Desk)
      → pos 0 <ℤ size
      → viewed_size coin (apply_fill r.mul coin side size price leverage desk) ≡ size
  unfolding apply_fill
  apply_fill-holds coin side size price leverage desk h = elim (Bool-cases (leb_ℤ size (pos 0))) [
    | inl empty ↦ ground (arith, empty, h)
    | inr held ↦ rw held (rw (lookup-insert coin coin _ desk.positions, is_refl coin) refl)
  ]

  apply_fill-empties :
      (coin : String) (side : Side) (price leverage : Decimal) (desk : Desk)
      → lookup coin (apply_fill r.mul coin side (pos 0) price leverage desk).positions ≡ none
  unfolding apply_fill
  apply_fill-empties coin side price leverage desk =
      rw (lookup-erase coin coin desk.positions, is_refl coin) refl

  apply_fill-keeps :
      (coin : String) (side : Side) (size price leverage : Decimal) (desk : Desk)
      → (apply_fill r.mul coin side size price leverage desk).store ≡ desk.store
  unfolding apply_fill
  apply_fill-keeps coin side size price leverage desk =
      if-intro (λ (d : Desk). d.store ≡ desk.store) (leb_ℤ size (pos 0)) (λ _. refl) (λ _. refl)

  -- A fill grows the episode that is booked for the coin and this cycle's view of its position by
  -- the same size, whether it opens the episode or adds to one.
  fill_desk-grows :
      (leg : Leg) (e : ClaimableEvent) (sub : CopySub) (p : EntryPlan) (size price : Decimal)
      (now : Time) (desk : Desk)
      → pos 0 <ℤ viewed_size e.event.coin desk +ℤ size
      → (booked_size sub.id e.event.coin (fill_desk r leg e sub p size price now desk).store
          ≡ booked_size sub.id e.event.coin desk.store +ℤ size)
        × (viewed_size e.event.coin (fill_desk r leg e sub p size price now desk)
            ≡ viewed_size e.event.coin desk +ℤ size)
  unfolding fill_desk
  fill_desk-grows leg e sub p size price now desk h =
      let o : Opening = record {
        sub_id = sub.id;
        coin = e.event.coin;
        side = p.side;
        entry_price = price;
        size_coin = size;
        opened_at = now;
        opened_event_id = some e.id;
        leverage = some (whole p.ask.leverage.value);
      } in
      let booked_desk : Desk = record desk { store = booked o desk.store } in
      let kept =
        apply_fill-keeps e.event.coin p.side (viewed_size e.event.coin desk +ℤ size) price
          (whole p.ask.leverage.value) booked_desk in
      (
        ap (booked_size sub.id e.event.coin) kept ∙ booked-grows o desk.store,
        apply_fill-holds e.event.coin p.side (viewed_size e.event.coin desk +ℤ size) price
            (whole p.ask.leverage.value) booked_desk h,
      )

  no_less : (d : Decimal) → d -ℤ d ≡ pos 0
  no_less d = omega int_laws

  nothing_left :
      (target sold : Decimal)
      → target ≤ℤ sold
      → ltb_ℤ (pos 0) (max_ℤ (target -ℤ sold) (pos 0)) ≡ false
  nothing_left target sold h = ground (arith, h, -ℤ_parts target sold)

  settle_exit-ends :
      (leg : Leg) (x : CopyEpisode) (target sold : Decimal) (now : Time) (s : Store)
      → is_full_exit leg ≡ true
      → target ≤ℤ sold
      → (settle_exit leg x target sold now s).1 ≡ end_episode x.id (ending_of leg) now s
  unfolding settle_exit
  settle_exit-ends leg x target sold now s whole_exit h =
      rw (whole_exit, nothing_left target sold h) refl

  -- The close leg of a flip that sold all that was held ends the episode and empties the view, so
  -- the coin is free for the open leg.
  pub exited-frees :
      (e : ClaimableEvent) (sub : CopySub) (p : ExitPlan) (k : ExitWire) (done : Reduction)
      (universe : Option AssetSpec) (desk : Desk)
      → IsExitPlan r flip_close e sub universe desk p
      → live_count sub.id e.event.coin desk.store.episodes ≤ 1
      → done.raised ≡ false
      → done.filled_size ≡ p.held
      → (live_episode sub.id e.event.coin
            (exited r flip_close e.event.coin p k done desk).desk.store.episodes
          ≡ none)
        × (lookup e.event.coin (exited r flip_close e.event.coin p k done desk).desk.positions
            ≡ none)
  unfolding exited
  exited-frees e sub p k done universe desk x one came all =
      let settled =
        (settle_exit flip_close p.episode p.target done.filled_size k.settled_at desk.store).1 in
      let left : Desk = record desk { store = settled } in
      let ended_now =
        settle_exit-ends flip_close p.episode p.target done.filled_size k.settled_at desk.store refl
          (subst (λ (d : Decimal). p.target ≤ℤ d) (sym all) (x.within_held refl)) in
      rw came (
        ap (λ (s : Store). live_episode sub.id e.event.coin s.episodes)
              (apply_fill-keeps e.event.coin p.episode.side (p.held -ℤ done.filled_size)
                  p.position.entry_price p.position.leverage left
                ∙ ended_now)
            ∙ end_episode-live_episode sub.id e.event.coin p.episode leader_flip k.settled_at
                desk.store one x.of_episode,
        ap
              (λ (d : Decimal).
                lookup e.event.coin
                  (apply_fill r.mul e.event.coin p.episode.side d p.position.entry_price
                    p.position.leverage left).positions)
              (ap (λ (d : Decimal). p.held -ℤ d) all ∙ no_less p.held)
            ∙ apply_fill-empties e.event.coin p.episode.side p.position.entry_price
                p.position.leverage left,
      )
