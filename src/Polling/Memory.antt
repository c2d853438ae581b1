-- ===== src/Polling/Memory.antt =====
-- What a pass over a wallet that has been polled before (stream/poller.py, `_apply_poll`) leaves:
-- it always commits, and the coins whose verdict it withheld keep their anchor.
use epigone.Prelude.{
  String, ◌≡◌, refl, ap, ◌∙◌, Bool, true, false, not, Option, none, some, List, [], ◌∷◌,
  if◌then◌else◌, if-intro, select, ◌is◌, member, string_eq,
}
use epigone.Decimal.{Time, Rounding}
use epigone.Dict.{Dict, lookup, insert, index}
use epigone.Polling.Reconcile.{is_nil, Race, Applied}
use epigone.Polling.Pass.{
  not_held, look_of, polled, committed, finish, judged, poll_again, poll_by, apply_poll,
  AccountState, PollState, PollWorld,
}
use epigone.Polling.Books.{reconcile-Ends}
use epigone.Positions.{
  diff_positions, events_of, apply_changes, Position, SnapshotState, CoinChange,
}
use epigone.Positions.Memory.{expected}
use epigone.Positions.Partial.{apply_changes-select}
use epigone.Withdrawals.{record_equity, EquityObservation}
use epigone.Publication.{Follower, Tables}

member-not_held :
    (held : List String) (c : String) (b : Bool)
    → member c held ≡ b
    → (x : CoinChange) → (x.coin is c) ≡ true
    → not_held held x ≡ not b
member-not_held held c b h x e = rw ((string_eq.beq_iff x.coin c).0 e, h)

-- The doubt that is on record of the coins whose verdict was withheld: none where there are none
abbrev pub pending_of : List String → Option (List String)
pending_of [] = none
pending_of (c ∷ cs) = some (c ∷ cs)

abbrev pub pending_since : List String → Option Time → Option Time
pending_since [] since = none
pending_since (c ∷ cs) since = since

-- The row of a wallet after a pass at an instant: the baseline stands, the clock moves, and the
-- coins that are held, with the instant from which they are, are what is pending.
abbrev pub polled_row : Applied → Time → PollState → PollState
polled_row applied now row = record {
  baselined_at = row.baselined_at;
  last_polled_at = now;
  reconcile_pending = pending_of applied.held;
  reconcile_since = pending_since applied.held applied.held_since;
}

polled_lem :
    (applied : Applied) (now : Time) (row : PollState)
    → polled applied now row ≡ polled_row applied now row
polled_lem applied now row = from applied.held applied.held_since
  where
    from :
        (held : List String) (since : Option Time)
        → ◌≡◌ {A = PollState}
            (record row {
              last_polled_at = now;
              reconcile_pending = if is_nil held then none else some held;
              reconcile_since = if is_nil held then none else since;
            })
            (record row {
              last_polled_at = now;
              reconcile_pending = pending_of held;
              reconcile_since = pending_since held since;
            })
    from [] since = refl
    from (c ∷ cs) since = refl

module _ (r : Rounding) (followers : List Follower) (address : String) (account : AccountState)
    (now interval : Time) (race : Race) where
  judged_total :
      (row : PollState) (w : PollWorld)
      → (done : Tables × Applied) × (judged r followers address account now interval row race w
          ≡ some done)
  unfolding judged
  judged_total row w =
      let events = events_of (diff_positions r w.memory account.positions now) in
      let (held, held_since, drifted, told, out, (ends, tells, may, apart)) =
        reconcile-Ends r followers (look_of address account now row w) race events w.tables in
      if-intro (λ (o : Option (Tables × Applied)). (done : Tables × Applied) × (o ≡ some done))
        (is_nil events) (λ _. (_, refl)) (λ _. (_, ends))

  poll_again_lem :
      (row : PollState) (previous : Option EquityObservation) (w : PollWorld) (t : Tables)
      (applied : Applied) (memory : Dict String SnapshotState)
      → judged r followers address account now interval row race w ≡ some (t, applied)
      → apply_changes
          (select (not_held applied.held) (diff_positions r w.memory account.positions now))
          w.memory
        ≡ some memory
      → poll_again r followers address account now interval row race previous w
        ≡ some (
          committed r followers address account now interval row previous w (t, applied) memory,
          applied,
        )
  unfolding poll_again finish
  poll_again_lem row previous w t applied memory judged' applied' =
      rw (judged', poll_again) (rw (applied', finish) refl)

  -- What a pass leaves of the wallet's own memory.
  abbrev pub Leaves : PollState → PollWorld → PollWorld × Applied → Type 0
  Leaves row w (out, applied) =
      (out.state ≡ some (polled_row applied now row))
      × (out.equity
          ≡ insert address (record { account_value = account.account_value; observed_at = now })
              w.equity)
      × ((c : String)
          → member c applied.held ≡ false
          → lookup c out.memory
            ≡ expected (lookup c (index (λ (p : Position). p.coin) account.positions))
                (lookup c w.memory) now)
      × ((c : String) → member c applied.held ≡ true → lookup c out.memory ≡ lookup c w.memory)

  -- Over a wallet that has been polled before, a pass commits on every branch. It records the
  -- equity and moves the row's clock, and the row says which coins are held and since when; each
  -- coin that is not held is remembered as the observation implies, and each coin that is held
  -- keeps what was remembered, so that the next pass judges the same change again.
  pub apply_poll-Leaves :
      (row : PollState) (w : PollWorld)
      → w.state ≡ some row
      → (done : PollWorld × Applied) × (apply_poll r followers address account now interval race w
          ≡ some done)
        × Leaves row w done
  unfolding apply_poll poll_by committed record_equity
  apply_poll-Leaves row w polled_before =
      let w' : PollWorld = record w {
        equity =
            insert address (record { account_value = account.account_value; observed_at = now })
              w.equity;
      } in
      let ((t, applied), judged') = judged_total row w' in
      let (memory, applied', all, kept) =
        apply_changes-select r now w.memory account.positions (not_held applied.held) in
      (
        (
          committed r followers address account now interval row (lookup address w.equity) w'
              (t, applied) memory,
          applied,
        ),
        ap
              (λ state.
                poll_by r followers address account now interval state race
                  (lookup address w.equity) w')
              polled_before
            ∙ poll_again_lem row (lookup address w.equity) w' t applied memory judged' applied',
        (
          ap (λ s. some s) (polled_lem applied now row),
          refl,
          λ c free. all c (member-not_held applied.held c false free),
          λ c held. kept c (member-not_held applied.held c true held),
        ),
      )
