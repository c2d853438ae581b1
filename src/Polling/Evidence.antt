-- ===== src/Polling/Evidence.antt =====
-- What it takes for the websocket's rows to vouch for a change (stream/poller.py).
use epigone.Positions.{EventKind, opened, close, flip, scale_in, scale_out, PositionEvent}
use epigone.Authority.{is_ws, Owner, poll, ws}
use epigone.Prelude.{
  ◌≤◌, max, String, ◌≡◌, refl, sym, ap, ◌∙◌, inl, inr, Bool, true, false, ◌&&◌, not, Option, none,
  some, List, [], ◌∷◌, ◌++◌, arith, leb, Bool-cases, every_of, member, string_eq,
}
use epigone.Decimal.{Time}
use epigone.Polling.{
  directions, moves, later_of, latest, is_of, websocket_rows, is_since, is_covered,
  every_leg_covered, is_flip, vouched_for, Direction, entry, exit,
}
use epigone.Publication.{EventRow}

and_true : (a b : Bool) → a && b ≡ true → (a ≡ true) × (b ≡ true)
and_true true b h = (refl, h)
and_true false b h = cc

not_owed : (a b : Bool) → not (a && b) ≡ true → a ≡ true → b ≡ false
not_owed true true h f = cc
not_owed true false h f = refl
not_owed false b h f = cc

-- The directions in which a kind of event moves a position. A flip leaves one side and enters the
-- other.
abbrev pub MovesIn : EventKind → Direction → Type 0
MovesIn opened entry = Unit
MovesIn opened exit = ⊥
MovesIn scale_in entry = Unit
MovesIn scale_in exit = ⊥
MovesIn close entry = ⊥
MovesIn close exit = Unit
MovesIn scale_out entry = ⊥
MovesIn scale_out exit = Unit
MovesIn flip entry = Unit
MovesIn flip exit = Unit

moves-MovesIn : (k : EventKind) (d : Direction) → moves k d ≡ true → MovesIn k d
unfolding moves directions
moves-MovesIn opened entry h = tt
moves-MovesIn opened exit h = cc
moves-MovesIn scale_in entry h = tt
moves-MovesIn scale_in exit h = cc
moves-MovesIn close entry h = cc
moves-MovesIn close exit h = tt
moves-MovesIn scale_out entry h = cc
moves-MovesIn scale_out exit h = tt
moves-MovesIn flip entry h = tt
moves-MovesIn flip exit h = tt

written_by_ws : (source : Owner) → is_ws source ≡ true → source ≡ ws
written_by_ws ws h = refl
written_by_ws poll h = cc

abbrev pub Among : EventRow → List EventRow → Type 0
Among row rows = (before after : List EventRow) × (rows ≡ before ++ row ∷ after)

-- A row that a condition holds of, and that was written at some instant.
abbrev Found : (EventRow → Bool) → List EventRow → Time → Type 0
Found keep rows at = (row : EventRow) × Among row rows × (keep row ≡ true) × (row.observed_at ≡ at)

Found-tail :
    (keep : EventRow → Bool) (x : EventRow) (rows : List EventRow) (at : Time)
    → Found keep rows at
    → Found keep (x ∷ rows) at
Found-tail keep x rows at (row, (before, after, e), k, t) =
    (row, (x ∷ before, after, ap (λ rest. x ∷ rest) e), k, t)

Found-later :
    (keep : EventRow → Bool) (x : EventRow) (rows : List EventRow) (rest : Option Time)
    → keep x ≡ true
    → ((at : Time) → rest ≡ some at → Found keep rows at)
    → Found keep (x ∷ rows) (later_of rest x.observed_at)
Found-later keep x rows none k found = (x, ([], rows, refl), k, refl)
Found-later keep x rows (some s) k found = elim (Bool-cases (leb x.observed_at s)) [
  | inl before ↦
      let e : max s x.observed_at ≡ s = ground arith in
      rw e (Found-tail keep x rows s (found s refl))
  | inr after ↦ (x, ([], rows, refl), k, ground arith)
]

none_found : (keep : EventRow → Bool) (at : Time) → latest keep [] ≡ some at → ⊥
unfolding latest
none_found keep at h = cc

latest_kept :
    (keep : EventRow → Bool) (x : EventRow) (rows : List EventRow)
    → keep x ≡ true
    → latest keep (x ∷ rows) ≡ some (later_of (latest keep rows) x.observed_at)
unfolding latest
latest_kept keep x rows k = rw k

latest_left :
    (keep : EventRow → Bool) (x : EventRow) (rows : List EventRow)
    → keep x ≡ false
    → latest keep (x ∷ rows) ≡ latest keep rows
unfolding latest
latest_left keep x rows k = rw k

latest-Found :
    (keep : EventRow → Bool) (rows : List EventRow) (at : Time)
    → latest keep rows ≡ some at
    → Found keep rows at
latest-Found keep [] at h = absurd (none_found keep at h)
latest-Found keep (x ∷ rows) at h = elim (Bool-cases (keep x)) [
  | inl kept ↦
      let e : later_of (latest keep rows) x.observed_at ≡ at = cc (latest_kept keep x rows kept) in
      rw (← e) (Found-later keep x rows (latest keep rows) kept (latest-Found keep rows))
  | inr left ↦
      Found-tail keep x rows at (latest-Found keep rows at (sym (latest_left keep x rows left) ∙ h))
]

module _ (e : PositionEvent) (address : String) (since : Time) (rows : List EventRow)
    (no_earlier_than : Time) (d : Direction) where
  -- A row that consumers acted on and that covers a direction of a change.
  abbrev pub Covers : Type 0
  Covers =
      (row : EventRow) × Among row rows
      × (row.address ≡ address)
      × (row.source ≡ ws)
      × (row.authoritative ≡ true)
      × (row.event.coin ≡ e.coin)
      × MovesIn row.event.kind d
      × (no_earlier_than ≤ row.observed_at)

  abbrev keeps : EventRow → Bool
  keeps row = is_of address since e.coin d row && row.authoritative

  Found-Covers : (at : Time) → leb no_earlier_than at ≡ true → Found keeps rows at → Covers
  Found-Covers at late (row, among, k, t) = (
    row,
    among,
    (string_eq.beq_iff row.address address).0 (ground arith),
    written_by_ws row.source (ground arith),
    ground arith,
    (string_eq.beq_iff row.event.coin e.coin).0 (ground arith),
    moves-MovesIn row.event.kind d (ground arith),
    ground arith,
  )

  covered_by :
      (found : Option Time)
      → latest keeps rows ≡ found
      → is_since no_earlier_than found ≡ true
      → Covers
  covered_by none found h = cc
  covered_by (some at) found h = Found-Covers at h (latest-Found keeps rows at found)

  is_covered-Covers :
      is_covered e (websocket_rows address since rows).produced no_earlier_than d ≡ true → Covers
  unfolding is_covered websocket_rows
  is_covered-Covers h = covered_by (latest keeps rows) refl h

every-moves :
    (p : Direction → Bool) (k : EventKind) (d : Direction)
    → every_of p (directions k) ≡ true
    → MovesIn k d
    → p d ≡ true
unfolding directions
every-moves p opened entry h m = ground arith
every-moves p opened exit h m = elim m [ ]
every-moves p scale_in entry h m = ground arith
every-moves p scale_in exit h m = elim m [ ]
every-moves p close entry h m = elim m [ ]
every-moves p close exit h m = ground arith
every-moves p scale_out entry h m = elim m [ ]
every-moves p scale_out exit h m = ground arith
every-moves p flip entry h m = ground arith
every-moves p flip exit h m = ground arith

-- What a vouch rests on: for each direction in which the change moves (an open and a scale-in
-- enter, a close and a scale-out leave, and a flip does both), a row that the websocket lane wrote
-- of this wallet and coin, whose own kind moves in that direction, that consumers acted on and
-- that is no older than the coin's lookback; and, for a flip, that the lane's own anchor owes
-- nothing on the coin.
pub vouched_for-Covers :
    (e : PositionEvent) (address : String) (since : Time) (rows : List EventRow)
    (no_earlier_than : Time) (owed : List String)
    → vouched_for e (websocket_rows address since rows).produced no_earlier_than owed ≡ true
    → ((d : Direction) → MovesIn e.kind d → Covers e address since rows no_earlier_than d)
      × (e.kind ≡ flip → member e.coin owed ≡ false)
unfolding vouched_for every_leg_covered
vouched_for-Covers e address since rows no_earlier_than owed h =
    let covered = is_covered e (websocket_rows address since rows).produced no_earlier_than in
    let both =
      and_true (every_of covered (directions e.kind)) (not (is_flip e.kind && member e.coin owed))
        h in
    (
      λ d m.
          is_covered-Covers e address since rows no_earlier_than d
            (every-moves covered e.kind d both.0 m),
      λ f. not_owed (is_flip e.kind) (member e.coin owed) both.1 (ap is_flip f),
    )
