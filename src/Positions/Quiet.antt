-- ===== src/Positions/Quiet.antt =====
-- Looking again at what was just remembered is no news (position_diff.py, position_snapshots.py).
use epigone.Positions.Scale.{scale_event_silent}
use epigone.Dict.Laws.{
  contains-lookup-some, contains-head, contains-tail, lookup-none-contains, index-IsDict,
  All-lookup,
}
use epigone.Prelude.{
  String, ◌≡◌, refl, subst, inl, inr, true, none, some, List, [], ◌∷◌, arith, Option-cases, All,
  string_eq,
}
use epigone.Prelude.Int.{pos_part, ◌-ℤ◌, ℤ, pos, negsuc}
use epigone.Decimal.{Time, abs, Rounding, IsFaithful}
use epigone.Dict.{Dict, lookup, contains, index}
use epigone.Positions.{
  same_side, diff_positions, events_of, apply_changes, Side, long, short, Position, SnapshotState,
  CoinChange, closes, decide, present, remembered,
}
use epigone.Positions.Memory.{opening_time, expected, apply_changes-diff_positions}

-- Memory and observation agree: each remembered coin is held, and each held coin is remembered
-- with the side and the notional that are observed.
pub record IsCurrent (memory : Dict String SnapshotState) (held : Dict String Position)
    : Type 0 where
  pub no_stale : (c : String) → lookup c held ≡ none → lookup c memory ≡ none
  pub agrees :
      (c : String) (p : Position)
      → lookup c held ≡ some p
      → (s : SnapshotState) × (lookup c memory ≡ some s)
        × (s.side ≡ p.side)
        × (s.size_usd ≡ p.size_usd)

expected-IsCurrent :
    (memory previous : Dict String SnapshotState) (held : Dict String Position) (now : Time)
    → ((c : String) → lookup c memory ≡ expected (lookup c held) (lookup c previous) now)
    → IsCurrent memory held
unfolding expected
expected-IsCurrent memory previous held now h = record {
  no_stale = λ c e. ground (arith, h c);
  agrees = λ c p e.
      (remembered p (opening_time (lookup c previous) p now), ground (arith, h c), refl, refl);
}

events_of-silent :
    (x : CoinChange) (xs : List CoinChange)
    → x.event ≡ none
    → events_of xs ≡ []
    → events_of (x ∷ xs) ≡ []
unfolding events_of
events_of-silent x xs e h = ground arith

held_of_remembered :
    {memory : Dict String SnapshotState} {held : Dict String Position}
    → IsCurrent memory held
    → (c : String) → contains c memory ≡ true
    → contains c held ≡ true
held_of_remembered {memory} {held} v c e = elim (Option-cases (lookup c held)) [
  | inl gone ↦ ground (arith, v.no_stale c gone, lookup-none-contains c memory)
  | inr (p, found) ↦ contains-lookup-some c held p found
]

self_change : (a b : ℤ) → a ≡ b → pos_part (abs (b -ℤ a)) ≡ 0
unfolding ◌-ℤ◌
self_change (pos a) b e = ground arith
self_change (negsuc a) b e = ground arith

same_side_self : (s : Side) → same_side s s ≡ true
same_side_self long = refl
same_side_self short = refl

module _ (r : Rounding) (faithful : IsFaithful r) (later : Time) where
  closes-quiet :
      (memory : Dict String SnapshotState) (held : Dict String Position)
      → ((c : String) → contains c memory ≡ true → contains c held ≡ true)
      → closes r memory held ≡ []
  unfolding closes
  closes-quiet [] held h = refl
  closes-quiet ((k, s) ∷ rest) held h =
      rw (h k (contains-head k s rest))
        (closes-quiet rest held λ c e. h c (contains-tail c k s rest e))

  decide-quiet :
      (s : SnapshotState) (c : String) (p : Position)
      → s.side ≡ p.side
      → s.size_usd ≡ p.size_usd
      → (decide r (some s) later c p).event ≡ none
  unfolding decide
  decide-quiet s c p e f = ground (
    arith,
    same_side_self p.side,
    self_change s.size_usd p.size_usd f,
    scale_event_silent r faithful s p,
  )

  present-quiet :
      (memory : Dict String SnapshotState) (held : Dict String Position)
      → All
          (λ (kp : String × Position).
            (s : SnapshotState) × (lookup kp.0 memory ≡ some s)
            × (s.side ≡ kp.1.side)
            × (s.size_usd ≡ kp.1.size_usd))
          held
      → events_of (present r memory later held) ≡ []
  unfolding present events_of
  present-quiet memory [] h = refl
  present-quiet memory ((k, p) ∷ rest) h =
      let (s, found, side, size) = h.0 in
      rw found (
        events_of-silent (decide r (some s) later k p) (present r memory later rest)
          (decide-quiet s k p side size) (present-quiet memory rest h.1))

  -- Applying the changes of one observation and looking again at the same positions, at any later
  -- time, emits no event: neither a close, an open, a flip nor a resize.
  pub events_of-diff_positions_again :
      (previous memory : Dict String SnapshotState) (positions : List Position) (now : Time)
      → apply_changes (diff_positions r previous positions now) previous ≡ some memory
      → events_of (diff_positions r memory positions later) ≡ []
  unfolding diff_positions
  events_of-diff_positions_again previous memory positions now h =
      let held : Dict String Position = index (λ (p : Position). p.coin) positions in
      let (m, done, reads) = apply_changes-diff_positions r now previous positions in
      let reads' : (c : String)
          → lookup c memory ≡ expected (lookup c held) (lookup c previous) now =
        λ c.
          subst (λ d. lookup c d ≡ expected (lookup c held) (lookup c previous) now) (cc)
            (reads c) in
      let v : IsCurrent memory held = expected-IsCurrent memory previous held now reads' in
      rw (closes-quiet memory held (held_of_remembered v)) (
        present-quiet memory held
          (All-lookup _ held (index-IsDict (λ (p : Position). p.coin) positions) v.agrees))
