-- ===== src/Positions/Partial.antt =====
-- What applying a part of the decided changes leaves in a lane's memory (position_diff.py and
-- position_snapshots.py): each coin's changes are applied or not, on their own.
use epigone.Prelude.{
  String, ◌≡◌, refl, sym, ap, ◌∙◌, inl, inr, Bool, true, false, Option, none, some, List, [], ◌∷◌,
  ◌++◌, arith, if◌then◌else◌, Bool-cases, All, select, ◌is◌, string_eq,
}
use epigone.Decimal.{Time, Rounding}
use epigone.Dict.{Dict, lookup, insert, erase, index}
use epigone.Dict.Laws.{lookup-insert, lookup-erase, IsKeyed, index-IsKeyed}
use epigone.Positions.{
  same_side, diff_positions, remembered, apply_changes, Position, SnapshotState, PositionEvent,
  CoinChange, closes, decide, present, apply_change,
}
use epigone.Positions.Memory.{expected, apply_changes-diff_positions}

-- A change that can be applied: a position comes with an opening time, and stands under its coin.
abbrev IsApplicable : Option Position → Option Time → String → Type 0
IsApplicable none at coin = Unit
IsApplicable (some p) none coin = ⊥
IsApplicable (some p) (some at) coin = p.coin ≡ coin

abbrev IsWhole : CoinChange → Type 0
IsWhole c = IsApplicable c.position c.opened_at c.coin

-- What is written for a coin, and the memory with it.
written : Option Position → Option Time → Option SnapshotState
written none at = none
written (some p) none = none
written (some p) (some at) = some (remembered p at)

effect :
    Option Position → Option Time → String → Dict String SnapshotState → Dict String SnapshotState
effect none at coin m = erase coin m
effect (some p) none coin m = m
effect (some p) (some at) coin m = insert p.coin (remembered p at) m

effects : List CoinChange → Dict String SnapshotState → Dict String SnapshotState
effects [] m = m
effects (c ∷ cs) m = effects cs (effect c.position c.opened_at c.coin m)

change-effect :
    (position : Option Position) (at : Option Time) (coin : String) (event : Option PositionEvent)
    (m : Dict String SnapshotState)
    → IsApplicable position at coin
    → apply_change (record { coin = coin; event = event; position = position; opened_at = at }) m
      ≡ some (effect position at coin m)
unfolding apply_change effect
change-effect none at coin event m h = refl
change-effect (some p) none coin event m h = elim h [ ]
change-effect (some p) (some at) coin event m h = refl

apply_changes-effects :
    (cs : List CoinChange) (m : Dict String SnapshotState)
    → All IsWhole cs
    → apply_changes cs m ≡ some (effects cs m)
unfolding apply_changes effects
apply_changes-effects [] m h = refl
apply_changes-effects (c ∷ cs) m h =
    rw (change-effect c.position c.opened_at c.coin c.event m h.0, apply_changes)
      (apply_changes-effects cs (effect c.position c.opened_at c.coin m) h.1)

lookup-effect :
    (position : Option Position) (at : Option Time) (coin c : String)
    (m : Dict String SnapshotState)
    → IsApplicable position at coin
    → lookup c (effect position at coin m) ≡ (if coin is c then written position at else lookup c m)
unfolding effect written
lookup-effect none at coin c m h = lookup-erase coin c m
lookup-effect (some p) none coin c m h = elim h [ ]
lookup-effect (some p) (some at) coin c m h = rw (← h) (lookup-insert p.coin c (remembered p at) m)

-- A coin whose changes are all selected has what applying all of them gives.
lookup-effects-select :
    (keep : CoinChange → Bool) (c : String) (cs : List CoinChange)
    (m m' : Dict String SnapshotState)
    → All IsWhole cs
    → ((x : CoinChange) → (x.coin is c) ≡ true → keep x ≡ true)
    → lookup c m ≡ lookup c m'
    → lookup c (effects (select keep cs) m) ≡ lookup c (effects cs m')
unfolding effects
lookup-effects-select keep c [] m m' h k e = e
lookup-effects-select keep c (x ∷ cs) m m' h k e = elim (Bool-cases (keep x)) [
  | inl kept ↦ rw kept (
      lookup-effects-select keep c cs _ _ h.1 k (
        lookup-effect x.position x.opened_at x.coin c m h.0
        ∙ rw e refl
        ∙ sym (lookup-effect x.position x.opened_at x.coin c m' h.0)))
  | inr left ↦ rw left (
      lookup-effects-select keep c cs m _ h.1 k
        (ground (arith, e, k x, lookup-effect x.position x.opened_at x.coin c m' h.0)))
]

-- A coin of which no change is selected keeps what it had.
lookup-effects-held :
    (keep : CoinChange → Bool) (c : String) (cs : List CoinChange) (m : Dict String SnapshotState)
    → All IsWhole cs
    → ((x : CoinChange) → (x.coin is c) ≡ true → keep x ≡ false)
    → lookup c (effects (select keep cs) m) ≡ lookup c m
unfolding effects
lookup-effects-held keep c [] m h k = refl
lookup-effects-held keep c (x ∷ cs) m h k = elim (Bool-cases (keep x)) [
  | inl kept ↦ rw kept (
      lookup-effects-held keep c cs _ h.1 k
      ∙ ground (arith, k x, lookup-effect x.position x.opened_at x.coin c m h.0))
  | inr left ↦ rw left (lookup-effects-held keep c cs m h.1 k)
]

All-select :
    (keep : CoinChange → Bool) (cs : List CoinChange)
    → All IsWhole cs
    → All IsWhole (select keep cs)
All-select keep [] h = tt
All-select keep (x ∷ cs) h = ground (arith, All-select keep cs h.1)

All-append : (xs ys : List CoinChange) → All IsWhole xs → All IsWhole ys → All IsWhole (xs ++ ys)
All-append [] ys h k = k
All-append (x ∷ xs) ys h k = (h.0, All-append xs ys h.1 k)

module _ (r : Rounding) (now : Time) where
  closes-IsWhole :
      (previous : Dict String SnapshotState) (current : Dict String Position)
      → All IsWhole (closes r previous current)
  unfolding closes
  closes-IsWhole [] current = tt
  closes-IsWhole ((k, s) ∷ rest) current = ground (arith, closes-IsWhole rest current)

  decide-IsWhole :
      (s : Option SnapshotState) (c : String) (p : Position)
      → c ≡ p.coin
      → IsWhole (decide r s now c p)
  unfolding decide
  decide-IsWhole none c p h = sym h
  decide-IsWhole (some s) c p h = elim (Bool-cases (same_side s.side p.side)) [
    | inl same ↦ rw same (sym h)
    | inr other ↦ rw other (sym h)
  ]

  present-IsWhole :
      (previous : Dict String SnapshotState) (current : Dict String Position)
      → IsKeyed (λ (p : Position). p.coin) current
      → All IsWhole (present r previous now current)
  unfolding present
  present-IsWhole previous [] h = tt
  present-IsWhole previous ((k, p) ∷ rest) h =
      (decide-IsWhole (lookup k previous) k p h.0, present-IsWhole previous rest h.1)

  module _ (previous : Dict String SnapshotState) (positions : List Position)
      (keep : CoinChange → Bool) where
    diff_positions-IsWhole : All IsWhole (diff_positions r previous positions now)
    unfolding diff_positions
    diff_positions-IsWhole =
        let current : Dict String Position = index (λ (p : Position). p.coin) positions in
        All-append (closes r previous current) (present r previous now current)
          (closes-IsWhole previous current)
          (present-IsWhole previous current (index-IsKeyed (λ (p : Position). p.coin) positions))

    -- Applying some of the decided changes never meets the missing opening time. A coin whose
    -- changes are all among them is remembered as the observation implies, and a coin of whose
    -- changes none is keeps what was remembered.
    pub apply_changes-select :
        (out : Dict String SnapshotState) × (apply_changes
            (select keep (diff_positions r previous positions now))
            previous
          ≡ some out)
        × ((c : String)
            → ((x : CoinChange) → (x.coin is c) ≡ true → keep x ≡ true)
            → lookup c out
              ≡ expected
                  (lookup c (index (λ (p : Position). p.coin) positions))
                  (lookup c previous)
                  now)
        × ((c : String)
            → ((x : CoinChange) → (x.coin is c) ≡ true → keep x ≡ false)
            → lookup c out ≡ lookup c previous)
    apply_changes-select =
        let cs = diff_positions r previous positions now in
        let (memory, applied, reads) = apply_changes-diff_positions r now previous positions in
        let same : effects cs previous ≡ memory =
          cc (apply_changes-effects cs previous diff_positions-IsWhole, applied) in
        (
          effects (select keep cs) previous,
          apply_changes-effects (select keep cs) previous
              (All-select keep cs diff_positions-IsWhole),
          λ c all.
              lookup-effects-select keep c cs previous previous diff_positions-IsWhole all refl
              ∙ ap (lookup c) same
              ∙ reads c,
          λ c kept. lookup-effects-held keep c cs previous diff_positions-IsWhole kept,
        )
