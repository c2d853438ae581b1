-- ===== src/Positions/Memory.antt =====
-- What applying the decided changes leaves in a lane's memory (position_diff.py and
-- position_snapshots.py).
use epigone.Dict.Laws.{
  lookup-insert, lookup-erase, contains-lookup-none, lookup-none-contains, index-IsDict, IsKeyed,
  index-IsKeyed,
}
use epigone.Prelude.{
  String, ◌≡◌, refl, ◌∙◌, inl, inr, ◌&&◌, not, Option, none, some, List, [], ◌∷◌, ◌++◌, arith,
  if◌then◌else◌, Bool-cases, string_eq,
}
use epigone.Decimal.{Time, Rounding}
use epigone.Dict.{Dict, lookup, contains, insert, erase, index, IsDict}
use epigone.Positions.{
  same_side, diff_positions, apply_changes, Position, SnapshotState, CoinChange, closes, decide,
  present, remembered, apply_change,
}

abbrev coin_of : Position → String
coin_of p = p.coin

-- When the remembered position opened: the earlier time survives a resize, and only that.
pub opening_time : Option SnapshotState → Position → Time → Time
opening_time none p now = now
opening_time (some s) p now = if same_side s.side p.side then s.opened_at else now

-- The memory of a coin that an observation implies.
unfoldable pub expected : Option Position → Option SnapshotState → Time → Option SnapshotState
unfolding opening_time remembered
expected none s now = none
expected (some p) s now = some (remembered p (opening_time s p now))

-- The memory after the closes, and after the rewrites, as plain folds.
forgotten :
    Dict String SnapshotState
    → Dict String Position
    → Dict String SnapshotState
    → Dict String SnapshotState
forgotten [] current d = d
forgotten ((k, s) ∷ rest) current d =
    forgotten rest current (if contains k current then d else erase k d)

rewritten :
    Dict String SnapshotState
    → Time
    → Dict String Position
    → Dict String SnapshotState
    → Dict String SnapshotState
unfolding remembered opening_time
rewritten previous now [] d = d
rewritten previous now ((k, p) ∷ rest) d =
    rewritten previous now rest
      (insert p.coin (remembered p (opening_time (lookup k previous) p now)) d)

lookup-forgotten :
    (c : String) (previous d : Dict String SnapshotState) (current : Dict String Position)
    → lookup c (forgotten previous current d)
      ≡ (if contains c previous && not (contains c current) then none else lookup c d)
unfolding forgotten contains
lookup-forgotten c [] d current = refl
lookup-forgotten c ((k, s) ∷ rest) d current = ground (
  arith,
  string_eq.beq_iff k c,
  lookup-erase k c d,
  lookup-forgotten c rest (if contains k current then d else erase k d) current,
)

module _ (r : Rounding) (now : Time) where
  apply_changes-closes :
      (previous d : Dict String SnapshotState) (current : Dict String Position)
      (ys : List CoinChange)
      → apply_changes (closes r previous current ++ ys) d
        ≡ apply_changes ys (forgotten previous current d)
  unfolding apply_changes closes forgotten
  apply_changes-closes [] d current ys = refl
  apply_changes-closes ((k, s) ∷ rest) d current ys = elim (Bool-cases (contains k current)) [
    | inl held ↦ rw held (apply_changes-closes rest d current ys)
    | inr gone ↦ rw gone (apply_changes-closes rest (erase k d) current ys)
  ]

  apply_change-decide :
      (s : Option SnapshotState) (k : String) (p : Position) (d : Dict String SnapshotState)
      → apply_change (decide r s now k p) d
        ≡ some (insert p.coin (remembered p (opening_time s p now)) d)
  unfolding apply_change decide opening_time
  apply_change-decide none k p d = refl
  apply_change-decide (some s) k p d = elim (Bool-cases (same_side s.side p.side)) [
    | inl same ↦ rw same
    | inr other ↦ rw other
  ]

  apply_changes-present :
      (previous : Dict String SnapshotState) (current : Dict String Position)
      (d : Dict String SnapshotState)
      → apply_changes (present r previous now current) d ≡ some (rewritten previous now current d)
  unfolding apply_changes present rewritten
  apply_changes-present previous [] d = refl
  apply_changes-present previous ((k, p) ∷ rest) d =
      rw (apply_change-decide (lookup k previous) k p d, apply_changes)
        (apply_changes-present previous rest
          (insert p.coin (remembered p (opening_time (lookup k previous) p now)) d))

-- The value that a fold over an observation leaves at one coin.
after_rewrite :
    Option Position → Option SnapshotState → Option SnapshotState → Time → Option SnapshotState
unfolding expected
after_rewrite none s old now = old
after_rewrite (some p) s old now = expected (some p) s now

lookup-rewritten :
    (c : String) (previous : Dict String SnapshotState) (now : Time)
    (current : Dict String Position) (d : Dict String SnapshotState)
    → IsDict current
    → IsKeyed coin_of current
    → lookup c (rewritten previous now current d)
      ≡ after_rewrite (lookup c current) (lookup c previous) (lookup c d) now
unfolding rewritten after_rewrite lookup
lookup-rewritten c previous now [] d dict keyed = refl
lookup-rewritten c previous now ((k, p) ∷ rest) d dict keyed =
    let v : SnapshotState = remembered p (opening_time (lookup k previous) p now) in
    ground (
      arith,
      string_eq.beq_iff k c,
      string_eq.beq_iff p.coin c,
      contains-lookup-none k rest,
      lookup-insert p.coin c v d,
      lookup-rewritten c previous now rest (insert p.coin v d) dict.1 keyed.1,
    )

module _ (r : Rounding) (now : Time) (previous : Dict String SnapshotState)
    (positions : List Position) where
  abbrev current : Dict String Position
  current = index coin_of positions

  -- The memory that the decided changes leave.
  abbrev advanced : Dict String SnapshotState
  advanced = rewritten previous now current (forgotten previous current previous)

  apply_changes-diff_positions_lem :
      apply_changes (diff_positions r previous positions now) previous ≡ some advanced
  unfolding diff_positions
  apply_changes-diff_positions_lem =
      apply_changes-closes r now previous previous current (present r previous now current)
      ∙ apply_changes-present r now previous current (forgotten previous current previous)

  lookup-advanced :
      (c : String) → lookup c advanced ≡ expected (lookup c current) (lookup c previous) now
  unfolding expected after_rewrite
  lookup-advanced c = ground (
    arith,
    lookup-rewritten c previous now current (forgotten previous current previous)
        (index-IsDict coin_of positions) (index-IsKeyed coin_of positions),
    lookup-forgotten c previous previous current,
    contains-lookup-none c previous,
    contains-lookup-none c current,
    lookup-none-contains c current,
  )

  -- Applying the changes never meets the missing opening time, and afterwards the memory of every
  -- coin is what the observation implies: none where no position is held, otherwise the position
  -- as observed, opened at the remembered time if its side is unchanged and now if it is not.
  pub apply_changes-diff_positions :
      (memory : Dict String SnapshotState) × (apply_changes
          (diff_positions r previous positions now)
          previous
        ≡ some memory)
      × ((c : String)
          → lookup c memory
            ≡ expected
                (lookup c (index (λ (p : Position). p.coin) positions))
                (lookup c previous)
                now)
  apply_changes-diff_positions = (advanced, apply_changes-diff_positions_lem, lookup-advanced)
