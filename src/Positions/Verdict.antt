-- ===== src/Positions/Verdict.antt =====
-- Which decision `diff_positions` (position_diff.py) makes about each coin, and in which order.
use epigone.Decimal.{Time, Rounding}
use epigone.Dict.{Dict, lookup, contains, index, IsDict}
use epigone.Dict.Laws.{contains-lookup-none, lookup-none-contains, index-IsDict}
use epigone.Positions.{
  same_side, open_event, close_event, flip_event, scale_event, diff_positions, Position,
  SnapshotState, CoinChange, closes, decide, present,
}
use epigone.Prelude.{
  String, ◌≡◌, refl, Bool, Option, none, some, List, [], ◌∷◌, ◌++◌, arith, if◌then◌else◌, All, ◌is◌,
  string_eq,
}

-- The decisions about one coin, in their order.
pub changes_for : String → List CoinChange → List CoinChange
changes_for c [] = []
changes_for c (x ∷ xs) = let rest = changes_for c xs in if x.coin is c then x ∷ rest else rest

changes_for-append :
    (c : String) (xs ys : List CoinChange)
    → changes_for c (xs ++ ys) ≡ changes_for c xs ++ changes_for c ys
unfolding changes_for
changes_for-append c [] ys = refl
changes_for-append c (x ∷ xs) ys = ground (arith, changes_for-append c xs ys)

abbrev pub IsClose : CoinChange → Type 0
IsClose c = (c.position ≡ none) × (c.opened_at ≡ none)

abbrev pub IsHeld : CoinChange → Type 0
IsHeld c = (p : Position) × (c.position ≡ some p)

module _ (r : Rounding) (now : Time) where
  -- What each coin deserves, read off its two observations alone: nothing if it is in neither, a
  -- close, an open, one flip, or a resize that keeps its opening time.
  pub verdict : String → Option SnapshotState → Option Position → List CoinChange
  verdict c none none = []
  verdict c (some s) none =
      record { coin = c; event = some (close_event r s); position = none; opened_at = none } ∷ []
  verdict c none (some p) =
      record { coin = c; event = some (open_event r p); position = some p; opened_at = some now }
      ∷ []
  verdict c (some s) (some p) =
      record {
        coin = c;
        event = if same_side s.side p.side then scale_event r s p else some (flip_event r s p);
        position = some p;
        opened_at = some (if same_side s.side p.side then s.opened_at else now);
      }
      ∷ []

  close_of : String → Option SnapshotState → Bool → List CoinChange
  close_of c none held = []
  close_of c (some s) held = if held then [] else verdict c (some s) none

  held_of : String → Option SnapshotState → Option Position → List CoinChange
  held_of c s none = []
  held_of c s (some p) = verdict c s (some p)

  verdict_lem :
      (c : String) (s : Option SnapshotState) (current : Dict String Position)
      → close_of c s (contains c current) ++ held_of c s (lookup c current)
        ≡ verdict c s (lookup c current)
  unfolding close_of held_of verdict
  verdict_lem c s current =
      ground (arith, contains-lookup-none c current, lookup-none-contains c current)

  changes_for-closes :
      (c : String) (previous : Dict String SnapshotState) (current : Dict String Position)
      → IsDict previous
      → changes_for c (closes r previous current)
        ≡ close_of c (lookup c previous) (contains c current)
  unfolding changes_for closes close_of verdict lookup
  changes_for-closes c [] current dict = refl
  changes_for-closes c ((k, s) ∷ rest) current dict = ground (
    arith,
    string_eq.beq_iff k c,
    contains-lookup-none k rest,
    changes_for-closes c rest current dict.1,
  )

  decide-verdict :
      (c : String) (s : Option SnapshotState) (p : Position)
      → decide r s now c p ∷ [] ≡ verdict c s (some p)
  unfolding decide verdict
  decide-verdict c none p = refl
  decide-verdict c (some s) p = ground arith

  decide_coin :
      (s : Option SnapshotState) (c : String) (p : Position) → (decide r s now c p).coin ≡ c
  unfolding decide
  decide_coin none c p = refl
  decide_coin (some s) c p = ground arith

  changes_for-present :
      (c : String) (previous : Dict String SnapshotState) (current : Dict String Position)
      → IsDict current
      → changes_for c (present r previous now current)
        ≡ held_of c (lookup c previous) (lookup c current)
  unfolding changes_for present held_of lookup
  changes_for-present c previous [] dict = refl
  changes_for-present c previous ((k, p) ∷ rest) dict = ground (
    arith,
    string_eq.beq_iff k c,
    contains-lookup-none k rest,
    decide-verdict k (lookup k previous) p,
    decide_coin (lookup k previous) k p,
    changes_for-present c previous rest dict.1,
  )

  -- When no coin is remembered twice, the decisions about any coin are exactly the verdict on its
  -- two observations: none, one close, one open, one flip or one resize, and no others.
  changes_for-diff_positions :
      (previous : Dict String SnapshotState) (positions : List Position) (c : String)
      → IsDict previous
      → changes_for c (diff_positions r previous positions now)
        ≡ verdict c (lookup c previous) (lookup c (index (λ (p : Position). p.coin) positions))
  unfolding diff_positions
  changes_for-diff_positions previous positions c dict =
      let current : Dict String Position = index (λ (p : Position). p.coin) positions in
      rw
        (
          changes_for-append c (closes r previous current) (present r previous now current),
          changes_for-closes c previous current dict,
          changes_for-present c previous current
              (index-IsDict (λ (p : Position). p.coin) positions),
        )
        (verdict_lem c (lookup c previous) current)

  closes-IsClose :
      (previous : Dict String SnapshotState) (current : Dict String Position)
      → All IsClose (closes r previous current)
  unfolding closes
  closes-IsClose [] current = tt
  closes-IsClose ((k, s) ∷ rest) current = ground (arith, closes-IsClose rest current)

  decide-IsHeld :
      (s : Option SnapshotState) (c : String) (p : Position)
      → (decide r s now c p).position ≡ some p
  unfolding decide
  decide-IsHeld none c p = refl
  decide-IsHeld (some s) c p = ground arith

  present-IsHeld :
      (previous : Dict String SnapshotState) (current : Dict String Position)
      → All IsHeld (present r previous now current)
  unfolding present
  present-IsHeld previous [] = tt
  present-IsHeld previous ((k, p) ∷ rest) =
      ((p, decide-IsHeld (lookup k previous) k p), present-IsHeld previous rest)

  -- The decisions are the closes, which carry no position and no opening time, and after all of
  -- them the coins that are held, each with its position.
  pub diff_positions_closes_first :
      (previous : Dict String SnapshotState) (positions : List Position)
      → (xs ys : List CoinChange) × (diff_positions r previous positions now ≡ xs ++ ys)
        × All IsClose xs
        × All IsHeld ys
  unfolding diff_positions
  diff_positions_closes_first previous positions =
      let current : Dict String Position = index (λ (p : Position). p.coin) positions in
      (
        closes r previous current,
        present r previous now current,
        refl,
        closes-IsClose previous current,
        present-IsHeld previous current,
      )
