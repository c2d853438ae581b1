-- ===== src/Withdrawals/Book.antt =====
-- What `_read_prior_book` and `_fraction_still_held` (withdrawals.py) make of a remembered book.
use epigone.Prelude.{
  ℕ, zero, suc, String, ◌≡◌, refl, ◌∙◌, Bool, true, false, ◌&&◌, ◌||◌, not, Option, none, some,
  List, [], ◌∷◌, arith, if◌then◌else◌, All, string_eq,
}
use epigone.Prelude.Int.{◌+ℤ◌, ◌-ℤ◌, ◌≤ℤ◌, pos, negsuc, int_laws}
use epigone.Decimal.{Decimal, whole, leb_ℤ, Rounding, IsFaithful}
use epigone.Dict.{Dict, lookup, index}
use epigone.Withdrawals.{
  before_after, share_left, fraction_still_held, walk_book, read_prior_book, PriorBook,
}
use epigone.Positions.{same_side, Position, SnapshotState}

-- A product by one or by zero is exact, as the decimal context's is for a figure of up to 28
-- digits.
abbrev pub KeepsWhole : Rounding → Decimal → Type 0
KeepsWhole r a = (r.mul a (whole 1) ≡ a) × (r.mul a (pos 0) ≡ pos 0)

abbrev pub IsKept : Rounding → String × SnapshotState → Type 0
IsKept r e = KeepsWhole r e.1.unrealized_pnl × KeepsWhole r e.1.size_usd

module _ (s : SnapshotState) where
  -- No smaller than it was, by the measure that the two looks share.
  pub is_no_smaller : Position → Bool
  unfolding before_after
  is_no_smaller p =
      let (before, after) = before_after s.size_coin p.size_coin s.size_usd p.size_usd in
      leb_ℤ before (pos 0) || leb_ℤ before after

  -- All of the remembered position is still open.
  unfoldable pub is_held : Option Position → Bool
  unfolding is_no_smaller
  is_held none = false
  is_held (some p) = same_side s.side p.side && is_no_smaller p

  -- Some of it may be left, and some of it has gone.
  unfoldable pub is_reduced : Option Position → Bool
  unfolding is_no_smaller
  is_reduced none = false
  is_reduced (some p) = same_side s.side p.side && not (is_no_smaller p)

module _ (current : Dict String Position) where
  -- What the book's positions that are all there had as unrealized PnL.
  unfoldable pub held_pnl : Dict String SnapshotState → Decimal
  unfolding is_held
  held_pnl [] = pos 0
  held_pnl ((k, s) ∷ rest) =
      (if is_held s (lookup k current) then s.unrealized_pnl else pos 0) +ℤ held_pnl rest

  -- The notional of the others.
  pub gone_notional : Dict String SnapshotState → Decimal
  gone_notional [] = pos 0
  gone_notional ((k, s) ∷ rest) =
      (if is_held s (lookup k current) then pos 0 else s.size_usd) +ℤ gone_notional rest

  -- No position of the book was reduced: each is all there, or gone, or on the other side.
  abbrev pub IsUnreduced : Dict String SnapshotState → Type 0
  IsUnreduced snapshots =
      All (λ (e : String × SnapshotState). is_reduced e.1 (lookup e.0 current) ≡ false) snapshots

+ℤ_zero : (a : Decimal) → a +ℤ pos 0 ≡ a
+ℤ_zero a = omega int_laws

zero-+ℤ : (a : Decimal) → pos 0 +ℤ a ≡ a
zero-+ℤ a = omega int_laws

+ℤ_assoc : (a b c : Decimal) → a +ℤ b +ℤ c ≡ a +ℤ (b +ℤ c)
+ℤ_assoc a b c = omega int_laws

module _ (r : Rounding) (faithful : IsFaithful r) where
  -- A measure that did not fall leaves the whole share.
  share_left-whole :
      (before after : Decimal)
      → leb_ℤ before (pos 0) || leb_ℤ before after ≡ true
      → share_left r (before, after) ≡ whole 1
  unfolding share_left
  share_left-whole (negsuc b) after h = ground arith
  share_left-whole (pos zero) after h = refl
  share_left-whole (pos (suc b)) (negsuc a) h = ground arith
  share_left-whole (pos (suc b)) (pos a) h =
      ground (arith, faithful.div_lower a (suc b) 100 (ground arith) (omega arith) (ground arith))

  -- A share lies between none and all of the position, when sizes are not negative.
  share_left_bounds :
      (before after : ℕ)
      → (pos 0 ≤ℤ share_left r (pos before, pos after))
        × (share_left r (pos before, pos after) ≤ℤ whole 1)
  unfolding share_left
  share_left_bounds zero after = omega arith
  share_left_bounds (suc before) after =
      ground
        (arith, faithful.div_lower after (suc before) 0 (omega arith) (omega arith) (omega arith))

  fraction_whole :
      (s : SnapshotState) (p : Option Position)
      → is_reduced s p ≡ false
      → fraction_still_held r s p ≡ (if is_held s p then whole 1 else pos 0)
  unfolding fraction_still_held is_held is_reduced is_no_smaller
  fraction_whole s none h = refl
  fraction_whole s (some p) h =
      let sizes = before_after s.size_coin p.size_coin s.size_usd p.size_usd in
      ground (arith, share_left-whole sizes.0 sizes.1)

  step_pnl :
      (s : SnapshotState) (p : Option Position)
      → is_reduced s p ≡ false
      → KeepsWhole r s.unrealized_pnl
      → r.mul s.unrealized_pnl (fraction_still_held r s p)
        ≡ (if is_held s p then s.unrealized_pnl else pos 0)
  step_pnl s p h keeps = ground (arith, fraction_whole s p h)

  step_gone :
      (s : SnapshotState) (p : Option Position)
      → is_reduced s p ≡ false
      → KeepsWhole r s.size_usd
      → r.mul s.size_usd (whole 1 -ℤ fraction_still_held r s p)
        ≡ (if is_held s p then pos 0 else s.size_usd)
  unfolding ◌-ℤ◌
  step_gone s p h keeps = ground (arith, fraction_whole s p h)

  module _ (current : Dict String Position) where
    walk_book_lem :
        (snapshots : Dict String SnapshotState) (book : PriorBook)
        → IsUnreduced current snapshots
        → All (IsKept r) snapshots
        → walk_book r current snapshots book ≡ record {
          retained_pnl = book.retained_pnl +ℤ held_pnl current snapshots;
          departed_notional = book.departed_notional +ℤ gone_notional current snapshots;
        }
    unfolding walk_book held_pnl gone_notional
    walk_book_lem [] book h k = rw (+ℤ_zero book.retained_pnl, +ℤ_zero book.departed_notional)
    walk_book_lem ((c, s) ∷ rest) book h k = rw (
      step_pnl s (lookup c current) h.0 k.0.0,
      step_gone s (lookup c current) h.0 k.0.1,
      walk_book_lem rest _ h.1 k.1,
      +ℤ_assoc book.retained_pnl,
      +ℤ_assoc book.departed_notional,
    )

  -- What `_read_prior_book` reads off a book of which no position was reduced: the remembered PnL
  -- of the positions that are all there, and the remembered notional of the others.
  pub read_prior_book_lem :
      (snapshots : Dict String SnapshotState) (positions : List Position)
      → IsUnreduced (index (λ (p : Position). p.coin) positions) snapshots
      → All (IsKept r) snapshots
      → read_prior_book r snapshots positions ≡ record {
        retained_pnl = held_pnl (index (λ (p : Position). p.coin) positions) snapshots;
        departed_notional = gone_notional (index (λ (p : Position). p.coin) positions) snapshots;
      }
  unfolding read_prior_book
  read_prior_book_lem snapshots positions h k =
      let current : Dict String Position = index (λ (p : Position). p.coin) positions in
      walk_book_lem current snapshots _ h k
      ∙ rw (zero-+ℤ (held_pnl current snapshots), zero-+ℤ (gone_notional current snapshots))
