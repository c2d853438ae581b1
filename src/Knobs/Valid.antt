-- ===== src/Knobs/Valid.antt =====
-- Which limits `set_knob` of execute/limits.py can leave.
use epigone.Policy.{RiskLimits}
use epigone.Prelude.{
  ℕ, ◌≤◌, String, ◌≡◌, sym, ap, ◌∙◌, subst, Bool, true, false, ◌&&◌, not, Option, some, arith,
  if◌then◌else◌,
}
use epigone.Decimal.{Decimal, Time, ◌<ℤ◌}
use epigone.Knobs.{
  least_value, units, is_whole, knob, load, written, replaced, changed, set_knob, Column,
  floor_day_notional_usd, floor_open_interest_usd, max_coin_stake_usd, max_sub_stake_usd,
  backstop_leverage, Knob, Word, finite, KnobChange, knob_moved,
}
use epigone.Prelude.Int.{◌≤ℤ◌, ltb_ℤ, pos, negsuc}
use epigone.Knobs.Write.{
  integer_column, off_column, knob-IsRegistered, parse_value, set_knob_result, Writes,
  set_knob-Writes,
}

-- Floors that are not negative, stakes above nothing, and some leverage.
abbrev pub IsValid : RiskLimits → Type 0
IsValid l =
    (pos 0 ≤ℤ l.floor_day_notional_usd)
    × (pos 0 ≤ℤ l.floor_open_interest_usd)
    × (pos 0 <ℤ l.max_coin_stake_usd)
    × (pos 0 <ℤ l.max_sub_stake_usd)
    × (1 ≤ l.backstop_leverage)

units_positive : (v : Decimal) → ltb_ℤ v least_value ≡ false → is_whole v ≡ true → 1 ≤ units v
unfolding units
units_positive (pos n) floor whole_v = ground arith
units_positive (negsuc n) floor whole_v = ground arith

written-IsValid :
    (column : Column) (v : Decimal) (l : RiskLimits) (integer : Bool)
    → integer ≡ integer_column column
    → ltb_ℤ v (if off_column column then pos 0 else least_value) ≡ false
    → (integer && not (is_whole v)) ≡ false
    → IsValid l
    → IsValid (written column v l)
written-IsValid floor_day_notional_usd v l integer e floor whole_v h =
    (ground arith, h.1, h.2, h.3, h.4)
written-IsValid floor_open_interest_usd v l integer e floor whole_v h =
    (h.0, ground arith, h.2, h.3, h.4)
written-IsValid max_coin_stake_usd v l integer e floor whole_v h =
    (h.0, h.1, ground arith, h.3, h.4)
written-IsValid max_sub_stake_usd v l integer e floor whole_v h = (h.0, h.1, h.2, ground arith, h.4)
written-IsValid backstop_leverage v l integer e floor whole_v h =
    (h.0, h.1, h.2, h.3, units_positive v floor (ground (arith, e, whole_v)))

replaced-IsValid :
    (column : Column) (v : Decimal) (operator : ℕ) (now : Time) (l : RiskLimits)
    → IsValid (written column v l)
    → IsValid (replaced column v operator now l)
unfolding replaced
replaced-IsValid column v operator now l h = h

changed-IsValid :
    (decimal : String → Option Word) (row : Option RiskLimits) (name raw : String) (operator : ℕ)
    (now : Time) (c : KnobChange)
    → IsValid (load row)
    → set_knob decimal row name raw operator now ≡ knob_moved c
    → IsValid c.after
unfolding changed replaced
changed-IsValid decimal row name raw operator now c valid h =
    let (entry, v, known, parsed, same) = set_knob_result decimal row name raw operator now c h in
    let (word, floor, whole_v) = parse_value entry (decimal raw) v parsed in
    let (integer, off) = knob-IsRegistered name entry known in
    let accepted = ap (λ b. ltb_ℤ v (if b then pos 0 else least_value)) (sym off) ∙ floor in
    subst (λ (x : KnobChange). IsValid x.after) same
      (replaced-IsValid entry.column v operator now (load row)
        (written-IsValid entry.column v (load row) entry.is_integer integer accepted whole_v valid))

-- A limit that is set to a finite amount: the name is a registered knob, and the word the amount.
-- The row that stands afterwards is the limits returned as `after`, where that knob reads the
-- amount, every knob of another column reads what it read before, and the stamps name the operator
-- and the time. From a row that is valid, or from none, these limits are valid: floors not
-- negative, stake caps above zero, and a leverage backstop of at least one. The outcome in which a
-- limit is set to Infinity is not this one.
pub set_knob-IsValid :
    (decimal : String → Option Word) (row : Option RiskLimits) (name raw : String) (operator : ℕ)
    (now : Time) (c : KnobChange)
    → IsValid (load row)
    → set_knob decimal row name raw operator now ≡ knob_moved c
    → (entry : Knob) × (v : Decimal) × (knob name ≡ some entry)
      × (decimal raw ≡ some (finite v))
      × Writes row entry v operator now c
      × IsValid c.after
set_knob-IsValid decimal row name raw operator now c valid h =
    let (entry, v, known, word, writes) = set_knob-Writes decimal row name raw operator now c h in
    (entry, v, known, word, writes, changed-IsValid decimal row name raw operator now c valid h)
