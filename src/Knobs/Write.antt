-- ===== src/Knobs/Write.antt =====
-- What `set_knob` of execute/limits.py writes.
-- Whether a column holds an integer, and whether zero means something there.
use epigone.Prelude.{
  ℕ, ◌*◌, ◌^◌, String, ◌≡◌, refl, sym, ap, ◌∙◌, subst, ◌≢◌, ◌⊎◌, inl, inr, Bool, true, false, ◌&&◌,
  not, Option, none, some, List, [], ◌∷◌, arith, if◌then◌else◌, Bool-cases, All, ◌is◌, string_eq,
}
use epigone.Prelude.Int.{ltb_ℤ, pos, negsuc}
use epigone.Decimal.{Decimal, Time}
use epigone.Policy.{RiskLimits}
use epigone.Knobs.{
  least_value, units, is_whole, parse_word, parse, knobs, knob, load, written, replaced, changed,
  set_entry, set_knob, column_value, value_of, Column, floor_day_notional_usd,
  floor_open_interest_usd, max_coin_stake_usd, max_sub_stake_usd, backstop_leverage, Knob,
  KnobError, unknown_knob, Word, finite, infinity, minus_infinity, nan, KnobValue, amount,
  boundless, KnobChange, KnobOutcome, knob_refused, knob_moved, knob_among,
}

abbrev pub integer_column : Column → Bool
integer_column backstop_leverage = true
integer_column _ = false

abbrev pub off_column : Column → Bool
off_column floor_day_notional_usd = true
off_column floor_open_interest_usd = true
off_column _ = false

abbrev pub IsRegistered : Knob → Type 0
IsRegistered k = (k.is_integer ≡ integer_column k.column) × (k.zero_means_off ≡ off_column k.column)

knob_among-IsRegistered :
    (name : String) (ks : List Knob) (entry : Knob)
    → All IsRegistered ks
    → knob_among name ks ≡ some entry
    → IsRegistered entry
unfolding knob_among
knob_among-IsRegistered name [] entry all h = ground arith
knob_among-IsRegistered name (k ∷ ks) entry all h = elim (Bool-cases (k.name is name)) [
  | inl here ↦ subst IsRegistered (the_one here) all.0
  | inr other ↦ knob_among-IsRegistered name ks entry all.1 (ground arith)
]
  where
    the_one : (k.name is name) ≡ true → k ≡ entry
    the_one here = ground arith

pub knob-IsRegistered : (name : String) (entry : Knob) → knob name ≡ some entry → IsRegistered entry
unfolding knob
knob-IsRegistered name entry h =
    knob_among-IsRegistered name knobs entry
      ((refl, refl), ((refl, refl), ((refl, refl), ((refl, refl), ((refl, refl), tt))))) h

abbrev pub least : Knob → Decimal
least k = if k.zero_means_off then pos 0 else least_value

pub parse_value :
    (k : Knob) (read : Option Word) (v : Decimal)
    → parse_word k read ≡ inr (amount v)
    → (read ≡ some (finite v))
      × (ltb_ℤ v (least k) ≡ false)
      × ((k.is_integer && not (is_whole v)) ≡ false)
unfolding parse_word
parse_value k none v h = ground (arith, h)
parse_value k (some nan) v h = ground (arith, h)
parse_value k (some minus_infinity) v h = ground (arith, h)
parse_value k (some infinity) v h = ground (arith, h)
parse_value k (some (finite x)) v h =
    (ap (λ y. some (finite y)) same, ground (arith, h), ground (arith, h))
  where
    same : x ≡ v
    same = ground (arith, h)

set_entry_result :
    (row : Option RiskLimits) (entry : Knob) (operator : ℕ) (now : Time)
    (parsed : KnobError ⊎ KnobValue) (c : KnobChange)
    → set_entry row entry operator now parsed ≡ knob_moved c
    → (v : Decimal) × (parsed ≡ inr (amount v)) × (changed row entry v operator now ≡ c)
unfolding set_entry
set_entry_result row entry operator now (inl refused) c h = cc
set_entry_result row entry operator now (inr (amount v)) c h = (v, refl, cc)
set_entry_result row entry operator now (inr boundless) c h = cc

set_knob-among :
    (decimal : String → Option Word) (row : Option RiskLimits) (name raw : String) (operator : ℕ)
    (now : Time) (found : Option Knob)
    → knob name ≡ found
    → set_knob decimal row name raw operator now ≡ (elim found [
      | none ↦ knob_refused unknown_knob
      | some entry ↦ set_entry row entry operator now (parse decimal entry raw)
    ])
unfolding set_knob
set_knob-among decimal row name raw operator now found known =
    ap
      (λ o. elim o as (λ _. KnobOutcome) [
        | none ↦ knob_refused unknown_knob
        | some entry ↦ set_entry row entry operator now (parse decimal entry raw)
      ])
      known

pub set_knob_result :
    (decimal : String → Option Word) (row : Option RiskLimits) (name raw : String) (operator : ℕ)
    (now : Time) (c : KnobChange)
    → set_knob decimal row name raw operator now ≡ knob_moved c
    → (entry : Knob) × (v : Decimal) × (knob name ≡ some entry)
      × (parse decimal entry raw ≡ inr (amount v))
      × (changed row entry v operator now ≡ c)
set_knob_result decimal row name raw operator now c h = from (knob name) refl
  where
    from :
        (k : Option Knob)
        → knob name ≡ k
        → (entry : Knob) × (v : Decimal) × (knob name ≡ some entry)
          × (parse decimal entry raw ≡ inr (amount v))
          × (changed row entry v operator now ≡ c)
    from none unknown =
        absurd (unlike (sym (set_knob-among decimal row name raw operator now none unknown) ∙ h))
      where
        unlike : knob_refused unknown_knob ≡ knob_moved c → ⊥
        unlike e = cc
    from (some entry) known =
        let (v, parsed, same) =
          set_entry_result row entry operator now (parse decimal entry raw) c
            (sym (set_knob-among decimal row name raw operator now (some entry) known) ∙ h) in
        (entry, v, known, parsed, same)

pub changed_row :
    (row : Option RiskLimits) (entry : Knob) (v : Decimal) (operator : ℕ) (now : Time)
    → ((changed row entry v operator now).before ≡ load row)
      × ((changed row entry v operator now).row ≡ some (changed row entry v operator now).after)
unfolding changed
changed_row none entry v operator now = (refl, refl)
changed_row (some there) entry v operator now = (refl, refl)

units_whole :
    (v : Decimal) → ltb_ℤ v least_value ≡ false → is_whole v ≡ true → pos (units v * 10 ^ 30) ≡ v
unfolding units
units_whole (pos n) floor whole_v = ap (λ m. pos m) (ground arith)
units_whole (negsuc n) floor whole_v = ground arith

written-own :
    (column : Column) (v : Decimal) (l : RiskLimits) (integer : Bool)
    → integer ≡ integer_column column
    → ltb_ℤ v (if off_column column then pos 0 else least_value) ≡ false
    → (integer && not (is_whole v)) ≡ false
    → column_value (written column v l) column ≡ v
written-own floor_day_notional_usd v l integer e floor whole_v = refl
written-own floor_open_interest_usd v l integer e floor whole_v = refl
written-own max_coin_stake_usd v l integer e floor whole_v = refl
written-own max_sub_stake_usd v l integer e floor whole_v = refl
written-own backstop_leverage v l integer e floor whole_v =
    units_whole v floor (ground (arith, e, whole_v))

written-other :
    (column other : Column) (v : Decimal) (l : RiskLimits)
    → (other ≢ column)
    → column_value (written column v l) other ≡ column_value l other
written-other floor_day_notional_usd other v l ne = ground arith
written-other floor_open_interest_usd other v l ne = ground arith
written-other max_coin_stake_usd other v l ne = ground arith
written-other max_sub_stake_usd other v l ne = ground arith
written-other backstop_leverage other v l ne = ground arith

column_value-stamped :
    (l : RiskLimits) (at : Option Time) (by : Option ℕ) (column : Column)
    → column_value (record l { updated_at = at; updated_by = by }) column ≡ column_value l column
column_value-stamped l at by floor_day_notional_usd = refl
column_value-stamped l at by floor_open_interest_usd = refl
column_value-stamped l at by max_coin_stake_usd = refl
column_value-stamped l at by max_sub_stake_usd = refl
column_value-stamped l at by backstop_leverage = refl

-- Exactly one knob moved, and the stamps.
abbrev pub Writes : Option RiskLimits → Knob → Decimal → ℕ → Time → KnobChange → Type 0
Writes row entry v operator now c =
    (c.before ≡ load row)
    × (c.row ≡ some c.after)
    × (value_of c.after entry ≡ v)
    × ((other : Knob)
        → (other.column ≢ entry.column)
        → value_of c.after other ≡ value_of c.before other)
    × (c.after.updated_by ≡ some operator)
    × (c.after.updated_at ≡ some now)

changed-Writes :
    (row : Option RiskLimits) (entry : Knob) (v : Decimal) (operator : ℕ) (now : Time)
    → entry.is_integer ≡ integer_column entry.column
    → ltb_ℤ v (if off_column entry.column then pos 0 else least_value) ≡ false
    → (entry.is_integer && not (is_whole v)) ≡ false
    → Writes row entry v operator now (changed row entry v operator now)
unfolding changed replaced
changed-Writes row entry v operator now integer floor whole_v =
    let (before, kept) = changed_row row entry v operator now in
    let stamped =
      column_value-stamped (written entry.column v (load row)) (some now) (some operator) in
    (
      before,
      kept,
      stamped entry.column
          ∙ written-own entry.column v (load row) entry.is_integer integer floor whole_v,
      (λ other ne. stamped other.column ∙ written-other entry.column other.column v (load row) ne),
      refl,
      refl,
    )

-- A limit that is set: the name is a registered knob and the word a finite number; the
-- row that stands afterwards is the limits returned as `after`, where that knob reads the number
-- of the word, every knob of another column reads what it read before, and the stamps name the
-- operator and the time.
pub set_knob-Writes :
    (decimal : String → Option Word) (row : Option RiskLimits) (name raw : String) (operator : ℕ)
    (now : Time) (c : KnobChange)
    → set_knob decimal row name raw operator now ≡ knob_moved c
    → (entry : Knob) × (v : Decimal) × (knob name ≡ some entry)
      × (decimal raw ≡ some (finite v))
      × Writes row entry v operator now c
set_knob-Writes decimal row name raw operator now c h =
    let (entry, v, known, parsed, same) = set_knob_result decimal row name raw operator now c h in
    let (word, floor, whole_v) = parse_value entry (decimal raw) v parsed in
    let (integer, off) = knob-IsRegistered name entry known in
    let accepted = ap (λ b. ltb_ℤ v (if b then pos 0 else least_value)) (sym off) ∙ floor in
    (
      entry,
      v,
      known,
      word,
      subst (Writes row entry v operator now) same
          (changed-Writes row entry v operator now integer accepted whole_v),
    )
