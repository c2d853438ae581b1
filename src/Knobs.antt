-- ===== src/Knobs.antt =====
-- The knobs of src/epigone/execute/limits.py: the registry, the operator's word, and the one row.
-- What `Decimal(raw)` reads is a parameter, none being InvalidOperation; NaN and the infinities are
-- words of their own. An integer value stands as the amount of that many units; that the
-- database refuses one beyond the range of INT is not modelled.
use epigone.Prelude.Int.{pos_part, neg_part, ltb_ℤ, pos}
use epigone.Decimal.{Decimal, Time}
use epigone.Prelude.{
  ℕ, ◌*◌, ◌/◌, ◌%◌, ◌^◌, String, ◌⊎◌, inl, inr, Bool, true, false, ◌&&◌, not, Option, none, some,
  List, [], ◌∷◌, ◌==◌, if◌then◌else◌, ◌is◌, string_eq,
}
use epigone.Policy.{default_limits, RiskLimits}
pub mod Write
pub mod Valid
mod Tests

-- The columns of `risk_limits` that a knob may name.
pub data Column : Type 0 where
  floor_day_notional_usd floor_open_interest_usd max_coin_stake_usd max_sub_stake_usd : Column
  backstop_leverage : Column

pub record Knob : Type 0 where
  pub name : String
  pub column : Column
  pub is_integer : Bool
  pub zero_means_off : Bool

-- `UnknownKnobError`, the three `ValueError`s of `Knob.parse`, and what it lets through: the
-- InvalidOperation of `value < floor` at a NaN, and the OverflowError of `int(value)` at Infinity
pub data KnobError : Type 0 where
  unknown_knob not_a_number too_low not_whole : KnobError
  nan_compared int_of_infinity : KnobError

-- A word that Decimal reads
pub data Word : Type 0 where
  finite : Decimal → Word
  infinity minus_infinity nan : Word

-- A value that a knob takes: an amount, or Infinity
pub data KnobValue : Type 0 where
  amount : Decimal → KnobValue
  boundless : KnobValue

-- 0.0000001
abbrev pub least_value : Decimal
least_value = pos (10 ^ 23)

-- The whole units of an amount
pub units : Decimal → ℕ
units v = pos_part v / 10 ^ 30

abbrev pub is_whole : Decimal → Bool
is_whole v = (pos_part v % 10 ^ 30 == 0) && (neg_part v % 10 ^ 30 == 0)

-- `Knob.parse`, from what Decimal reads
pub parse_word : Knob → Option Word → KnobError ⊎ KnobValue
parse_word k none = inl not_a_number
parse_word k (some nan) = inl nan_compared
parse_word k (some minus_infinity) = inl too_low
parse_word k (some infinity) = if k.is_integer then inl int_of_infinity else inr boundless
parse_word k (some (finite value)) =
    let floor : Decimal = if k.zero_means_off then pos 0 else least_value in
    if ltb_ℤ value floor
    then inl too_low
    else if k.is_integer && not (is_whole value)
    then inl not_whole
    else inr (amount value)

-- `Knob.parse`
abbrev pub parse : (String → Option Word) → Knob → String → KnobError ⊎ KnobValue
parse decimal k raw = parse_word k (decimal raw)

abbrev pub floor_volume : Knob
floor_volume = record {
  name = "floor_volume";
  column = floor_day_notional_usd;
  is_integer = false;
  zero_means_off = true;
}

abbrev pub floor_oi : Knob
floor_oi = record {
  name = "floor_oi";
  column = floor_open_interest_usd;
  is_integer = false;
  zero_means_off = true;
}

abbrev pub coin_stake : Knob
coin_stake = record {
  name = "coin_stake";
  column = max_coin_stake_usd;
  is_integer = false;
  zero_means_off = false;
}

abbrev pub sub_stake : Knob
sub_stake = record {
  name = "sub_stake";
  column = max_sub_stake_usd;
  is_integer = false;
  zero_means_off = false;
}

abbrev pub max_leverage : Knob
max_leverage = record {
  name = "max_leverage";
  column = backstop_leverage;
  is_integer = true;
  zero_means_off = false;
}

abbrev pub knobs : List Knob
knobs = floor_volume ∷ floor_oi ∷ coin_stake ∷ sub_stake ∷ max_leverage ∷ []

-- The read of `_BY_NAME`
knob_among : String → List Knob → Option Knob
knob_among name [] = none
knob_among name (k ∷ ks) = if k.name is name then some k else knob_among name ks

-- `knob`
pub knob : String → Option Knob
unfolding knob_among
knob name = knob_among name knobs

-- `load`
abbrev pub load : Option RiskLimits → RiskLimits
load none = default_limits
load (some row) = row

-- One column written, and the stamps
abbrev pub written : Column → Decimal → RiskLimits → RiskLimits
written floor_day_notional_usd v l = record l { floor_day_notional_usd = v }
written floor_open_interest_usd v l = record l { floor_open_interest_usd = v }
written max_coin_stake_usd v l = record l { max_coin_stake_usd = v }
written max_sub_stake_usd v l = record l { max_sub_stake_usd = v }
written backstop_leverage v l = record l { backstop_leverage = units v }

pub replaced : Column → Decimal → ℕ → Time → RiskLimits → RiskLimits
replaced column v operator now l = record (written column v l) {
  updated_at = some now;
  updated_by = some operator;
}

pub record KnobChange : Type 0 where
  pub before : RiskLimits
  pub after : RiskLimits
  pub row : Option RiskLimits

-- What `set_knob` returns for a value, and the row that it leaves.
pub changed : Option RiskLimits → Knob → Decimal → ℕ → Time → KnobChange
unfolding replaced
changed row entry value operator now =
    let before : RiskLimits = load row in
    let after : RiskLimits = replaced entry.column value operator now before in
    record {
      before = before;
      after = after;
      row = elim row [
        | some there ↦ some (replaced entry.column value operator now there)
        | none ↦ some after
      ];
    }

-- What `set_knob` comes to: an error, which leaves the row; a change; or the column set to
-- Infinity, which RiskLimits cannot hold.
pub data KnobOutcome : Type 0 where
  knob_refused : KnobError → KnobOutcome
  knob_moved : KnobChange → KnobOutcome
  knob_unbounded : Column → KnobOutcome

-- `set_knob` of an entry, from what its parse gives
pub set_entry : Option RiskLimits → Knob → ℕ → Time → KnobError ⊎ KnobValue → KnobOutcome
unfolding changed
set_entry row entry operator now (inl refused) = knob_refused refused
set_entry row entry operator now (inr (amount value)) =
    knob_moved (changed row entry value operator now)
set_entry row entry operator now (inr boundless) = knob_unbounded entry.column

-- `set_knob`
pub set_knob : (String → Option Word) → Option RiskLimits → String → String → ℕ → Time → KnobOutcome
unfolding knob parse_word set_entry
set_knob decimal row name raw operator now = elim (knob name) [
  | none ↦ knob_refused unknown_knob
  | some entry ↦ set_entry row entry operator now (parse decimal entry raw)
]

-- The field of a column's name; an integer as that many units
abbrev pub column_value : RiskLimits → Column → Decimal
column_value l floor_day_notional_usd = l.floor_day_notional_usd
column_value l floor_open_interest_usd = l.floor_open_interest_usd
column_value l max_coin_stake_usd = l.max_coin_stake_usd
column_value l max_sub_stake_usd = l.max_sub_stake_usd
column_value l backstop_leverage = pos (l.backstop_leverage * 10 ^ 30)

-- `value_of`
abbrev pub value_of : RiskLimits → Knob → Decimal
value_of l k = column_value l k.column
