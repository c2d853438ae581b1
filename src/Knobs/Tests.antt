-- ===== src/Knobs/Tests.antt =====
-- A limit that the operator moves.
use epigone.Prelude.{String, ◌≡◌, refl, Option, none, some, arith, if◌then◌else◌, ◌is◌, string_eq}
use epigone.Decimal.{Decimal, whole}
use epigone.Knobs.{
  units, parse_word, knob, replaced, changed, set_entry, set_knob, max_coin_stake_usd, Knob,
  nan_compared, int_of_infinity, Word, finite, infinity, nan, KnobChange, knob_refused,
  knob_unbounded, knob_among,
}
use epigone.Policy.{default_limits}
use epigone.Knobs.Write.{Writes}
use epigone.Knobs.Valid.{IsValid, set_knob-IsValid}

abbrev decimal : String → Option Word
decimal raw =
    if raw is "12"
    then some (finite (whole 12))
    else if raw is "NaN"
    then some nan
    else if raw is "Infinity"
    then some infinity
    else none

test_words :
    (set_knob decimal none "coin_stake" "NaN" 7 50 ≡ knob_refused nan_compared)
    × (set_knob decimal none "coin_stake" "Infinity" 7 50 ≡ knob_unbounded max_coin_stake_usd)
    × (set_knob decimal none "max_leverage" "Infinity" 7 50 ≡ knob_refused int_of_infinity)
unfolding set_knob knob knob_among parse_word set_entry
test_words = (refl, refl, refl)

abbrev moved : KnobChange
moved = record {
  before = default_limits;
  after = record default_limits {
    backstop_leverage = 12;
    updated_at = some 50;
    updated_by = some 7;
  };
  row =
      some (record default_limits {
        backstop_leverage = 12;
        updated_at = some 50;
        updated_by = some 7;
      });
}

set_knob-IsValid_example :
    (entry : Knob) × (v : Decimal) × (knob "max_leverage" ≡ some entry)
    × (decimal "12" ≡ some (finite v))
    × Writes none entry v 7 50 moved
    × IsValid moved.after
unfolding set_knob knob parse_word set_entry changed replaced units knob_among
set_knob-IsValid_example =
    set_knob-IsValid decimal none "max_leverage" "12" 7 50 moved
      (omega arith, omega arith, omega arith, omega arith, omega arith) refl
