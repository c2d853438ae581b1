-- ===== src/Executor/Steps.antt =====
-- What execute/executor.py does once it has decided: `_claim_and_skip`, `_claim_and_attempt`,
-- the halt gate, and what settles an exit. Every answer from
-- outside, of the exchange, of the halt flag or of the claim, is an argument; none for an answer
-- of the exchange is an ExecutionError.
use epigone.Prelude.Int.{◌+ℤ◌, ◌-ℤ◌, ltb_ℤ, pos}
use epigone.Episodes.{
  live_episode, open_episode, adopt_size, end_episode, Ending, leader_close, leader_flip,
  CopyEpisode, Store, Opening,
}
use epigone.Positions.{Side}
use epigone.Executor.{
  Leg, closing, flip_close, flip_open, Skip, AssetSpec, ioc, OrderSpec, OrderResult, resting,
  filled, order_rejected, Desk, Finish, done_halted, done_filled, close_unfilled, Act, claims,
  attempts, reads_halt, skips, defers, finishes, Ran,
}
use epigone.Decimal.{Decimal, Time, leb_ℤ, max_ℤ}
use epigone.Dict.{insert, erase}
use epigone.Prelude.{
  String, Bool, true, false, ◌&&◌, not, Option, none, some, List, [], ◌∷◌, ◌++◌, if◌then◌else◌,
  string_eq,
}

-- The mode in which an entry or an exit claims: a flip's open leg does not.
abbrev pub claims_itself : Leg → Bool
claims_itself flip_open = false
claims_itself _ = true

abbrev pub claim_acts : Leg → Bool → List Act
claim_acts leg won = if claims_itself leg then claims won ∷ [] else []

-- Whether another instance has the event
abbrev pub is_lost : Leg → Bool → Bool
is_lost leg won = claims_itself leg && not won

-- `_claim_and_skip`
unfoldable pub claim_and_skip : Leg → Bool → Skip → Desk → Ran
claim_and_skip leg won s desk =
    if s.retry && claims_itself leg
    then record { goes_on = false; acts = defers ∷ []; desk = desk }
    else if is_lost leg won
    then record { goes_on = false; acts = claims false ∷ []; desk = desk }
    else record { goes_on = true; acts = claim_acts leg won ++ skips s.category ∷ []; desk = desk }

-- `_apply_fill`
unfoldable pub apply_fill :
    (Decimal → Decimal → Decimal) → String → Side → Decimal → Decimal → Decimal → Desk → Desk
apply_fill mul coin side size price leverage desk =
    if leb_ℤ size (pos 0)
    then record desk { positions = erase coin desk.positions }
    else record desk {
      positions =
          insert coin
            (record {
              coin = coin;
              side = side;
              size_usd = mul size price;
              leverage = leverage;
              entry_price = price;
              unrealized_pnl = pos 0;
              size_coin = some size;
              margin_used = none;
              return_on_equity = none;
            })
            desk.positions;
    }

-- What an entry meets from its claim on
pub record EntryWire : Type 0 where
  pub won : Bool
  pub halted_first : Bool
  pub leverage_accepted : Bool
  pub halted_second : Bool
  pub result : Option OrderResult
  pub settled_at : Time
  pub halted_brackets : Bool
  pub bracket_results : Option (List OrderResult)

-- What an exit meets from its claim on, with the rounds of `_reduce`: the flag as it stands before
-- a retry, the coin's mid price and the exchange's answer to an order
pub record Round : Type 0 where
  pub halted : Bool
  pub mark : Option Decimal
  pub result : OrderSpec → Option OrderResult

pub record ExitWire : Type 0 where
  pub won : Bool
  pub halted : Bool
  pub rounds : List Round
  pub settled_at : Time

-- `_reduce`'s answer; raised is an ExecutionError.
pub record Reduction : Type 0 where
  pub acts : List Act
  pub filled_size : Decimal
  pub raised : Bool

abbrev pub after : List Act → Ran → Ran
after acts k = record { goes_on = k.goes_on; acts = acts ++ k.acts; desk = k.desk }

abbrev pub stops : List Act → Desk → Ran
stops acts desk = record { goes_on = false; acts = acts; desk = desk }

-- `_claim_and_attempt` and `_halted_before_signing`, and what they let through
unfoldable pub gated : Leg → Bool → Bool → Desk → Ran → Ran
gated leg won halted desk rest =
    if is_lost leg won
    then stops (claims false ∷ []) desk
    else after (claim_acts leg won) (
        if halted
        then stops (attempts leg ∷ reads_halt true ∷ finishes done_halted ∷ []) desk
        else after (attempts leg ∷ reads_halt false ∷ []) rest)

abbrev pub then_reduces : List Act → Reduction → Reduction
then_reduces acts k = record k { acts = acts ++ k.acts }

abbrev pub size_or_zero : Option Decimal → Decimal
size_or_zero none = pos 0
size_or_zero (some d) = d

-- What an answer filled
abbrev pub fill_of : OrderResult → Decimal
fill_of (resting _) = pos 0
fill_of (filled size _) = size
fill_of order_rejected = pos 0

abbrev pub is_full_exit : Leg → Bool
is_full_exit closing = true
is_full_exit flip_close = true
is_full_exit _ = false

abbrev pub ending_of : Leg → Ending
ending_of flip_close = leader_flip
ending_of _ = leader_close

-- `_settle_exit`
unfoldable pub settle_exit : Leg → CopyEpisode → Decimal → Decimal → Time → Store → Finish × Store
settle_exit leg e target sold now s =
    let remaining = max_ℤ (target -ℤ sold) (pos 0) in
    if is_full_exit leg
    then if ltb_ℤ (pos 0) remaining
      then (close_unfilled, adopt_size e.id remaining s)
      else (done_filled, end_episode e.id (ending_of leg) now s)
    else (done_filled, adopt_size e.id (max_ℤ (e.size_coin -ℤ sold) (pos 0)) s)

-- The episode that an entry's fill opens, or grows. An index that refuses raises: no episode is
-- live here, so it does not.
unfoldable pub booked : Opening → Store → Store
booked o s = elim (live_episode o.sub_id o.coin s.episodes) [
  | none ↦ elim (open_episode o s) [ none ↦ s | some t ↦ t ]
  | some e ↦ adopt_size e.id (e.size_coin +ℤ o.size_coin) s
]

abbrev pub reduce_order : AssetSpec → Bool → Decimal → Decimal → OrderSpec
reduce_order spec is_buy size price = record {
  asset = spec.asset_id;
  is_buy = is_buy;
  size = size;
  limit_price = price;
  tif = ioc;
  reduce_only = true;
  trigger = none;
}
