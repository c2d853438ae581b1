-- ===== src/Executor.antt =====
-- src/epigone/execute/executor.py: the copying of one of a leader's events into a sub-account,
-- over the policy, the pricing and the episodes. This file has the words of it: what an event and
-- a mapping carry, a step that may decline, and the acts of a handling in their order.
use epigone.Prelude.{
  ℕ, String, ◌≡◌, refl, ap, Bool, true, false, Option, none, some, List, arith, if◌then◌else◌,
  string_eq,
}
use epigone.Prelude.Int.{ℤ}
use epigone.Decimal.{Decimal, Time, seconds, whole}
use epigone.Policy.{LeverageMode}
use epigone.Episodes.{Tpsl, Store}
use epigone.Positions.{Position, PositionEvent}
use epigone.Dict.{Dict}
pub mod Plan
pub mod Steps
pub mod Fills
pub mod Run
pub mod Gates
pub mod Guarded
pub mod Claims
pub mod Admission
pub mod Caps
pub mod Reduce
pub mod Exits
pub mod Books
pub mod Reconcile
pub mod Legs
pub mod Divergence
mod Data
mod Tests

pub data Leg : Type 0 where
  opening scaling_in closing scaling_out flip_close flip_open : Leg

-- The coarse reason of a skip
pub data Category : Type 0 where
  stale_entry no_local_position coin_occupied unorderable not_mirrorable risk_declined : Category
  under_liquidity_floor under_liveness_floor below_minimum unreadable loss_budget_spent : Category

-- `_Skip`; the retry is the detail of that name.
pub record Skip : Type 0 where
  pub category : Category
  pub retry : Bool

abbrev pub because : Category → Skip
because c = record { category = c; retry = false }

abbrev pub next_cycle : Skip
next_cycle = record { category = unreadable; retry = true }

-- A step that goes on, declines the event, or raises what nothing here catches
pub data Step (A : Type 0) : Type 0 where
  goes : A → Step A
  declines : Skip → Step A
  raises : Step A

module _ {A B : Type 0} where
  infixl 5 ◌>>=◌ ◌>>◌
  abbrev pub ◌>>=◌ : Step A → (A → Step B) → Step B
  m >>= f = elim m [ goes a ↦ f a | declines s ↦ declines s | raises ↦ raises ]

  abbrev pub ◌>>◌ : Step A → Step B → Step B
  m >> k = elim m [ goes a ↦ k | declines s ↦ declines s | raises ↦ raises ]

abbrev pub skip_if : Bool → Skip → Step Unit
skip_if c s = if c then declines s else goes tt

abbrev pub or_skip : {A : Type 0} → Option A → Skip → Step A
or_skip o s = elim o [ none ↦ declines s | some a ↦ goes a ]

-- An `assert`, or a lookup that raises
abbrev pub expect : {A : Type 0} → Option A → Step A
expect o = elim o [ none ↦ raises | some a ↦ goes a ]

-- What a step that went on tells of its parts.
module _ {A B : Type 0} where
  pub bind-goes :
      (m : Step A) (f : A → Step B) (b : B)
      → (m >>= f) ≡ goes b
      → (a : A) × (m ≡ goes a) × (f a ≡ goes b)
  bind-goes (goes a) f b h = (a, refl, h)
  bind-goes (declines s) f b h = ground arith
  bind-goes raises f b h = ground arith

  pub then-goes :
      (m : Step A) (k : Step B) (b : B) → (m >> k) ≡ goes b → (a : A) × (m ≡ goes a) × (k ≡ goes b)
  then-goes (goes a) k b h = (a, refl, h)
  then-goes (declines s) k b h = ground arith
  then-goes raises k b h = ground arith

pub skip_if-goes :
    {B : Type 0} (c : Bool) (s : Skip) (k : Step B) (b : B)
    → (skip_if c s >> k) ≡ goes b
    → (c ≡ false) × (k ≡ goes b)
skip_if-goes true s k b h = ground arith
skip_if-goes false s k b h = (refl, h)

pub or_skip-goes :
    {A B : Type 0} (o : Option A) (s : Skip) (f : A → Step B) (b : B)
    → (or_skip o s >>= f) ≡ goes b
    → (a : A) × (o ≡ some a) × (f a ≡ goes b)
or_skip-goes none s f b h = ground arith
or_skip-goes (some a) s f b h = (a, refl, h)

pub expect-goes :
    {A B : Type 0} (o : Option A) (f : A → Step B) (b : B)
    → (expect o >>= f) ≡ goes b
    → (a : A) × (o ≡ some a) × (f a ≡ goes b)
expect-goes none f b h = ground arith
expect-goes (some a) f b h = (a, refl, h)

pub goes-injective : {A : Type 0} (a b : A) → goes a ≡ goes b → a ≡ b
goes-injective {A = A} a b h =
    ap (λ m. elim m as (λ (m : Step A). A) [ goes x ↦ x | declines _ ↦ a | raises ↦ a ]) h

pub declines-injective :
    {A : Type 0} (s t : Skip) → ◌≡◌ {A = Step A} (declines s) (declines t) → s ≡ t
declines-injective {A = A} s t h =
    ap (λ m. elim m as (λ (m : Step A). Skip) [ goes _ ↦ s | declines x ↦ x | raises ↦ s ]) h

-- What `/exchange` has to know of a coin
pub record AssetSpec : Type 0 where
  pub asset_id : ℕ
  pub sz_decimals : ℤ

pub data Tif : Type 0 where
  gtc ioc alo : Tif

pub record OrderSpec : Type 0 where
  pub asset : ℕ
  pub is_buy : Bool
  pub size : Decimal
  pub limit_price : Decimal
  pub tif : Tif
  pub reduce_only : Bool
  pub trigger : Option (Decimal × Tpsl)

pub data OrderResult : Type 0 where
  resting : ℕ → OrderResult
  filled : Decimal → Decimal → OrderResult
  order_rejected : OrderResult

-- The fields of `CopySub` that the copying of an event reads
pub record CopySub : Type 0 where
  pub id : ℕ
  pub base_stake_usd : Decimal
  pub leverage_mode : LeverageMode
  pub fixed_leverage : Option ℕ
  pub brackets : Bool
  pub take_profit_pct : Option Decimal
  pub stop_loss_pct : Option Decimal
  pub budget_breached_at : Option Time

-- `winding_down`
abbrev pub winding_down : CopySub → Bool
winding_down s = elim s.budget_breached_at [ none ↦ false | some _ ↦ true ]

pub record ClaimableEvent : Type 0 where
  pub id : ℕ
  pub observed_at : Time
  pub event : PositionEvent

-- What a handling changes beside the trail: the episodes, and this cycle's view of the positions
pub record Desk : Type 0 where
  pub store : Store
  pub positions : Dict String Position

pub data Finish : Type 0 where
  done_halted leverage_not_set done_rejected unexpected_resting done_filled close_unfilled : Finish

-- What a handling does, in order: the claim with its answer, the write-ahead attempt, a read of the
-- halt flag, the signatures, and the rows of the trail.
pub data Act : Type 0 where
  claims : Bool → Act
  attempts : Leg → Act
  reads_halt : Bool → Act
  sets_leverage : ℕ → Act
  places : List OrderSpec → Act
  skips : Category → Act
  defers : Act
  finishes : Finish → Act

-- How a part of a handling ends: whether the rest of it goes on
pub record Ran : Type 0 where
  pub goes_on : Bool
  pub acts : List Act
  pub desk : Desk

abbrev pub entry_staleness_guard : ℕ
entry_staleness_guard = seconds 300

abbrev pub leader_equity_floor : Decimal
leader_equity_floor = whole 100

abbrev pub exit_retry_attempts : ℕ
exit_retry_attempts = 3
