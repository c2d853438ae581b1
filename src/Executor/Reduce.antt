-- ===== src/Executor/Reduce.antt =====
-- The bounded retry of execute/executor.py never sells more than it set out to.
use epigone.Prelude.{
  ℕ, zero, suc, ◌≤◌, ◌≡◌, refl, subst, inl, inr, Bool, true, false, not, Option, none, some, List,
  [], ◌∷◌, arith, Bool-cases, Option-cases, if-intro, length, All,
}
use epigone.Prelude.Int.{◌+ℤ◌, ◌-ℤ◌, ◌≤ℤ◌, pos, int_laws}
use epigone.Decimal.{Decimal, leb_ℤ, ◌<ℤ◌, Rounding}
use epigone.Executor.{
  exit_retry_attempts, AssetSpec, ioc, OrderSpec, OrderResult, resting, filled, order_rejected, Act,
  claims, attempts, reads_halt, sets_leverage, places, skips, defers, finishes,
}
use epigone.Executor.Plan.{is_long}
use epigone.Executor.Steps.{then_reduces, fill_of, reduce_order, Round, Reduction}
use epigone.Executor.Run.{
  bounded_rounds, order_of, exit_order, reduced, round_step, reduce_rounds, reduce,
}
use epigone.Positions.{Side}
use epigone.Pricing.{round_size, ioc_limit_price}
use epigone.Pricing.Size.{round_size-le}
use mathlib.Core.Option.{some-injective}

-- What the exchange is relied on for: an order is filled by at most its size.
abbrev pub FillsWithin : Round → Type 0
FillsWithin k =
    (o : OrderSpec) (size price : Decimal)
    → pos 0 <ℤ o.size
    → k.result o ≡ some (filled size price)
    → (pos 0 ≤ℤ size) × (size ≤ℤ o.size)

-- How many signatures of orders there are
abbrev pub placed : List Act → ℕ
placed [] = 0
placed (places _ ∷ xs) = suc (placed xs)
placed (claims _ ∷ xs) = placed xs
placed (attempts _ ∷ xs) = placed xs
placed (reads_halt _ ∷ xs) = placed xs
placed (sets_leverage _ ∷ xs) = placed xs
placed (skips _ ∷ xs) = placed xs
placed (defers ∷ xs) = placed xs
placed (finishes _ ∷ xs) = placed xs

-- A predicate of every order that is signed
abbrev pub AllPlaced : (OrderSpec → Type 0) → List Act → Type 0
AllPlaced P [] = Unit
AllPlaced P (places os ∷ xs) = All P os × AllPlaced P xs
AllPlaced P (claims _ ∷ xs) = AllPlaced P xs
AllPlaced P (attempts _ ∷ xs) = AllPlaced P xs
AllPlaced P (reads_halt _ ∷ xs) = AllPlaced P xs
AllPlaced P (sets_leverage _ ∷ xs) = AllPlaced P xs
AllPlaced P (skips _ ∷ xs) = AllPlaced P xs
AllPlaced P (defers ∷ xs) = AllPlaced P xs
AllPlaced P (finishes _ ∷ xs) = AllPlaced P xs

-- An immediate reduce-only order against the side that is held, for at most the target
pub record IsExitOrder (side : Side) (target : Decimal) (o : OrderSpec) : Type 0 where
  pub reduces : o.reduce_only ≡ true
  pub opposes : o.is_buy ≡ not (is_long side)
  pub immediate : o.tif ≡ ioc
  pub positive : pos 0 <ℤ o.size
  pub within_target : o.size ≤ℤ target

-- What so many rounds come to from what was sold before them
pub record IsBounded (side : Side) (target sold : Decimal) (n : ℕ) (d : Reduction) : Type 0 where
  pub sells : sold ≤ℤ d.filled_size
  pub within_target : d.filled_size ≤ℤ target
  pub few : placed d.acts ≤ n
  pub orders : AllPlaced (IsExitOrder side target) d.acts

module _ (r : Rounding) where
  order_of-IsExitOrder :
      (spec : AssetSpec) (side : Side) (remaining : Decimal) (size price : Option Decimal)
      (o : OrderSpec)
      → ((d : Decimal) → size ≡ some d → (pos 0 <ℤ d) × (d ≤ℤ remaining))
      → order_of r (reduce_order spec (not (is_long side))) size price ≡ some o
      → IsExitOrder side remaining o
  order_of-IsExitOrder spec side remaining none price o fits h = ground (arith, h)
  order_of-IsExitOrder spec side remaining (some d) none o fits h = ground (arith, h)
  order_of-IsExitOrder spec side remaining (some d) (some p) o fits h =
      let (positive, within_target) = fits d refl in
      subst (IsExitOrder side remaining)
        (some-injective (reduce_order spec (not (is_long side)) d p) o h)
        (record {
          reduces = refl;
          opposes = refl;
          immediate = refl;
          positive = positive;
          within_target = within_target;
        })

  exit_order-IsExitOrder :
      (mark : Option Decimal) (spec : AssetSpec) (side : Side) (remaining : Decimal) (o : OrderSpec)
      → exit_order r mark spec side remaining ≡ some o
      → IsExitOrder side remaining o
  unfolding exit_order
  exit_order-IsExitOrder none spec side remaining o h = ground (arith, h)
  exit_order-IsExitOrder (some mark) spec side remaining o h =
      order_of-IsExitOrder spec side remaining (round_size remaining spec.sz_decimals)
        (ioc_limit_price r mark (not (is_long side)) spec.sz_decimals) o
        (round_size-le remaining spec.sz_decimals) h

  fill_of-within :
      (k : Round) (o : OrderSpec) (answer : OrderResult)
      → FillsWithin k
      → pos 0 <ℤ o.size
      → k.result o ≡ some answer
      → (pos 0 ≤ℤ fill_of answer) × (fill_of answer ≤ℤ o.size)
  fill_of-within k o (resting _) honest h came = (omega arith, omega (arith, h))
  fill_of-within k o (filled size price) honest h came = honest o size price h came
  fill_of-within k o order_rejected honest h came = (omega arith, omega (arith, h))

  -- What is sold after an order that was at most what remained
  sold_after :
      (target sold fill size : Decimal)
      → pos 0 ≤ℤ fill
      → fill ≤ℤ size
      → size ≤ℤ target -ℤ sold
      → (sold ≤ℤ sold +ℤ fill) × (sold +ℤ fill ≤ℤ target)
  sold_after target sold fill size h k m = (omega (int_laws, h), omega (int_laws, h, k, m))

  within_all :
      (side : Side) (target sold : Decimal) (o : OrderSpec)
      → pos 0 ≤ℤ sold
      → IsExitOrder side (target -ℤ sold) o
      → IsExitOrder side target o
  within_all side target sold o h x = record {
    reduces = x.reduces;
    opposes = x.opposes;
    immediate = x.immediate;
    positive = x.positive;
    within_target = omega (int_laws, h, x.within_target);
  }

  placed_first :
      (side : Side) (target sold total : Decimal) (n : ℕ) (o : OrderSpec) (rest : Reduction)
      → sold ≤ℤ total
      → IsExitOrder side target o
      → IsBounded side target total n rest
      → IsBounded side target sold (suc n) (then_reduces (places (o ∷ []) ∷ []) rest)
  placed_first side target sold total n o rest h x b = record {
    sells = omega (arith, h, b.sells);
    within_target = b.within_target;
    few = omega (arith, b.few);
    orders = ((x, tt), b.orders);
  }

  stopped :
      (side : Side) (target total : Decimal) (n : ℕ) (raised : Bool)
      → total ≤ℤ target
      → IsBounded side target total n (reduced r [] total raised)
  stopped side target total n raised h = record {
    sells = omega arith;
    within_target = h;
    few = omega arith;
    orders = tt;
  }

  round_step-IsBounded :
      (order : Option OrderSpec) (k : Round) (side : Side) (target sold : Decimal) (n : ℕ)
      (rest : Decimal → Reduction)
      → ((o : OrderSpec) → order ≡ some o → IsExitOrder side (target -ℤ sold) o)
      → FillsWithin k
      → pos 0 ≤ℤ sold
      → sold ≤ℤ target
      → ((total : Decimal)
          → pos 0 ≤ℤ total
          → total ≤ℤ target
          → IsBounded side target total n (rest total))
      → IsBounded side target sold (suc n) (round_step r order k.result target sold rest)
  unfolding round_step
  round_step-IsBounded none k side target sold n rest is_exit honest h m later =
      stopped side target sold (suc n) false m
  round_step-IsBounded (some o) k side target sold n rest is_exit honest h m later =
      let x = is_exit o refl in
      let fits = within_all side target sold o h x in
      elim (Option-cases (k.result o)) [
        | inl failed ↦ rw failed (
            placed_first side target sold sold n o (reduced r [] sold true) (omega arith) fits
              (stopped side target sold n true m))
        | inr (answer, came) ↦
            let total = sold +ℤ fill_of answer in
            let (some_sold, no_more) = fill_of-within k o answer honest x.positive came in
            let (grows, within_target) =
              sold_after target sold (fill_of answer) o.size some_sold no_more x.within_target in
            rw came (
              placed_first side target sold total n o _ grows fits (
                if-intro (IsBounded side target total n) (leb_ℤ (target -ℤ total) (pos 0))
                  (λ _. stopped side target total n false within_target)
                  (λ _. later total (omega (arith, h, grows)) within_target)))
      ]

  reduce_rounds-IsBounded :
      (first : Bool) (ks : List Round) (spec : AssetSpec) (side : Side) (target sold : Decimal)
      → All FillsWithin ks
      → pos 0 ≤ℤ sold
      → sold ≤ℤ target
      → IsBounded side target sold (length ks) (reduce_rounds r first ks spec side target sold)
  unfolding reduce_rounds
  reduce_rounds-IsBounded first [] spec side target sold honest h m =
      stopped side target sold 0 false m
  reduce_rounds-IsBounded true (k ∷ ks) spec side target sold (honest, others) h m =
      round_step-IsBounded (exit_order r k.mark spec side (target -ℤ sold)) k side target sold
        (length ks) (λ total. reduce_rounds r false ks spec side target total)
        (exit_order-IsExitOrder k.mark spec side (target -ℤ sold)) honest h m
        λ total. reduce_rounds-IsBounded false ks spec side target total others
  reduce_rounds-IsBounded false (k ∷ ks) spec side target sold (honest, others) h m =
      let step =
        round_step-IsBounded (exit_order r k.mark spec side (target -ℤ sold)) k side target sold
          (length ks) (λ total. reduce_rounds r false ks spec side target total)
          (exit_order-IsExitOrder k.mark spec side (target -ℤ sold)) honest h m
          (λ total. reduce_rounds-IsBounded false ks spec side target total others) in
      elim (Bool-cases k.halted) [
        | inl halted ↦
            rw halted
              (record { sells = omega arith; within_target = m; few = omega arith; orders = tt })
        | inr running ↦ rw running (record {
          sells = step.sells;
          within_target = step.within_target;
          few = step.few;
          orders = step.orders;
        })
      ]

  bounded_rounds-All :
      (n : ℕ) (ks : List Round) → All FillsWithin ks → All FillsWithin (bounded_rounds n ks)
  bounded_rounds-All zero ks h = tt
  bounded_rounds-All (suc n) [] h = tt
  bounded_rounds-All (suc n) (k ∷ ks) (h, hs) = (h, bounded_rounds-All n ks hs)

  bounded_rounds-length : (n : ℕ) (ks : List Round) → length (bounded_rounds n ks) ≤ n
  bounded_rounds-length zero ks = omega arith
  bounded_rounds-length (suc n) [] = omega arith
  bounded_rounds-length (suc n) (k ∷ ks) = omega (arith, bounded_rounds-length n ks)

  -- A reduction asks for at most three immediate reduce-only orders against the side that is held,
  -- each for at most the target, and where no order is filled by more than its size it sells at
  -- most the target in all.
  pub reduce-IsBounded :
      (ks : List Round) (spec : AssetSpec) (side : Side) (target : Decimal)
      → All FillsWithin ks
      → pos 0 ≤ℤ target
      → IsBounded side target (pos 0) exit_retry_attempts (reduce r ks spec side target)
  unfolding reduce
  reduce-IsBounded ks spec side target honest h =
      let rounds = bounded_rounds exit_retry_attempts ks in
      let b =
        reduce_rounds-IsBounded true rounds spec side target (pos 0)
          (bounded_rounds-All exit_retry_attempts ks honest) (omega arith) h in
      record {
        sells = b.sells;
        within_target = b.within_target;
        few = omega (arith, b.few, bounded_rounds-length exit_retry_attempts ks);
        orders = b.orders;
      }
