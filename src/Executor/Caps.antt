-- ===== src/Executor/Caps.antt =====
-- The orders that execute/executor.py enters with are within the operator's caps.
use epigone.Executor.Admission.{entry_skip-IsAdmitted, IsAdmitted}
use epigone.Prelude.{
  String, ◌≡◌, refl, sym, ap, ◌∙◌, subst, Bool, true, false, not, Option, none, some, arith,
  if◌then◌else◌,
}
use epigone.Prelude.Int.{◌≤ℤ◌, ltb_ℤ, pos}
use epigone.Decimal.{Decimal, ◌<ℤ◌, Rounding}
use epigone.Executor.{
  because, bind-goes, then-goes, skip_if-goes, or_skip-goes, expect-goes, goes-injective, Leg,
  not_mirrorable, risk_declined, below_minimum, goes, AssetSpec, ioc, CopySub, ClaimableEvent, Desk,
}
use epigone.Executor.Plan.{
  is_scaling_in, is_long, values, entry_skip, scale_ask, open_ask, stake_in_coin, judged_plan,
  entry_plan, EntryReads, Ask, EntryPlan,
}
use epigone.Positions.{same_side, Side}
use epigone.Policy.{min_order_notional, committed_stake, judge_entry, RiskLimits, RiskVerdict}
use epigone.Pricing.{clamped_size, ioc_limit_price}
use epigone.Policy.Entry.{granted_by, judge_entry_grants, Fits}
use epigone.Pricing.Price.{cap_price, IsLegal, IsWithin, ioc_limit_price_lem}

-- What every planned entry meets: the stake that was granted is positive and, beside what is
-- already committed, within both caps and within the ask; the order buys for a long and sells for
-- a short, at a legal price that the slippage cap bounds, is never resting and never reduce-only,
-- and is worth at least the exchange's minimum as it will be signed.
pub record IsCapped (r : Rounding) (l : RiskLimits) (desk : Desk) (coin : String) (p : EntryPlan)
    : Type 0 where
  pub positive : pos 0 <ℤ p.granted
  pub fits :
      Fits p.granted p.ask.stake_usd
        (stake_in_coin r coin desk)
        (committed_stake r (values desk.positions))
        l
  pub directed : p.order.is_buy ≡ is_long p.side
  pub immediate : (p.order.tif ≡ ioc) × (p.order.reduce_only ≡ false) × (p.order.trigger ≡ none)
  pub legal : IsLegal p.spec.sz_decimals p.order.limit_price
  pub bounded : IsWithin (is_long p.side) (cap_price r p.mark (is_long p.side)) p.order.limit_price
  pub sized :
      clamped_size r p.ask.size_coin p.ask.stake_usd p.granted p.spec.sz_decimals
      ≡ some p.order.size
  pub worthwhile : min_order_notional ≤ℤ r.mul p.order.size p.mark

allowed_stake :
    (allowed : Bool) (stake : Option Decimal) (g : Decimal)
    → not allowed ≡ false
    → stake ≡ some g
    → (if allowed then stake else none) ≡ some g
allowed_stake true stake g a h = h
allowed_stake false stake g a h = ground (arith, a)

granted_by-allowed :
    (o : Option RiskVerdict) (v : RiskVerdict) (g : Decimal)
    → o ≡ some v
    → not v.allowed ≡ false
    → v.stake_usd ≡ some g
    → granted_by o ≡ some g
granted_by-allowed o v g h a s = ap granted_by h ∙ allowed_stake v.allowed v.stake_usd g a s

module _ (r : Rounding) where
  judged_plan-IsCapped :
      (l : RiskLimits) (desk : Desk) (coin : String) (spec : AssetSpec) (side : Side)
      (mark : Decimal) (ask : Ask) (price : Decimal) (p : EntryPlan)
      → ioc_limit_price r mark (is_long side) spec.sz_decimals ≡ some price
      → judged_plan r l desk coin spec side mark ask price ≡ goes p
      → (p.side ≡ side) × (p.mark ≡ mark) × IsCapped r l desk coin p
  unfolding judged_plan
  judged_plan-IsCapped l desk coin spec side mark ask price p priced h =
      let used = stake_in_coin r coin desk in
      let total = committed_stake r (values desk.positions) in
      let (v, judged, h1) =
        expect-goes (judge_entry r ask.stake_usd ask.leverage used total l) _ p h in
      let (allowed, h2) = skip_if-goes (not v.allowed) (because risk_declined) _ p h1 in
      let (granted, stake, h3) = expect-goes v.stake_usd _ p h2 in
      let (size, sized, h4) =
        or_skip-goes (clamped_size r ask.size_coin ask.stake_usd granted spec.sz_decimals)
          (because below_minimum) _ p h3 in
      let (large, h5) =
        skip_if-goes (ltb_ℤ (r.mul size mark) min_order_notional) (because below_minimum) _ p h4 in
      let (positive, fits, _, _) =
        judge_entry_grants r ask.stake_usd used total ask.leverage l granted (
          granted_by-allowed (judge_entry r ask.stake_usd ask.leverage used total l) v granted
            judged allowed stake) in
      let (_, legal, bounded) =
        ioc_limit_price_lem r mark (is_long side) spec.sz_decimals price priced in
      subst (λ (x : EntryPlan). (x.side ≡ side) × (x.mark ≡ mark) × IsCapped r l desk coin x)
        (goes-injective _ p h5)
        (
          refl,
          refl,
          record {
            positive = positive;
            fits = fits;
            directed = refl;
            immediate = (refl, refl, refl);
            legal = legal;
            bounded = bounded;
            sized = sized;
            worthwhile = ground (arith, large);
          },
        )

  -- Every order that an entry goes on to sign, whatever its leg, was admitted and is capped: the
  -- stake granted is positive and, with what is committed already, within both caps; the order is
  -- an immediate one in the direction of the event, at a legal price within the slippage cap, and
  -- worth at least the exchange's minimum order.
  pub entry_plan-IsCapped :
      (leg : Leg) (e : ClaimableEvent) (sub : CopySub) (l : RiskLimits) (reads : EntryReads)
      (desk : Desk) (p : EntryPlan)
      → entry_plan r leg e sub l reads desk ≡ goes p
      → IsAdmitted r leg e sub l reads desk
        × (e.event.side ≡ some p.side)
        × (reads.mark ≡ some p.mark)
        × IsCapped r l desk e.event.coin p
  unfolding entry_plan
  entry_plan-IsCapped leg e sub l reads desk p h =
      let (_, admitted, h1) = then-goes (entry_skip r leg e sub l reads desk) _ p h in
      let (spec, _, h2) = expect-goes reads.spec _ p h1 in
      let (side, sided, h3) = expect-goes e.event.side _ p h2 in
      let (mark, marked, h4) = or_skip-goes reads.mark (because not_mirrorable) _ p h3 in
      let (ask, _, h5) =
        bind-goes
          (if is_scaling_in leg
            then scale_ask r e desk mark spec
            else open_ask r e sub l reads mark spec)
          _ p h4 in
      let (price, priced, h6) =
        or_skip-goes (ioc_limit_price r mark (is_long side) spec.sz_decimals)
          (because not_mirrorable) _ p h5 in
      let (same_side, same_mark, capped) =
        judged_plan-IsCapped l desk e.event.coin spec side mark ask price p priced h6 in
      (
        entry_skip-IsAdmitted r leg e sub l reads desk admitted,
        sided ∙ ap some (sym same_side),
        marked ∙ ap some (sym same_mark),
        capped,
      )
