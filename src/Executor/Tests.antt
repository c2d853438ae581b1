-- ===== src/Executor/Tests.antt =====
-- Runs of the copy of an event on concrete inputs.
use epigone.Executor.Fills.{fill_desk, fill_brackets, settle_entry}
use epigone.Executor.Gates.{IsGuarded}
use epigone.Executor.Admission.{IsAdmitted}
use epigone.Executor.Data.{
  sub_1, an_event, eth_spec, eth_reads, eth_wire, halved, a_round, eth_exit, no_desk, eth_episode,
  eth_desk, acts_of, eth_plan, eth_exit_plan,
}
use epigone.Executor.Reconcile.{
  was_liquidated, has_legs, reconcile_episode, VanishedReads, episode_over,
}
use epigone.Executor.Divergence.{Concludes, reconcile_episode-Concludes}
use epigone.Executor.Guarded.{handle-IsGuarded}
use epigone.Executor.Claims.{IsTaken, handle-IsTaken}
use epigone.Executor.Caps.{entry_plan-IsCapped, IsCapped}
use epigone.Executor.Reduce.{FillsWithin, reduce-IsBounded, IsBounded}
use epigone.Executor.Exits.{Settles, Declined, exit_plan-Settles, IsExitPlan}
use epigone.Prelude.{
  ◌≡◌, refl, ap, subst, true, false, Option, none, some, [], ◌∷◌, arith, string_eq,
}
use epigone.Prelude.Int.{◌+ℤ◌, ◌-ℤ◌, ◌≤ℤ◌, pos, negsuc}
use epigone.Dict.{lookup, insert, erase}
use epigone.Executor.{
  exit_retry_attempts, opening, flip_close, flip_open, coin_occupied, goes, OrderResult,
  done_filled, claims, attempts, reads_halt, sets_leverage, places, skips, finishes,
}
use epigone.Executor.Plan.{entry_plan, exit_plan}
use epigone.Executor.Steps.{claim_and_skip, apply_fill, fill_of, settle_exit, booked, reduce_order}
use epigone.Executor.Run.{run_entry, reduce, exited, run_exit, handle}
use epigone.Pricing.{
  quantize, round_size, digits, integer_digits, allowed_places, price_places, round_price,
  clamped_size, open_size, slippage_bound, ioc_limit_price,
}
use epigone.Decimal.Truncating.{mag, cut, truncating}
use epigone.Policy.{
  default_limits, floor_disabled, resolve_leverage, stake_headroom, open_position_notional,
  open_interest_usd, clears_liquidity_floor, judge_coin, committed_stake, judge_granted,
  judge_entry,
}
use epigone.Positions.{margin, long, opened, flip}
use epigone.Episodes.{live_episode, open_episode, end_episode, liquidated}
use epigone.Decimal.{Decimal, whole, hundredths, ◌<ℤ◌}
use epigone.Episodes.Live.{live_count}
use native.Mathlib.Nat.{div-le_self}

test_plan :
    entry_plan truncating opening (an_event opened) sub_1 default_limits eth_reads no_desk
    ≡ goes eth_plan
unfolding entry_plan live_episode lookup judge_coin floor_disabled clears_liquidity_floor
    open_interest_usd resolve_leverage open_position_notional open_size round_size ioc_limit_price
    round_price price_places allowed_places integer_digits digits quantize slippage_bound
    judge_entry judge_granted stake_headroom committed_stake margin clamped_size truncating cut mag
    ◌-ℤ◌ ◌+ℤ◌
test_plan = refl

test_exit_plan :
    exit_plan truncating flip_close (an_event flip) sub_1 (some eth_spec) eth_desk
    ≡ goes eth_exit_plan
unfolding exit_plan live_episode lookup round_size truncating cut mag
test_exit_plan = refl

test_occupied : acts_of opened eth_desk ≡ claims true ∷ skips coin_occupied ∷ []
unfolding handle entry_plan live_episode lookup claim_and_skip
test_occupied = refl

test_flip :
    acts_of flip eth_desk
    ≡ claims true
      ∷ attempts flip_close
      ∷ reads_halt false
      ∷ places (reduce_order eth_spec false (hundredths 25) (whole 1980) ∷ [])
      ∷ finishes done_filled
      ∷ attempts flip_open
      ∷ reads_halt false
      ∷ sets_leverage 5
      ∷ reads_halt false
      ∷ places (eth_plan.order ∷ [])
      ∷ finishes done_filled
      ∷ []
unfolding handle run_entry run_exit entry_plan live_episode lookup judge_coin floor_disabled
    clears_liquidity_floor open_interest_usd resolve_leverage open_position_notional open_size
    round_size ioc_limit_price round_price price_places allowed_places integer_digits digits
    quantize slippage_bound judge_entry judge_granted stake_headroom committed_stake margin
    clamped_size truncating cut mag ◌-ℤ◌ ◌+ℤ◌ exit_plan reduce exited settle_exit apply_fill
    end_episode erase settle_entry fill_desk booked open_episode insert fill_brackets
test_flip = refl

handle-IsGuarded_example : IsGuarded false false (acts_of flip eth_desk)
handle-IsGuarded_example =
    handle-IsGuarded truncating (an_event flip) sub_1 default_limits eth_reads eth_wire eth_exit
      eth_desk

handle-IsTaken_example :
    IsTaken true eth_desk
      (handle truncating (an_event flip) sub_1 default_limits eth_reads eth_wire eth_exit eth_desk)
handle-IsTaken_example =
    handle-IsTaken truncating (an_event flip) sub_1 default_limits eth_reads eth_wire eth_exit
      eth_desk

entry_plan-IsCapped_example :
    IsAdmitted truncating opening (an_event opened) sub_1 default_limits eth_reads no_desk
    × (some long ≡ some long)
    × (some (whole 2000) ≡ some (whole 2000))
    × IsCapped truncating default_limits no_desk "ETH" eth_plan
entry_plan-IsCapped_example =
    entry_plan-IsCapped truncating opening (an_event opened) sub_1 default_limits eth_reads no_desk
      eth_plan test_plan

halved-within : (d : Decimal) → pos 0 <ℤ d → (pos 0 ≤ℤ halved d) × (halved d ≤ℤ d)
halved-within (pos n) h = (omega arith, omega (arith, div-le_self n 2))
halved-within (negsuc n) h = ground (arith, h)

half_filled-FillsWithin : FillsWithin a_round
half_filled-FillsWithin o size price h came =
    subst (λ (d : Decimal). (pos 0 ≤ℤ d) × (d ≤ℤ o.size))
      (ap
        (λ (x : Option OrderResult). elim x as (λ _. Decimal) [ none ↦ pos 0 | some a ↦ fill_of a ])
        came)
      (halved-within o.size h)

reduce-IsBounded_example :
    IsBounded long
      (hundredths 25)
      (pos 0)
      exit_retry_attempts
      (reduce truncating (a_round ∷ a_round ∷ a_round ∷ a_round ∷ []) eth_spec long (hundredths 25))
reduce-IsBounded_example =
    reduce-IsBounded truncating (a_round ∷ a_round ∷ a_round ∷ a_round ∷ []) eth_spec long
      (hundredths 25)
      (
        half_filled-FillsWithin,
        (half_filled-FillsWithin, (half_filled-FillsWithin, (half_filled-FillsWithin, tt))),
      )
      (omega arith)

exit_plan-Settles_example :
    Settles
      (IsExitPlan truncating flip_close (an_event flip) sub_1 (some eth_spec) eth_desk)
      (Declined truncating flip_close (an_event flip) sub_1 (some eth_spec) eth_desk)
      (exit_plan truncating flip_close (an_event flip) sub_1 (some eth_spec) eth_desk)
exit_plan-Settles_example =
    exit_plan-Settles truncating flip_close (an_event flip) sub_1 (some eth_spec) eth_desk

abbrev vanished : VanishedReads
vanished = record { book = []; fills = some (record { coin = "ETH"; liquidates = true } ∷ []) }

test_vanished :
    (reconcile_episode eth_episode vanished [] 4000 [] eth_desk.store).found
    ≡ episode_over liquidated
unfolding reconcile_episode lookup has_legs was_liquidated
test_vanished = refl

reconcile_episode-Concludes_example :
    Concludes (episode_over liquidated) eth_episode vanished none eth_desk.store (
      live_episode 1 "ETH"
        (reconcile_episode eth_episode vanished [] 4000 [] eth_desk.store).store.episodes)
unfolding live_episode live_count reconcile_episode lookup has_legs was_liquidated
reconcile_episode-Concludes_example =
    reconcile_episode-Concludes eth_episode vanished [] 4000 [] eth_desk.store 1 (omega arith) refl
