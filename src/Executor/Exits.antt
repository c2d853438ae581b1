-- ===== src/Executor/Exits.antt =====
-- Why exits of execute/executor.py are declined, and what a planned one is.
use epigone.Positions.{Position}
use epigone.Policy.{min_order_notional}
use epigone.Pricing.{round_size, scale_fraction, relative_size}
use epigone.Prelude.{
  ◌≡◌, refl, sym, subst, ◌⊎◌, inl, inr, Bool, true, false, ◌&&◌, Option, none, some, arith,
  string_eq,
}
use epigone.Prelude.Int.{◌≤ℤ◌, ltb_ℤ, pos}
use epigone.Decimal.{Decimal, whole, ◌<ℤ◌, Rounding}
use epigone.Dict.{lookup}
use epigone.Executor.{
  because, ◌>>=◌, ◌>>◌, skip_if, or_skip, goes-injective, declines-injective, Leg, opening,
  scaling_in, closing, scaling_out, flip_close, flip_open, Category, no_local_position, unorderable,
  not_mirrorable, below_minimum, Skip, Step, goes, declines, raises, AssetSpec, CopySub,
  ClaimableEvent, Desk,
}
use epigone.Executor.Plan.{
  is_scaling_out, sub_minimum_skip, trim_target, exit_target, exit_plan, ExitPlan,
}
use epigone.Episodes.{live_episode}
use epigone.Pricing.Size.{round_size-le, relative_size-positive, relative_size-holding}

-- A step that goes on with what Q says of it, or is declined for good, under a category of which D
-- holds. It does not raise and is not deferred.
abbrev pub Settles : {A : Type 0} → (A → Type 0) → (Category → Type 0) → Step A → Type 0
Settles {A = A} Q D m =
    ((a : A) × (m ≡ goes a) × Q a)
    ⊎ ((s : Skip) × (m ≡ declines s) × (s.retry ≡ false) × D s.category)

module _ {A B : Type 0} (Q : B → Type 0) (D : Category → Type 0) where
  or_skip-Settles :
      (o : Option A) (c : Category) (f : A → Step B)
      → (o ≡ none → D c)
      → ((a : A) → o ≡ some a → Settles Q D (f a))
      → Settles Q D (or_skip o (because c) >>= f)
  or_skip-Settles none c f w h = inr (because c, refl, refl, w refl)
  or_skip-Settles (some a) c f w h = h a refl

  bind-Settles :
      (P : A → Type 0) (m : Step A) (f : A → Step B)
      → Settles P D m
      → ((a : A) → P a → Settles Q D (f a))
      → Settles Q D (m >>= f)
  bind-Settles P (goes a) f (inl (b, same, p)) h = h a (subst P (goes-injective b a (sym same)) p)
  bind-Settles P (goes a) f (inr (s, same, _, _)) h = ground (arith, same)
  bind-Settles P (declines t) f (inl (b, same, p)) h = ground (arith, same)
  bind-Settles P (declines t) f (inr (s, same, kept, w)) h =
      let (once, why) =
        subst (λ (x : Skip). (x.retry ≡ false) × D x.category) (declines-injective s t (sym same))
          (kept, w) in
      inr (t, refl, once, why)
  bind-Settles P raises f (inl (b, same, p)) h = ground (arith, same)
  bind-Settles P raises f (inr (s, same, _, _)) h = ground (arith, same)

last-Settles :
    {A : Type 0} (Q : A → Type 0) (D : Category → Type 0) (o : Option A) (c : Category)
    → (o ≡ none → D c)
    → ((a : A) → o ≡ some a → Q a)
    → Settles Q D (or_skip o (because c))
last-Settles Q D none c w h = inr (because c, refl, refl, w refl)
last-Settles Q D (some a) c w h = inl (a, refl, h a refl)

skip_if-Settles :
    {B : Type 0} (Q : B → Type 0) (D : Category → Type 0) (c : Bool) (why : Category) (k : Step B)
    → (c ≡ true → D why)
    → (c ≡ false → Settles Q D k)
    → Settles Q D (skip_if c (because why) >> k)
skip_if-Settles Q D true why k w h = inr (because why, refl, refl, w refl)
skip_if-Settles Q D false why k w h = h refl

-- What this cycle reads of the coin of an event: the position, its size, and the asset
pub record IsHeld (e : ClaimableEvent) (universe : Option AssetSpec) (desk : Desk) (q : Position)
    (held : Decimal) (spec : AssetSpec) : Type 0 where
  pub of_position : lookup e.event.coin desk.positions ≡ some q
  pub of_held : q.size_coin ≡ some held
  pub of_spec : universe ≡ some spec

-- There is nothing of the coin to exit: no episode, no position, or one whose size is unknown
abbrev pub NoCopy : ClaimableEvent → CopySub → Desk → Type 0
NoCopy e sub desk =
    (live_episode sub.id e.event.coin desk.store.episodes ≡ none)
    ⊎ (lookup e.event.coin desk.positions ≡ none)
    ⊎ ((q : Position) × (lookup e.event.coin desk.positions ≡ some q) × (q.size_coin ≡ none))

module _ (r : Rounding) where
  -- The size that an exit sells: a trim the leader's fraction of what is held, as the venue rounds
  -- it, and any other exit all that is held, rounded so.
  abbrev pub SoldSize : Leg → ClaimableEvent → Decimal → AssetSpec → Decimal → Type 0
  SoldSize scaling_out e held spec target =
      (fraction : Decimal) × (scale_fraction r e.event.prev_size_coin e.event.size_coin
        ≡ some fraction)
      × (relative_size r held fraction spec.sz_decimals ≡ some target)
  SoldSize _ e held spec target = round_size held spec.sz_decimals ≡ some target

  -- There is no such size: the leader's fraction is unknown, or the venue rounds it to nothing.
  abbrev pub Unsized : Leg → ClaimableEvent → Decimal → AssetSpec → Type 0
  Unsized scaling_out e held spec =
      (scale_fraction r e.event.prev_size_coin e.event.size_coin ≡ none)
      ⊎ ((fraction : Decimal) × (scale_fraction r e.event.prev_size_coin e.event.size_coin
            ≡ some fraction)
          × (relative_size r held fraction spec.sz_decimals ≡ none))
  Unsized _ e held spec = round_size held spec.sz_decimals ≡ none

  -- What an exit is worth, at the price that the position is valued at
  abbrev pub worth : Decimal → Position → Decimal → Decimal
  worth target q held = r.mul target (r.div q.size_usd held)

  -- When an exit is declined under a category
  abbrev pub Declined : Leg → ClaimableEvent → CopySub → Option AssetSpec → Desk → Category → Type 0
  Declined leg e sub universe desk no_local_position = NoCopy e sub desk
  Declined leg e sub universe desk unorderable = universe ≡ none
  Declined leg e sub universe desk not_mirrorable =
      (q : Position) × (held : Decimal) × (spec : AssetSpec) × IsHeld e universe desk q held spec
      × Unsized leg e held spec
  Declined leg e sub universe desk below_minimum =
      (q : Position) × (held : Decimal) × (spec : AssetSpec) × (target : Decimal) × IsHeld e
        universe desk q held spec
      × SoldSize leg e held spec target
      × (pos 0 <ℤ held)
      × (worth target q held <ℤ whole 10)
  Declined leg e sub universe desk _ = ⊥

  -- What a planned exit is: of the live episode and of the position that this cycle read, for the
  -- size that the leg asks, which is positive and, for a whole exit, no more than is held; and
  -- worth at least 10 dollars.
  pub record IsExitPlan (leg : Leg) (e : ClaimableEvent) (sub : CopySub)
      (universe : Option AssetSpec) (desk : Desk) (p : ExitPlan) : Type 0 where
    pub of_episode : live_episode sub.id e.event.coin desk.store.episodes ≡ some p.episode
    pub is_held : IsHeld e universe desk p.position p.held p.spec
    pub sold : SoldSize leg e p.held p.spec p.target
    pub positive : pos 0 <ℤ p.target
    pub within_held : is_scaling_out leg ≡ false → p.target ≤ℤ p.held
    pub above_minimum : whole 10 ≤ℤ worth p.target p.position p.held

  abbrev IsTarget : Leg → ClaimableEvent → Decimal → AssetSpec → Decimal → Type 0
  IsTarget leg e held spec target =
      SoldSize leg e held spec target
      × (pos 0 <ℤ held)
      × (pos 0 <ℤ target)
      × (is_scaling_out leg ≡ false → target ≤ℤ held)

  module _ (D : Category → Type 0) where
    trim_target-Settles :
        (e : ClaimableEvent) (held : Decimal) (spec : AssetSpec)
        → (Unsized scaling_out e held spec → D not_mirrorable)
        → Settles (IsTarget scaling_out e held spec) D (trim_target r e held spec)
    unfolding trim_target
    trim_target-Settles e held spec w =
        or_skip-Settles (IsTarget scaling_out e held spec) D
          (scale_fraction r e.event.prev_size_coin e.event.size_coin) not_mirrorable _
          (λ unknown. w (inl unknown))
          λ f known.
            last-Settles (IsTarget scaling_out e held spec) D
              (relative_size r held f spec.sz_decimals) not_mirrorable
              (λ nothing. w (inr (f, known, nothing)))
              λ t sized. (
                (f, known, sized),
                relative_size-holding r held f spec.sz_decimals t sized,
                relative_size-positive r held f spec.sz_decimals t sized,
                λ whole_exit. ground (arith, whole_exit),
              )

    -- For the exits of all that is held
    rounded-Settles :
        (held : Decimal) (spec : AssetSpec)
        → (round_size held spec.sz_decimals ≡ none → D not_mirrorable)
        → Settles
            (λ target.
              (round_size held spec.sz_decimals ≡ some target)
              × (pos 0 <ℤ held)
              × (pos 0 <ℤ target)
              × (◌≡◌ {A = Bool} false false → target ≤ℤ held))
            D
            (or_skip (round_size held spec.sz_decimals) (because not_mirrorable))
    rounded-Settles held spec w =
        last-Settles
          (λ target.
            (round_size held spec.sz_decimals ≡ some target)
            × (pos 0 <ℤ held)
            × (pos 0 <ℤ target)
            × (◌≡◌ {A = Bool} false false → target ≤ℤ held))
          D (round_size held spec.sz_decimals) not_mirrorable w
          λ t sized.
            let (above, fits) = round_size-le held spec.sz_decimals t sized in
            (sized, omega (arith, above, fits), above, λ _. fits)

    exit_target-Settles :
        (leg : Leg) (e : ClaimableEvent) (held : Decimal) (spec : AssetSpec)
        → (Unsized leg e held spec → D not_mirrorable)
        → Settles (IsTarget leg e held spec) D (exit_target r leg e held spec)
    unfolding exit_target
    exit_target-Settles scaling_out e held spec w = trim_target-Settles e held spec w
    exit_target-Settles opening e held spec w = rounded-Settles held spec w
    exit_target-Settles scaling_in e held spec w = rounded-Settles held spec w
    exit_target-Settles closing e held spec w = rounded-Settles held spec w
    exit_target-Settles flip_close e held spec w = rounded-Settles held spec w
    exit_target-Settles flip_open e held spec w = rounded-Settles held spec w

  -- Whatever the limits, the leader's money, the market and the age of the event, an exit is
  -- planned or declined for good, never deferred, and it does not fail. It is declined only where
  -- there is no copy to exit, where the coin cannot be ordered, where the size that it asks does
  -- not exist at the venue's precision, or where that size is worth less than 10 dollars at the
  -- price that the position is valued at; each category is given in its own case only. A planned
  -- exit is of what this cycle holds, for the size that its leg asks, and not worth less than that.
  pub exit_plan-Settles :
      (leg : Leg) (e : ClaimableEvent) (sub : CopySub) (universe : Option AssetSpec) (desk : Desk)
      → Settles
          (IsExitPlan leg e sub universe desk)
          (Declined leg e sub universe desk)
          (exit_plan r leg e sub universe desk)
  unfolding exit_plan sub_minimum_skip
  exit_plan-Settles leg e sub universe desk =
      let Q = IsExitPlan leg e sub universe desk in
      let D = Declined leg e sub universe desk in
      or_skip-Settles Q D (live_episode sub.id e.event.coin desk.store.episodes) no_local_position _
        (λ gone. inl gone)
        λ episode live.
          or_skip-Settles Q D (lookup e.event.coin desk.positions) no_local_position _
            (λ gone. inr (inl gone))
            λ q found.
              or_skip-Settles Q D q.size_coin no_local_position _
                (λ gone. inr (inr (q, found, gone)))
                λ held sized.
                  or_skip-Settles Q D universe unorderable _ (λ gone. gone)
                    λ spec known.
                      let at_hand : IsHeld e universe desk q held spec = record {
                        of_position = found;
                        of_held = sized;
                        of_spec = known;
                      } in
                      bind-Settles Q D (IsTarget leg e held spec) (exit_target r leg e held spec) _
                        (exit_target-Settles D leg e held spec
                          (λ nothing. (q, held, spec, at_hand, nothing)))
                        λ target (asked, holding, above, fits).
                          skip_if-Settles Q D
                            (ltb_ℤ (pos 0) held && ltb_ℤ (worth target q held) min_order_notional)
                            below_minimum _
                            (λ small. (
                              q,
                              held,
                              spec,
                              target,
                              at_hand,
                              asked,
                              holding,
                              ground (arith, small),
                            ))
                            λ enough. inl (
                              _,
                              refl,
                              record {
                                of_episode = live;
                                is_held = at_hand;
                                sold = asked;
                                positive = above;
                                within_held = fits;
                                above_minimum = ground (arith, enough, holding);
                              },
                            )
