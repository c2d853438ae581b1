-- ===== src/Episodes/Books.antt =====
-- What ends an episode in execute/episodes.py, and what the ended ones say.
use epigone.Prelude.{
  ℕ, ◌≤◌, ◌<◌, String, ◌≡◌, refl, sym, ap, ◌∙◌, subst, ◌⊎◌, inl, inr, true, false, ◌&&◌, Option,
  none, some, List, [], ◌∷◌, map, arith, ltb, ◌==◌, Bool-cases, All,
}
use epigone.Decimal.{Time}
use epigone.Episodes.{
  is_live, is_on, last_ended_episode, end_episode, Ending, CopyEpisode, Store, later_ended, ended,
}

ended_twice :
    (id : ℕ) (first second : Ending) (at later : Time) (e : CopyEpisode)
    → ended id second later (ended id first at e) ≡ ended id first at e
unfolding ended
ended_twice id first second at later e = elim (Bool-cases ((e.id == id) && is_live e)) [
  | inl here ↦ ground arith
  | inr other ↦ ground arith
]

map-ended_twice :
    (id : ℕ) (first second : Ending) (at later : Time) (es : List CopyEpisode)
    → map (ended id second later) (map (ended id first at) es) ≡ map (ended id first at) es
map-ended_twice id first second at later [] = refl
map-ended_twice id first second at later (e ∷ es) =
    ap (λ x. x ∷ map (ended id second later) (map (ended id first at) es))
      (ended_twice id first second at later e)
    ∙ ap (λ xs. ended id first at e ∷ xs) (map-ended_twice id first second at later es)

-- Whichever path notices an ending first owns its reason and its time: a second ending of the
-- same episode changes nothing, whatever it says.
pub end_episode_twice :
    (id : ℕ) (first second : Ending) (at later : Time) (s : Store)
    → end_episode id second later (end_episode id first at s) ≡ end_episode id first at s
unfolding end_episode
end_episode_twice id first second at later s =
    ap (λ es. record s { episodes = es }) (map-ended_twice id first second at later s.episodes)

-- The episode is on the coin and ended then.
abbrev pub EndedOn : ℕ → String → CopyEpisode → Time → Type 0
EndedOn sub coin e at = (is_on sub coin e ≡ true) × (e.ended_at ≡ some at)

-- No episode of these on the coin ended after the instant.
abbrev pub NoneAfter : ℕ → String → Time → List CopyEpisode → Type 0
NoneAfter sub coin at es =
    All (λ f. (other : Time) → is_on sub coin f ≡ true → f.ended_at ≡ some other → other ≤ at) es

last_ended_found :
    (sub : ℕ) (coin : String) (e : CopyEpisode) (ended_at : Option Time) (es : List CopyEpisode)
    → e.ended_at ≡ ended_at
    → ((last_ended_episode sub coin (e ∷ es) ≡ last_ended_episode sub coin es)
        × ((ended_at ≡ none) ⊎ (is_on sub coin e ≡ false)))
      ⊎ ((at : Time) × (ended_at ≡ some at)
          × (is_on sub coin e ≡ true)
          × (last_ended_episode sub coin (e ∷ es)
              ≡ later_ended e at (last_ended_episode sub coin es)))
unfolding last_ended_episode
last_ended_found sub coin e none es h = inl (ground arith, inl refl)
last_ended_found sub coin e (some at) es h = elim (Bool-cases (is_on sub coin e)) [
  | inl here ↦ inr (at, refl, here, ground arith)
  | inr other ↦ inl (ground arith, inr other)
]

-- What the newest ending of a coin is.
abbrev pub IsLastEnded : ℕ → String → List CopyEpisode → Option CopyEpisode → Type 0
IsLastEnded sub coin es none =
    All (λ f. (other : Time) → is_on sub coin f ≡ true → f.ended_at ≡ some other → ⊥) es
IsLastEnded sub coin es (some e) = (at : Time) × EndedOn sub coin e at × NoneAfter sub coin at es

NoneAfter-later :
    (sub : ℕ) (coin : String) (early late : Time) (es : List CopyEpisode)
    → early ≤ late
    → NoneAfter sub coin early es
    → NoneAfter sub coin late es
NoneAfter-later sub coin early late [] le a = tt
NoneAfter-later sub coin early late (f ∷ fs) le a =
    ((λ other o k. omega (arith, le, a.0 other o k)), NoneAfter-later sub coin early late fs le a.1)

later_ended_cases :
    (e f : CopyEpisode) (at newest : Time)
    → f.ended_at ≡ some newest
    → ((newest < at) × (later_ended e at (some f) ≡ some e))
      ⊎ ((at ≤ newest) × (later_ended e at (some f) ≡ some f))
unfolding later_ended
later_ended_cases e f at newest h = elim (Bool-cases (ltb newest at)) [
  | inl late ↦ inl (ground arith, ground arith)
  | inr early ↦ inr (ground arith, ground arith)
]

later_ended-NoneAfter :
    (sub : ℕ) (coin : String) (e : CopyEpisode) (at : Time) (es : List CopyEpisode)
    (r : Option CopyEpisode)
    → is_on sub coin e ≡ true
    → e.ended_at ≡ some at
    → IsLastEnded sub coin es r
    → IsLastEnded sub coin (e ∷ es) (later_ended e at r)
unfolding later_ended
later_ended-NoneAfter sub coin e at es none on h last =
    (at, (on, h), ((λ other _ k. ground (arith, h, k)), none_after es last))
  where
    none_after : (fs : List CopyEpisode) → IsLastEnded sub coin fs none → NoneAfter sub coin at fs
    none_after [] a = tt
    none_after (f ∷ fs) a = ((λ other o k. absurd (a.0 other o k)), none_after fs a.1)
later_ended-NoneAfter sub coin e at es (some f) on h (newest, (f_on, f_at), after) =
    elim (later_ended_cases e f at newest f_at) [
      | inl (late, same) ↦ subst (IsLastEnded sub coin (e ∷ es)) (sym same) (
        at,
        (on, h),
        (
          (λ other _ k. ground (arith, h, k)),
          NoneAfter-later sub coin newest at es (omega (arith, late)) after,
        ),
      )
      | inr (early, same) ↦
          subst (IsLastEnded sub coin (e ∷ es)) (sym same)
            (newest, (f_on, f_at), ((λ other _ k. ground (arith, h, k, early)), after))
    ]

IsLastEnded-out :
    (sub : ℕ) (coin : String) (e : CopyEpisode) (es : List CopyEpisode) (r : Option CopyEpisode)
    → (e.ended_at ≡ none) ⊎ (is_on sub coin e ≡ false)
    → IsLastEnded sub coin es r
    → IsLastEnded sub coin (e ∷ es) r
IsLastEnded-out sub coin e es none out last = ((λ other o k. not_ended other o k out), last)
  where
    not_ended :
        (other : Time)
        → is_on sub coin e ≡ true
        → e.ended_at ≡ some other
        → (e.ended_at ≡ none) ⊎ (is_on sub coin e ≡ false)
        → ⊥
    not_ended other o k (inl never) = ground arith
    not_ended other o k (inr off) = ground arith
IsLastEnded-out sub coin e es (some f) out (at, found, after) =
    (at, found, ((λ other o k. no_later other o k out), after))
  where
    no_later :
        (other : Time)
        → is_on sub coin e ≡ true
        → e.ended_at ≡ some other
        → (e.ended_at ≡ none) ⊎ (is_on sub coin e ≡ false)
        → other ≤ at
    no_later other o k (inl never) = ground arith
    no_later other o k (inr off) = ground arith

-- The last ended episode of a coin is one that ended there, and none there ended after it; there
-- is none exactly where no episode ended there.
pub last_ended_episode-IsLastEnded :
    (sub : ℕ) (coin : String) (es : List CopyEpisode)
    → IsLastEnded sub coin es (last_ended_episode sub coin es)
unfolding last_ended_episode
last_ended_episode-IsLastEnded sub coin [] = tt
last_ended_episode-IsLastEnded sub coin (e ∷ es) =
    elim (last_ended_found sub coin e e.ended_at es refl) [
      | inl (same, out) ↦ subst (IsLastEnded sub coin (e ∷ es)) (sym same) (
          IsLastEnded-out sub coin e es (last_ended_episode sub coin es) out
            (last_ended_episode-IsLastEnded sub coin es))
      | inr (at, h, on, same) ↦ subst (IsLastEnded sub coin (e ∷ es)) (sym same) (
          later_ended-NoneAfter sub coin e at es (last_ended_episode sub coin es) on h
            (last_ended_episode-IsLastEnded sub coin es))
    ]
