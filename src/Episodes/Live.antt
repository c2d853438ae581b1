-- ===== src/Episodes/Live.antt =====
-- The live episodes of execute/episodes.py.
use mathlib.Core.Option.{some-injective}
-- How many live rows one (sub_id, coin) has.
use epigone.Prelude.{
  ℕ, suc, ◌≤◌, ◌<◌, String, ◌≡◌, refl, sym, ap, ◌∙◌, subst, ◌⊎◌, inl, inr, true, false, ◌&&◌, none,
  some, List, [], ◌∷◌, ◌++◌, map, arith, ◌==◌, if◌then◌else◌, ==_iff, Bool-cases, Option-cases,
  string_eq,
}
use epigone.Decimal.{Decimal, Time}
use epigone.Episodes.{
  is_live, is_on, live_episode, inserted, open_episode, adopt_size, end_episode, record_bracket,
  forget_brackets, perform, perform_all, Ending, CopyEpisode, Store, Opening, StoreCall, opens,
  adopts, ends, records, forgets, adopted, ended,
}

unfoldable pub live_count : ℕ → String → List CopyEpisode → ℕ
live_count sub coin [] = 0
live_count sub coin (e ∷ es) =
    let rest = live_count sub coin es in if is_on sub coin e && is_live e then suc rest else rest

live_count-none :
    (sub : ℕ) (coin : String) (es : List CopyEpisode)
    → live_episode sub coin es ≡ none
    → live_count sub coin es ≡ 0
unfolding live_count live_episode
live_count-none sub coin [] h = refl
live_count-none sub coin (e ∷ es) h = elim (Bool-cases (is_on sub coin e && is_live e)) [
  | inl here ↦ ground arith
  | inr other ↦ ground (arith, live_count-none sub coin es (ground arith))
]

live_episode-none :
    (sub : ℕ) (coin : String) (es : List CopyEpisode)
    → live_count sub coin es ≡ 0
    → live_episode sub coin es ≡ none
unfolding live_count live_episode
live_episode-none sub coin [] h = refl
live_episode-none sub coin (e ∷ es) h = elim (Bool-cases (is_on sub coin e && is_live e)) [
  | inl here ↦ ground arith
  | inr other ↦ ground (arith, live_episode-none sub coin es (ground arith))
]

live_count-append :
    (sub : ℕ) (coin : String) (es : List CopyEpisode) (e : CopyEpisode)
    → live_count sub coin (es ++ e ∷ []) ≡ (
        if is_on sub coin e && is_live e
        then suc (live_count sub coin es)
        else live_count sub coin es)
unfolding live_count
live_count-append sub coin [] e = refl
live_count-append sub coin (x ∷ xs) e = ground (arith, live_count-append sub coin xs e)

live_episode-adopted :
    (sub : ℕ) (coin : String) (size : Decimal) (e : CopyEpisode) (es : List CopyEpisode)
    → live_episode sub coin es ≡ some e
    → live_episode sub coin (map (adopted e.id size) es) ≡ some (record e { size_coin = size })
unfolding live_episode adopted
live_episode-adopted sub coin size e [] h = ground (arith, h)
live_episode-adopted sub coin size e (x ∷ xs) h =
    elim (Bool-cases (is_on sub coin x && is_live x)) [
      | inl here ↦
          let same : x ≡ e = some-injective x e (ground (arith, here, h)) in
          subst
            (λ (y : CopyEpisode).
              live_episode sub coin (map (adopted y.id size) (x ∷ xs))
              ≡ some (record y { size_coin = size }))
            same (ground (arith, here, (==_iff x.id x.id).1 refl))
      | inr other ↦
          ground (arith, other, live_episode-adopted sub coin size e xs (ground (arith, h, other)))
    ]

-- A live episode that adopts a size is still the live one.
pub live_episode-adopt_size :
    (sub : ℕ) (coin : String) (size : Decimal) (e : CopyEpisode) (s : Store)
    → live_episode sub coin s.episodes ≡ some e
    → live_episode sub coin (adopt_size e.id size s).episodes ≡ some (record e { size_coin = size })
unfolding adopt_size
live_episode-adopt_size sub coin size e s h = live_episode-adopted sub coin size e s.episodes h

live_count-adopted :
    (sub : ℕ) (coin : String) (id : ℕ) (size : Decimal) (es : List CopyEpisode)
    → live_count sub coin (map (adopted id size) es) ≡ live_count sub coin es
unfolding live_count adopted
live_count-adopted sub coin id size [] = refl
live_count-adopted sub coin id size (e ∷ es) = elim (Bool-cases (e.id == id)) [
  | inl here ↦ ground (arith, live_count-adopted sub coin id size es)
  | inr other ↦ ground (arith, live_count-adopted sub coin id size es)
]

live_count-ended :
    (sub : ℕ) (coin : String) (id : ℕ) (reason : Ending) (at : Time) (es : List CopyEpisode)
    → live_count sub coin (map (ended id reason at) es) ≤ live_count sub coin es
unfolding live_count ended
live_count-ended sub coin id reason at [] = omega arith
live_count-ended sub coin id reason at (e ∷ es) = elim (Bool-cases ((e.id == id) && is_live e)) [
  | inl here ↦ ground (arith, live_count-ended sub coin id reason at es)
  | inr other ↦ ground (arith, live_count-ended sub coin id reason at es)
]

same_rows :
    (sub : ℕ) (coin : String) (o : Opening) (es : List CopyEpisode)
    → is_on sub coin (inserted 0 o) ≡ true
    → live_episode o.sub_id o.coin es ≡ live_episode sub coin es
same_rows sub coin o es h =
    let subs : o.sub_id ≡ sub = ground arith in
    let coins : o.coin ≡ coin = (string_eq.beq_iff o.coin coin).0 (ground arith) in
    ap (λ x. live_episode x o.coin es) subs ∙ ap (λ x. live_episode sub x es) coins

opens-IsSingle :
    (sub : ℕ) (coin : String) (o : Opening) (s : Store)
    → live_count sub coin s.episodes ≤ 1
    → live_count sub coin (perform (opens o) s).episodes ≤ 1
unfolding perform open_episode
opens-IsSingle sub coin o s h = elim (Option-cases (live_episode o.sub_id o.coin s.episodes)) [
  | inr (e, held) ↦ ground arith
  | inl free ↦ elim (Bool-cases (is_on sub coin (inserted 0 o))) [
    | inl same ↦ ground (
      arith,
      live_count-append sub coin s.episodes (inserted s.next_id o),
      live_count-none sub coin s.episodes (sym (same_rows sub coin o s.episodes same) ∙ free),
    )
    | inr other ↦ ground (arith, live_count-append sub coin s.episodes (inserted s.next_id o))
  ]
]

perform-IsSingle :
    (sub : ℕ) (coin : String) (c : StoreCall) (s : Store)
    → live_count sub coin s.episodes ≤ 1
    → live_count sub coin (perform c s).episodes ≤ 1
unfolding perform adopt_size end_episode record_bracket forget_brackets
perform-IsSingle sub coin (opens o) s h = opens-IsSingle sub coin o s h
perform-IsSingle sub coin (adopts id size) s h =
    omega (arith, live_count-adopted sub coin id size s.episodes)
perform-IsSingle sub coin (ends id reason at) s h =
    omega (arith, live_count-ended sub coin id reason at s.episodes)
perform-IsSingle sub coin (records b) s h = ground arith
perform-IsSingle sub coin (forgets episode) s h = h

-- Whatever calls are made, a sub never has two live episodes on one coin, if it starts with at
-- most one.
pub perform_all-live_count :
    (sub : ℕ) (coin : String) (cs : List StoreCall) (s : Store)
    → live_count sub coin s.episodes ≤ 1
    → live_count sub coin (perform_all cs s).episodes ≤ 1
unfolding perform_all
perform_all-live_count sub coin [] s h = h
perform_all-live_count sub coin (c ∷ cs) s h =
    perform_all-live_count sub coin cs (perform c s) (perform-IsSingle sub coin c s h)

live_episode-append :
    (sub : ℕ) (coin : String) (es : List CopyEpisode) (e : CopyEpisode)
    → live_episode sub coin es ≡ none
    → (is_on sub coin e && is_live e) ≡ true
    → live_episode sub coin (es ++ e ∷ []) ≡ some e
unfolding live_episode
live_episode-append sub coin [] e h on = ground arith
live_episode-append sub coin (x ∷ xs) e h on = elim (Bool-cases (is_on sub coin x && is_live x)) [
  | inl here ↦ ground arith
  | inr other ↦ ground (arith, live_episode-append sub coin xs e (ground arith) on)
]

is_on_own : (id : ℕ) (o : Opening) → is_on o.sub_id o.coin (inserted id o) ≡ true
is_on_own id o = ground (arith, (string_eq.beq_iff o.coin o.coin).1 refl)

-- An opening is refused exactly when the sub has a live episode on the coin; otherwise it makes
-- the episode of our fill the live one, under an id that the next opening does not take.
pub open_episode-live_episode :
    (o : Opening) (s : Store)
    → ((e : CopyEpisode) × (live_episode o.sub_id o.coin s.episodes ≡ some e)
        × (open_episode o s ≡ none))
      ⊎ ((t : Store) × (live_episode o.sub_id o.coin s.episodes ≡ none)
          × (open_episode o s ≡ some t)
          × (live_episode o.sub_id o.coin t.episodes ≡ some (inserted s.next_id o))
          × (s.next_id < t.next_id))
unfolding open_episode
open_episode-live_episode o s = elim (Option-cases (live_episode o.sub_id o.coin s.episodes)) [
  | inr (e, held) ↦ inl (e, held, ground arith)
  | inl free ↦ inr (
    record s { next_id = suc s.next_id; episodes = s.episodes ++ inserted s.next_id o ∷ [] },
    free,
    ground arith,
    live_episode-append o.sub_id o.coin s.episodes (inserted s.next_id o) free
        (ground (arith, is_on_own s.next_id o)),
    omega arith,
  )
]

ended_own :
    (reason : Ending) (at : Time) (e : CopyEpisode)
    → is_live e ≡ true
    → is_live (ended e.id reason at e) ≡ false
unfolding ended
ended_own reason at e live = ground arith

live_count-ended_live :
    (sub : ℕ) (coin : String) (e : CopyEpisode) (reason : Ending) (at : Time)
    (es : List CopyEpisode)
    → live_episode sub coin es ≡ some e
    → live_count sub coin (map (ended e.id reason at) es) < live_count sub coin es
unfolding live_count live_episode ended
live_count-ended_live sub coin e reason at [] h = ground arith
live_count-ended_live sub coin e reason at (x ∷ xs) h =
    elim (Bool-cases (is_on sub coin x && is_live x)) [
      | inl here ↦
          let same : x ≡ e = ground arith in
          let gone : is_live (ended e.id reason at x) ≡ false =
            subst (λ (y : CopyEpisode). is_live (ended y.id reason at x) ≡ false) same
              (ended_own reason at x (ground arith)) in
          ground (arith, here, gone, live_count-ended sub coin e.id reason at xs)
      | inr other ↦ elim (Bool-cases ((x.id == e.id) && is_live x)) [
        | inl ends_now ↦
            ground (arith, live_count-ended_live sub coin e reason at xs (ground arith))
        | inr stays ↦ ground (arith, live_count-ended_live sub coin e reason at xs (ground arith))
      ]
    ]

-- Ending the live episode of a coin leaves the sub with none there, so the coin can be inserted
-- again.
pub end_episode-live_episode :
    (sub : ℕ) (coin : String) (e : CopyEpisode) (reason : Ending) (at : Time) (s : Store)
    → live_count sub coin s.episodes ≤ 1
    → live_episode sub coin s.episodes ≡ some e
    → live_episode sub coin (end_episode e.id reason at s).episodes ≡ none
unfolding end_episode
end_episode-live_episode sub coin e reason at s one held =
    live_episode-none sub coin (map (ended e.id reason at) s.episodes)
      (omega (arith, one, live_count-ended_live sub coin e reason at s.episodes held))
