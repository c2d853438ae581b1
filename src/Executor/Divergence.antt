-- ===== src/Executor/Divergence.antt =====
-- What a reconciliation of execute/executor.py concludes, and what it leaves in the books.
use epigone.Dict.{Dict, lookup}
use epigone.Prelude.{
  ℕ, ◌≤◌, String, ◌≡◌, refl, ap, ◌∙◌, ◌≢◌, ◌⊎◌, inl, inr, true, false, ◌&&◌, Option, none, some,
  List, arith, Bool-cases, Option-cases, string_eq,
}
use epigone.Decimal.{Decimal, Time, leb_ℤ}
use epigone.Executor.Steps.{after}
use epigone.Executor.Reconcile.{
  liquidated_among, was_liquidated, still_resting, has_legs, by_fills, classify_vanished,
  size_finding, find_divergence, write_finding, reconcile_episode, Fill, VanishedReads, Finding,
  in_order, size_adopted, opposite_side, unclassifiable, episode_over,
}
use epigone.Positions.{same_side, Position}
use epigone.Episodes.{
  live_episode, leader_close, leader_flip, bracket, operator_closed, liquidated, CopyEpisode, Store,
}
use epigone.Episodes.Live.{live_count, live_episode-adopt_size, end_episode-live_episode}
use epigone.Prelude.Int.{eq_of_parts}
use epigone.Executor.Legs.{
  told_true, told_false, HasLeg, Rests, Wiped, has_legs-HasLeg, still_resting-Rests,
  liquidated_among-Wiped, same_side_reflects,
}

-- The episode has legs on record, and none of them is on the book
abbrev pub BracketFired : CopyEpisode → VanishedReads → Store → Type 0
BracketFired e k s = HasLeg e.id s.brackets × (Rests e.id k.book s.brackets → ⊥)

-- What each finding says of what was read, and what the books hold of the coin after it. Only a
-- position that is gone ends its episode; which reason is given is what the book and the fills say,
-- the brackets first.
abbrev pub Concludes :
    Finding → CopyEpisode → VanishedReads → Option Position → Store → Option CopyEpisode → Type 0
Concludes in_order e k p s after =
    (after ≡ some e)
    × ((q : Position) × (p ≡ some q)
        × (q.side ≡ e.side)
        × ((q.size_coin ≡ none) ⊎ (q.size_coin ≡ some e.size_coin)))
Concludes (size_adopted held) e k p s after =
    (after ≡ some (record e { size_coin = held }))
    × ((q : Position) × (p ≡ some q)
        × (q.side ≡ e.side)
        × (q.size_coin ≡ some held)
        × (held ≢ e.size_coin))
Concludes opposite_side e k p s after =
    (after ≡ some e) × ((q : Position) × (p ≡ some q) × (q.side ≢ e.side))
Concludes unclassifiable e k p s after =
    (after ≡ some e) × (p ≡ none) × (BracketFired e k s → ⊥) × (k.fills ≡ none)
Concludes (episode_over bracket) e k p s after = (after ≡ none) × (p ≡ none) × BracketFired e k s
Concludes (episode_over liquidated) e k p s after =
    (after ≡ none)
    × (p ≡ none)
    × (BracketFired e k s → ⊥)
    × ((fs : List Fill) × (k.fills ≡ some fs) × Wiped e.coin fs)
Concludes (episode_over operator_closed) e k p s after =
    (after ≡ none)
    × (p ≡ none)
    × (BracketFired e k s → ⊥)
    × ((fs : List Fill) × (k.fills ≡ some fs) × (Wiped e.coin fs → ⊥))
Concludes (episode_over leader_close) e k p s after = ⊥
Concludes (episode_over leader_flip) e k p s after = ⊥

by_fills-Concludes :
    (e : CopyEpisode) (k : VanishedReads) (s : Store) (now : Time) (sub : ℕ)
    → live_count sub e.coin s.episodes ≤ 1
    → live_episode sub e.coin s.episodes ≡ some e
    → (BracketFired e k s → ⊥)
    → let found = by_fills (was_liquidated e.coin k.fills) in
      Concludes found e k none s (live_episode sub e.coin (write_finding e now found s).episodes)
unfolding by_fills was_liquidated write_finding
by_fills-Concludes e k s now sub one live quiet = elim (Option-cases k.fills) [
  | inl unread ↦ rw unread (live, refl, quiet, refl)
  | inr (fs, read) ↦ elim (Bool-cases (liquidated_among e.coin fs)) [
    | inl wiped ↦
        rw (read, wiped)
          (
            end_episode-live_episode sub e.coin e liquidated now s one live,
            refl,
            quiet,
            (
              fs,
              refl,
              told_true (liquidated_among e.coin fs) (Wiped e.coin fs)
                  (liquidated_among-Wiped e.coin fs) wiped,
            ),
          )
    | inr left ↦
        rw (read, left)
          (
            end_episode-live_episode sub e.coin e operator_closed now s one live,
            refl,
            quiet,
            (
              fs,
              refl,
              told_false (liquidated_among e.coin fs) (Wiped e.coin fs)
                  (liquidated_among-Wiped e.coin fs) left,
            ),
          )
  ]
]

classify_vanished-Concludes :
    (e : CopyEpisode) (k : VanishedReads) (s : Store) (now : Time) (sub : ℕ)
    → live_count sub e.coin s.episodes ≤ 1
    → live_episode sub e.coin s.episodes ≡ some e
    → let found = classify_vanished e k s in
      Concludes found e k none s (live_episode sub e.coin (write_finding e now found s).episodes)
unfolding classify_vanished write_finding
classify_vanished-Concludes e k s now sub one live = elim (Bool-cases (has_legs e.id s.brackets)) [
  | inr bare ↦ rw bare (by_fills-Concludes e k s now sub one live λ fired. absent bare fired.0)
  | inl legs ↦ elim (Bool-cases (still_resting e.id k.book s.brackets)) [
    | inl rests ↦
        rw (legs, rests)
          (by_fills-Concludes e k s now sub one live λ fired. fired.1 (on_book rests))
    | inr fired ↦
        rw (legs, fired)
          (
            end_episode-live_episode sub e.coin e bracket now s one live,
            refl,
            (present legs, gone fired),
          )
  ]
]
  where
    present : has_legs e.id s.brackets ≡ true → HasLeg e.id s.brackets
    present =
        told_true (has_legs e.id s.brackets) (HasLeg e.id s.brackets)
          (has_legs-HasLeg e.id s.brackets)

    absent : has_legs e.id s.brackets ≡ false → HasLeg e.id s.brackets → ⊥
    absent =
        told_false (has_legs e.id s.brackets) (HasLeg e.id s.brackets)
          (has_legs-HasLeg e.id s.brackets)

    on_book : still_resting e.id k.book s.brackets ≡ true → Rests e.id k.book s.brackets
    on_book =
        told_true (still_resting e.id k.book s.brackets) (Rests e.id k.book s.brackets)
          (still_resting-Rests e.id k.book s.brackets)

    gone : still_resting e.id k.book s.brackets ≡ false → Rests e.id k.book s.brackets → ⊥
    gone =
        told_false (still_resting e.id k.book s.brackets) (Rests e.id k.book s.brackets)
          (still_resting-Rests e.id k.book s.brackets)

size_finding-Concludes :
    (e : CopyEpisode) (k : VanishedReads) (s : Store) (now : Time) (sub : ℕ) (q : Position)
    (held : Option Decimal)
    → live_episode sub e.coin s.episodes ≡ some e
    → q.side ≡ e.side
    → q.size_coin ≡ held
    → let found = size_finding held e.size_coin in
      Concludes found e k
        (some q)
        s
        (live_episode sub e.coin (write_finding e now found s).episodes)
unfolding size_finding write_finding
size_finding-Concludes e k s now sub q none live side sized = (live, (q, refl, side, inl sized))
size_finding-Concludes e k s now sub q (some held) live side sized =
    elim (Bool-cases (leb_ℤ held e.size_coin && leb_ℤ e.size_coin held)) [
      | inl same ↦
          rw same (live, (q, refl, side, inr (sized ∙ ap some (equal held e.size_coin same))))
      | inr other ↦ rw other (
        live_episode-adopt_size sub e.coin held e s live,
        (q, refl, side, sized, differs held e.size_coin other),
      )
    ]
  where
    equal : (a b : Decimal) → (leb_ℤ a b && leb_ℤ b a) ≡ true → a ≡ b
    equal a b h = eq_of_parts a b (ground (arith, h))

    differs : (a b : Decimal) → (leb_ℤ a b && leb_ℤ b a) ≡ false → a ≢ b
    differs a b h same = ground (arith, h, same)

find_divergence-Concludes :
    (e : CopyEpisode) (k : VanishedReads) (s : Store) (now : Time) (sub : ℕ) (p : Option Position)
    → live_count sub e.coin s.episodes ≤ 1
    → live_episode sub e.coin s.episodes ≡ some e
    → let found = find_divergence e k s p in
      Concludes found e k p s (live_episode sub e.coin (write_finding e now found s).episodes)
unfolding find_divergence write_finding
find_divergence-Concludes e k s now sub none one live =
    classify_vanished-Concludes e k s now sub one live
find_divergence-Concludes e k s now sub (some q) one live =
    elim (Bool-cases (same_side q.side e.side)) [
      | inl same ↦ rw same (
          size_finding-Concludes e k s now sub q q.size_coin live
            (told_true (same_side q.side e.side) (q.side ≡ e.side)
              (same_side_reflects q.side e.side) same)
            refl)
      | inr opposite ↦ rw opposite (
        live,
        (
          q,
          refl,
          told_false (same_side q.side e.side) (q.side ≡ e.side) (same_side_reflects q.side e.side)
              opposite,
        ),
      )
    ]

-- Reconciling the live episode of a coin, where it is the only live one of the sub and coin, leaves
-- the coin's live episode as the exchange shows it. Where the position is on the episode's side,
-- the episode takes its size, if it has one; where it is on the other side, the episode stays. Where
-- it is gone, the finding is that the bracket ended it when legs of the episode are on record and
-- none is on the book; when that is not so, a liquidation where a fill of the coin names one, else
-- the operator, and nothing where the fills cannot be read; and no live episode is left by an
-- ending, while the episode stays where nothing is found.
pub reconcile_episode-Concludes :
    (e : CopyEpisode) (k : VanishedReads) (positions : Dict String Position) (now : Time)
    (flagged : List ℕ) (s : Store) (sub : ℕ)
    → live_count sub e.coin s.episodes ≤ 1
    → live_episode sub e.coin s.episodes ≡ some e
    → let done = reconcile_episode e k positions now flagged s in
      Concludes done.found e k
        (lookup e.coin positions)
        s
        (live_episode sub e.coin done.store.episodes)
unfolding reconcile_episode
reconcile_episode-Concludes e k positions now flagged s sub one live =
    find_divergence-Concludes e k s now sub (lookup e.coin positions) one live
