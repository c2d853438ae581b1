-- ===== src/Episodes/Brackets.antt =====
-- The bracket rows of execute/episodes.py.
use epigone.Prelude.{
  ℕ, ◌≡◌, refl, ap, inl, inr, true, ◌&&◌, ◌||◌, List, [], ◌∷◌, ◌++◌, map, arith, ◌==◌, Bool-cases,
}
use epigone.Decimal.{Time}
use epigone.Episodes.{
  is_live, end_episode, has_bracket, record_bracket, is_of_sub, sub_bracket_orders, Ending,
  CopyEpisode, BracketOrder, Store, ended, sub_bracket_among,
}

is_of_sub-ended :
    (sub wanted id : ℕ) (reason : Ending) (at : Time) (es : List CopyEpisode)
    → is_of_sub sub wanted (map (ended id reason at) es) ≡ is_of_sub sub wanted es
unfolding is_of_sub ended
is_of_sub-ended sub wanted id reason at [] = refl
is_of_sub-ended sub wanted id reason at (e ∷ es) = elim (Bool-cases ((e.id == id) && is_live e)) [
  | inl here ↦ ground (arith, is_of_sub-ended sub wanted id reason at es)
  | inr other ↦ ground (arith, is_of_sub-ended sub wanted id reason at es)
]

among-ended :
    (sub order id : ℕ) (reason : Ending) (at : Time) (es : List CopyEpisode)
    (bs : List BracketOrder)
    → sub_bracket_among sub order (map (ended id reason at) es) bs
      ≡ sub_bracket_among sub order es bs
unfolding sub_bracket_among
among-ended sub order id reason at es [] = refl
among-ended sub order id reason at es (b ∷ bs) = ground (
  arith,
  among-ended sub order id reason at es bs,
  is_of_sub-ended sub b.episode_id id reason at es,
)

-- Ending an episode forgets no trigger: the sub's recorded order ids are what they were.
pub sub_bracket_orders-end_episode :
    (sub id : ℕ) (reason : Ending) (at : Time) (s : Store) (order : ℕ)
    → sub_bracket_orders sub (end_episode id reason at s) order ≡ sub_bracket_orders sub s order
unfolding sub_bracket_orders end_episode
sub_bracket_orders-end_episode sub id reason at s order =
    among-ended sub order id reason at s.episodes s.brackets

among-append :
    (sub order : ℕ) (es : List CopyEpisode) (bs : List BracketOrder) (b : BracketOrder)
    → sub_bracket_among sub order es (bs ++ b ∷ []) ≡ (
        sub_bracket_among sub order es bs
        || ((b.order_id == order) && is_of_sub sub b.episode_id es))
unfolding sub_bracket_among
among-append sub order es [] b = ground arith
among-append sub order es (c ∷ cs) b = ground (arith, among-append sub order es cs b)

among-has_bracket :
    (sub order episode : ℕ) (es : List CopyEpisode) (bs : List BracketOrder)
    → has_bracket episode order bs ≡ true
    → is_of_sub sub episode es ≡ true
    → sub_bracket_among sub order es bs ≡ true
unfolding sub_bracket_among has_bracket
among-has_bracket sub order episode es [] h on = ground arith
among-has_bracket sub order episode es (b ∷ bs) h on =
    elim (Bool-cases ((b.episode_id == episode) && (b.order_id == order))) [
      | inl here ↦ ground (arith, ap (λ i. is_of_sub sub i es) (own here))
      | inr other ↦ ground (arith, among-has_bracket sub order episode es bs (ground arith) on)
    ]
  where
    own : ((b.episode_id == episode) && (b.order_id == order)) ≡ true → b.episode_id ≡ episode
    own k = ground arith

has_bracket-append :
    (bs : List BracketOrder) (b : BracketOrder)
    → has_bracket b.episode_id b.order_id (bs ++ b ∷ []) ≡ true
unfolding has_bracket
has_bracket-append [] b = ground arith
has_bracket-append (c ∷ cs) b = ground (arith, has_bracket-append cs b)

-- Recording a leg of a sub's episode, whether or not it was recorded before, adds exactly its
-- order id to the sub's recorded ones; and recording it again changes nothing.
pub sub_bracket_orders-record_bracket :
    (sub : ℕ) (b : BracketOrder) (s : Store) (order : ℕ)
    → is_of_sub sub b.episode_id s.episodes ≡ true
    → (sub_bracket_orders sub (record_bracket b s) order
        ≡ (sub_bracket_orders sub s order || (b.order_id == order)))
      × (record_bracket b (record_bracket b s) ≡ record_bracket b s)
unfolding sub_bracket_orders record_bracket
sub_bracket_orders-record_bracket sub b s order on =
    elim (Bool-cases (has_bracket b.episode_id b.order_id s.brackets)) [
      | inl known ↦ (ground (arith, known, already known), ground (arith, known))
      | inr new ↦ (
        ground (arith, new, on, among-append sub order s.episodes s.brackets b),
        ground (arith, new, has_bracket-append s.brackets b),
      )
    ]
  where
    already :
        has_bracket b.episode_id b.order_id s.brackets ≡ true
        → sub_bracket_among sub order s.episodes s.brackets
          ≡ (sub_bracket_among sub order s.episodes s.brackets || (b.order_id == order))
    already known = elim (Bool-cases (b.order_id == order)) [
      | inl same ↦ ground (
        arith,
        ap (λ i. sub_bracket_among sub i s.episodes s.brackets) (meets same),
        among-has_bracket sub b.order_id b.episode_id s.episodes s.brackets known on,
      )
      | inr other ↦ ground arith
    ]
      where
        meets : (b.order_id == order) ≡ true → b.order_id ≡ order
        meets k = ground arith
