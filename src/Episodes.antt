-- ===== src/Episodes.antt =====
-- src/epigone/execute/episodes.py over its two tables. A table is its rows in the order of their
-- ids; the identity column is the next id, and the partial unique index on the live rows of
-- (sub_id, coin) refuses an insert.
use epigone.Decimal.{Decimal, Time}
use epigone.Positions.{Side}
use epigone.Prelude.{
  ℕ, suc, String, Bool, true, false, ◌&&◌, ◌||◌, Option, none, some, List, [], ◌∷◌, ◌++◌, map, ltb,
  ◌==◌, if◌then◌else◌, ◌is◌, string_eq,
}
pub mod Books
pub mod Live
pub mod Brackets
mod Tests

pub data Ending : Type 0 where
  leader_close leader_flip bracket operator_closed liquidated : Ending

pub record CopyEpisode : Type 0 where
  pub id : ℕ
  pub sub_id : ℕ
  pub coin : String
  pub side : Side
  pub opened_at : Time
  pub opened_event_id : Option ℕ
  pub entry_price : Decimal
  pub size_coin : Decimal
  pub leverage : Option Decimal
  pub ended_at : Option Time
  pub ended_reason : Option Ending

pub data Tpsl : Type 0 where
  tp sl : Tpsl

pub record BracketOrder : Type 0 where
  pub episode_id : ℕ
  pub order_id : ℕ
  pub tpsl : Tpsl
  pub placed_at : Time

pub record Store : Type 0 where
  pub next_id : ℕ
  pub episodes : List CopyEpisode
  pub brackets : List BracketOrder

-- The arguments of `open_episode`
pub record Opening : Type 0 where
  pub sub_id : ℕ
  pub coin : String
  pub side : Side
  pub entry_price : Decimal
  pub size_coin : Decimal
  pub opened_at : Time
  pub opened_event_id : Option ℕ
  pub leverage : Option Decimal

-- `ended_at IS NULL`
abbrev pub is_live : CopyEpisode → Bool
is_live e = elim e.ended_at [ none ↦ true | some _ ↦ false ]

-- The rows of one (sub_id, coin)
abbrev pub is_on : ℕ → String → CopyEpisode → Bool
is_on sub coin e = (e.sub_id == sub) && (e.coin is coin)

-- `live_episode`
unfoldable pub live_episode : ℕ → String → List CopyEpisode → Option CopyEpisode
live_episode sub coin [] = none
live_episode sub coin (e ∷ es) =
    let rest = live_episode sub coin es in if is_on sub coin e && is_live e then some e else rest

-- `live_episodes`
pub live_episodes : ℕ → List CopyEpisode → List CopyEpisode
live_episodes sub [] = []
live_episodes sub (e ∷ es) =
    let rest = live_episodes sub es in if (e.sub_id == sub) && is_live e then e ∷ rest else rest

-- The later of two endings, by `ended_at` and then by id: the second row has the larger id.
later_ended : CopyEpisode → Time → Option CopyEpisode → Option CopyEpisode
later_ended e at none = some e
later_ended e at (some f) = elim f.ended_at [
  | none ↦ some e
  | some other ↦ if ltb other at then some e else some f
]

-- `last_ended_episode`
pub last_ended_episode : ℕ → String → List CopyEpisode → Option CopyEpisode
unfolding later_ended
last_ended_episode sub coin [] = none
last_ended_episode sub coin (e ∷ es) =
    let rest = last_ended_episode sub coin es in
    elim e.ended_at [
      | none ↦ rest
      | some at ↦ if is_on sub coin e then later_ended e at rest else rest
    ]

-- The row that `open_episode` inserts
abbrev pub inserted : ℕ → Opening → CopyEpisode
inserted id o = record {
  id = id;
  sub_id = o.sub_id;
  coin = o.coin;
  side = o.side;
  opened_at = o.opened_at;
  opened_event_id = o.opened_event_id;
  entry_price = o.entry_price;
  size_coin = o.size_coin;
  leverage = o.leverage;
  ended_at = none;
  ended_reason = none;
}

-- `open_episode`: none is the index's refusal; an id that a refused insert spends is not counted.
unfoldable pub open_episode : Opening → Store → Option Store
unfolding live_episode
open_episode o s = elim (live_episode o.sub_id o.coin s.episodes) [
  | some _ ↦ none
  | none ↦
      some
        (record s { next_id = suc s.next_id; episodes = s.episodes ++ inserted s.next_id o ∷ [] })
]

-- `adopt_size`, on a row
pub adopted : ℕ → Decimal → CopyEpisode → CopyEpisode
adopted id size e = if e.id == id then record e { size_coin = size } else e

pub adopt_size : ℕ → Decimal → Store → Store
unfolding adopted
adopt_size id size s = record s { episodes = map (adopted id size) s.episodes }

-- `end_episode`, on a row
pub ended : ℕ → Ending → Time → CopyEpisode → CopyEpisode
ended id reason at e =
    if (e.id == id) && is_live e
    then record e { ended_at = some at; ended_reason = some reason }
    else e

unfoldable pub end_episode : ℕ → Ending → Time → Store → Store
unfolding ended
end_episode id reason at s = record s { episodes = map (ended id reason at) s.episodes }

-- the conflict of `record_bracket`
pub has_bracket : ℕ → ℕ → List BracketOrder → Bool
has_bracket episode order [] = false
has_bracket episode order (b ∷ bs) =
    ((b.episode_id == episode) && (b.order_id == order)) || has_bracket episode order bs

-- `record_bracket`
pub record_bracket : BracketOrder → Store → Store
unfolding has_bracket
record_bracket b s =
    if has_bracket b.episode_id b.order_id s.brackets
    then s
    else record s { brackets = s.brackets ++ b ∷ [] }

-- `forget_brackets`, on the rows
without : ℕ → List BracketOrder → List BracketOrder
without episode [] = []
without episode (b ∷ bs) =
    let rest = without episode bs in if b.episode_id == episode then rest else b ∷ rest

pub forget_brackets : ℕ → Store → Store
unfolding without
forget_brackets episode s = record s { brackets = without episode s.brackets }

-- Whether an episode of this sub has the id: one row of the join.
pub is_of_sub : ℕ → ℕ → List CopyEpisode → Bool
is_of_sub sub id [] = false
is_of_sub sub id (e ∷ es) = ((e.id == id) && (e.sub_id == sub)) || is_of_sub sub id es

-- `sub_bracket_orders`: whether an order id is in the set
sub_bracket_among : ℕ → ℕ → List CopyEpisode → List BracketOrder → Bool
unfolding is_of_sub
sub_bracket_among sub order es [] = false
sub_bracket_among sub order es (b ∷ bs) =
    ((b.order_id == order) && is_of_sub sub b.episode_id es) || sub_bracket_among sub order es bs

pub sub_bracket_orders : ℕ → Store → ℕ → Bool
unfolding sub_bracket_among
sub_bracket_orders sub s order = sub_bracket_among sub order s.episodes s.brackets

-- The calls that write.
pub data StoreCall : Type 0 where
  opens : Opening → StoreCall
  adopts : ℕ → Decimal → StoreCall
  ends : ℕ → Ending → Time → StoreCall
  records : BracketOrder → StoreCall
  forgets : ℕ → StoreCall

-- A call on the store; a refused insert leaves it.
pub perform : StoreCall → Store → Store
unfolding open_episode adopt_size end_episode record_bracket forget_brackets
perform (opens o) s = elim (open_episode o s) [ none ↦ s | some t ↦ t ]
perform (adopts id size) s = adopt_size id size s
perform (ends id reason at) s = end_episode id reason at s
perform (records b) s = record_bracket b s
perform (forgets episode) s = forget_brackets episode s

pub perform_all : List StoreCall → Store → Store
perform_all [] s = s
perform_all (c ∷ cs) s = perform_all cs (perform c s)
