-- ===== src/Dict.antt =====
-- A Python dict as an association list in insertion order: a write to a key that is there keeps
-- its place, another goes to the end. It stands for the mappings that the diffs build and read,
-- and for a table that is read and written by one key.
use epigone.Prelude.{
  ◌≡◌, Bool, false, ◌||◌, Option, none, some, List, [], ◌∷◌, if◌then◌else◌, ◌is◌, Eq,
}
pub mod Laws
pub mod Select

abbrev pub Dict {ℓ κ} : Type ℓ → Type κ → Type (ℓ ⊔ κ)
Dict K V = List (K × V)

module _ {ℓ κ} {K : Type ℓ} {V : Type κ} ⦃e : Eq K⦄ where
  -- `d.get(k)`
  unfoldable pub lookup : K → Dict K V → Option V
  lookup k [] = none
  lookup k ((j, v) ∷ d) = if j is k then some v else lookup k d

  -- `k in d`
  unfoldable pub contains : K → Dict K V → Bool
  contains k [] = false
  contains k ((j, v) ∷ d) = (j is k) || contains k d

  -- `d[k] = v`, or an upsert of the row of key `k`
  unfoldable pub insert : K → V → Dict K V → Dict K V
  insert k v [] = (k, v) ∷ []
  insert k v ((j, w) ∷ d) = if j is k then (j, v) ∷ d else (j, w) ∷ insert k v d

  -- a delete of the rows of key `k`
  unfoldable pub erase : K → Dict K V → Dict K V
  erase k [] = []
  erase k ((j, v) ∷ d) = let rest = erase k d in if j is k then rest else (j, v) ∷ rest

  -- `{key(v): v for v in values}`, onto what is there
  pub index_onto : (V → K) → List V → Dict K V → Dict K V
  index_onto key [] d = d
  index_onto key (v ∷ vs) d = index_onto key vs (insert (key v) v d)

  unfoldable pub index : (V → K) → List V → Dict K V
  unfolding index_onto
  index key vs = index_onto key vs []

  -- No key stands twice.
  abbrev pub IsDict : Dict K V → Type 0
  IsDict [] = Unit
  IsDict ((k, v) ∷ d) = (contains k d ≡ false) × IsDict d
