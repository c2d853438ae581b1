-- ===== src/Dict/Laws.antt =====
-- What a write and a delete do to every later read, and that keys stay distinct.
use epigone.Prelude.{
  ◌≡◌, refl, true, false, ◌||◌, none, some, List, [], ◌∷◌, arith, if◌then◌else◌, All, ◌is◌, Eq,
}
use epigone.Dict.{Dict, lookup, contains, insert, erase, index_onto, index, IsDict}

pub is_refl {ℓ} : {K : Type ℓ} ⦃e : Eq K⦄ (k : K) → (k is k) ≡ true
is_refl ⦃e⦄ k = (e.beq_iff k k).1 refl

module _ {ℓ κ} {K : Type ℓ} {V : Type κ} ⦃e : Eq K⦄ where
  pub lookup-insert :
      (k j : K) (v : V) (d : Dict K V)
      → lookup j (insert k v d) ≡ (if k is j then some v else lookup j d)
  unfolding lookup insert
  lookup-insert k j v [] = refl
  lookup-insert k j v ((i, w) ∷ d) =
      ground (arith, e.beq_iff k j, e.beq_iff i k, e.beq_iff i j, lookup-insert k j v d)

  pub lookup-erase :
      (k j : K) (d : Dict K V) → lookup j (erase k d) ≡ (if k is j then none else lookup j d)
  unfolding lookup erase
  lookup-erase k j [] = ground arith
  lookup-erase k j ((i, w) ∷ d) =
      ground (arith, e.beq_iff k j, e.beq_iff i k, e.beq_iff i j, lookup-erase k j d)

  pub contains-insert :
      (k j : K) (v : V) (d : Dict K V) → contains j (insert k v d) ≡ ((k is j) || contains j d)
  unfolding contains insert
  contains-insert k j v [] = refl
  contains-insert k j v ((i, w) ∷ d) =
      ground (arith, e.beq_iff k j, e.beq_iff i k, e.beq_iff i j, contains-insert k j v d)

  pub contains-erase :
      (k j : K) (d : Dict K V) → contains j (erase k d) ≡ (if k is j then false else contains j d)
  unfolding contains erase
  contains-erase k j [] = ground arith
  contains-erase k j ((i, w) ∷ d) =
      ground (arith, e.beq_iff k j, e.beq_iff i k, e.beq_iff i j, contains-erase k j d)

  -- A key is there exactly when a read of it finds a value.
  pub contains-lookup-none : (k : K) (d : Dict K V) → contains k d ≡ false → lookup k d ≡ none
  unfolding contains lookup
  contains-lookup-none k [] h = refl
  contains-lookup-none k ((j, v) ∷ d) h = ground (arith, contains-lookup-none k d)

  pub contains-lookup-some :
      (k : K) (d : Dict K V) (v : V) → lookup k d ≡ some v → contains k d ≡ true
  unfolding contains lookup
  contains-lookup-some k [] v h = ground arith
  contains-lookup-some k ((j, w) ∷ d) v h = ground (arith, contains-lookup-some k d v)

  pub contains-head : (k : K) (v : V) (d : Dict K V) → contains k ((k, v) ∷ d) ≡ true
  unfolding contains
  contains-head k v d = ground (arith, e.beq_iff k k)

  pub contains-tail :
      (k j : K) (v : V) (d : Dict K V) → contains k d ≡ true → contains k ((j, v) ∷ d) ≡ true
  unfolding contains
  contains-tail k j v d h = ground arith

  pub lookup-none-contains : (k : K) (d : Dict K V) → lookup k d ≡ none → contains k d ≡ false
  unfolding contains lookup
  lookup-none-contains k [] h = refl
  lookup-none-contains k ((j, v) ∷ d) h = ground (arith, lookup-none-contains k d)

  pub insert-IsDict : (k : K) (v : V) (d : Dict K V) → IsDict d → IsDict (insert k v d)
  unfolding insert contains
  insert-IsDict k v [] h = (refl, tt)
  insert-IsDict k v ((j, w) ∷ d) h =
      ground (arith, e.beq_iff j k, e.beq_iff k j, contains-insert k j v d, insert-IsDict k v d h.1)

  pub erase-IsDict : (k : K) (d : Dict K V) → IsDict d → IsDict (erase k d)
  unfolding erase contains
  erase-IsDict k [] h = tt
  erase-IsDict k ((j, w) ∷ d) h = ground (arith, contains-erase k j d, erase-IsDict k d h.1)

  pub index_onto-IsDict :
      (key : V → K) (vs : List V) (d : Dict K V) → IsDict d → IsDict (index_onto key vs d)
  unfolding index_onto
  index_onto-IsDict key [] d h = h
  index_onto-IsDict key (v ∷ vs) d h =
      index_onto-IsDict key vs (insert (key v) v d) (insert-IsDict (key v) v d h)

  pub index-IsDict : (key : V → K) (vs : List V) → IsDict (index key vs)
  unfolding index
  index-IsDict key vs = index_onto-IsDict key vs [] tt

  -- Every value stands under its own key.
  abbrev pub IsKeyed : (V → K) → Dict K V → Type ℓ
  IsKeyed key [] = Unit
  IsKeyed key ((k, v) ∷ d) = (k ≡ key v) × IsKeyed key d

  insert-IsKeyed :
      (key : V → K) (v : V) (d : Dict K V) → IsKeyed key d → IsKeyed key (insert (key v) v d)
  unfolding insert
  insert-IsKeyed key v [] h = (refl, tt)
  insert-IsKeyed key v ((j, w) ∷ d) h =
      ground (arith, e.beq_iff j (key v), insert-IsKeyed key v d h.1)

  index_onto-IsKeyed :
      (key : V → K) (vs : List V) (d : Dict K V) → IsKeyed key d → IsKeyed key (index_onto key vs d)
  unfolding index_onto
  index_onto-IsKeyed key [] d h = h
  index_onto-IsKeyed key (v ∷ vs) d h =
      index_onto-IsKeyed key vs (insert (key v) v d) (insert-IsKeyed key v d h)

  pub index-IsKeyed : (key : V → K) (vs : List V) → IsKeyed key (index key vs)
  unfolding index
  index-IsKeyed key vs = index_onto-IsKeyed key vs [] tt

  pub lookup-IsKeyed :
      (key : V → K) (k : K) (d : Dict K V) (v : V) → IsKeyed key d → lookup k d ≡ some v → k ≡ key v
  unfolding lookup
  lookup-IsKeyed key k [] v h f = ground arith
  lookup-IsKeyed key k ((j, w) ∷ d) v h f =
      ground (arith, e.beq_iff j k, lookup-IsKeyed key k d v h.1)

  -- What holds of every read holds of every entry, when no key stands twice.
  pub All-lookup {μ} :
      (P : K × V → Type μ) (d : Dict K V)
      → IsDict d
      → ((k : K) (v : V) → lookup k d ≡ some v → P (k, v))
      → All P d
  unfolding lookup
  All-lookup P [] dict h = tt
  All-lookup P ((k, v) ∷ rest) dict h = (
    h k v (rw (is_refl k)),
    All-lookup P rest dict.1
        λ c w found. h c w (ground (arith, e.beq_iff k c, contains-lookup-some c rest w found)),
  )
