-- ===== src/Dict/Select.antt =====
-- What selecting keys leaves of a dictionary, and what a write leaves of the others.
use epigone.Prelude.{
  String, ◌≡◌, refl, sym, ap, ◌∙◌, inl, inr, Bool, true, false, some, [], ◌∷◌, if◌then◌else◌,
  Bool-cases, select, ◌is◌, string_eq,
}
use epigone.Dict.{Dict, lookup, insert}
use epigone.Dict.Laws.{lookup-insert}

pub lookup-insert_other {ℓ} :
    {V : Type ℓ} (k j : String) (v : V) (d : Dict String V)
    → (k is j) ≡ false
    → lookup j (insert k v d) ≡ lookup j d
lookup-insert_other k j v d h = lookup-insert k j v d ∙ rw h

unwatched_other :
    (watched : String → Bool) (a k : String)
    → watched a ≡ true
    → watched k ≡ false
    → (k is a) ≡ false
unwatched_other watched a k h g = elim (Bool-cases (k is a)) [
  | inl same ↦
      let e : k ≡ a = (string_eq.beq_iff k a).0 same in
      let clash : watched a ≡ false = rw (← e) g in cc
  | inr other ↦ other
]

pub lookup-select {ℓ} :
    {V : Type ℓ} (watched : String → Bool) (a : String) (d : Dict String V)
    → watched a ≡ true
    → lookup a (select (λ e. watched e.0) d) ≡ lookup a d
unfolding lookup
lookup-select watched a [] h = refl
lookup-select watched a ((k, v) ∷ d) h = elim (Bool-cases (watched k)) [
  | inl kept ↦ rw kept (ap (λ rest. if k is a then some v else rest) (lookup-select watched a d h))
  | inr gone ↦ rw gone (lookup-select watched a d h ∙ sym (rw (unwatched_other watched a k h gone)))
]
