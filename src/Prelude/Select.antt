-- ===== src/Prelude/Select.antt =====
-- What selecting from a list keeps.
use Prim.Native.Nat.{suc}
use Prim.Native.String.{String}
use mathlib.Core.Path.{◌≡◌, refl, ap, ◌∙◌}
use mathlib.Core.Logic.{inl, inr}
use mathlib.Core.Bool.{Bool, true, false, not}
use mathlib.Core.List.{List, [], ◌∷◌, ◌++◌}
use epigone.Prelude.Tests.{Bool-cases}
use epigone.Prelude.Lists.{length, select}

pub select-append {ℓ} :
    {A : Type ℓ} (p : A → Bool) (xs ys : List A) → select p (xs ++ ys) ≡ select p xs ++ select p ys
select-append p [] ys = refl
select-append p (x ∷ xs) ys = elim (Bool-cases (p x)) [
  | inl kept ↦ rw kept (ap (λ rest. x ∷ rest) (select-append p xs ys))
  | inr left ↦ rw left (select-append p xs ys)
]

pub select-middle {ℓ} :
    {A : Type ℓ} (p : A → Bool) (xs ys : List A) (x : A)
    → p x ≡ true
    → select p (xs ++ x ∷ ys) ≡ select p xs ++ x ∷ select p ys
select-middle p xs ys x h = select-append p xs (x ∷ ys) ∙ rw h

pub select-false {ℓ} : {A : Type ℓ} (xs : List A) → select (λ _. false) xs ≡ []
select-false [] = refl
select-false (x ∷ xs) = select-false xs

pub length_middle :
    (x : String) (xs ys : List String) → length (xs ++ x ∷ ys) ≡ suc (length (xs ++ ys))
length_middle x [] ys = refl
length_middle x (y ∷ xs) ys = ap suc (length_middle x xs ys)

pub length-select :
    (p : String → Bool) (xs : List String)
    → length (select p xs ++ select (λ x. not (p x)) xs) ≡ length xs
length-select p [] = refl
length-select p (x ∷ xs) = elim (Bool-cases (p x)) [
  | inl chosen ↦ rw chosen (ap suc (length-select p xs))
  | inr left ↦
      rw left
        (length_middle x (select p xs) (select (λ y. not (p y)) xs) ∙ ap suc (length-select p xs))
]
