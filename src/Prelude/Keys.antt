-- ===== src/Prelude/Keys.antt =====
-- Equality tests on the types that serve as keys: numbers and texts.
use Prim.Native.Nat.{ℕ}
use Prim.Native.String.{String}
use mathlib.Core.Path.{◌≡◌}
use mathlib.Core.Logic.{◌↔◌}
use mathlib.Core.Bool.{Bool, true}
use mathlib.Core.List.{List}
use text.Mathlib.Text.{◌==◌ as str_eq}
use text.Mathlib.TextEquality.{eq_iff}
use epigone.Prelude.Tests.{◌==◌, ==_iff}
use epigone.Prelude.Lists.{any_of}

-- A decidable equality as a Boolean test.
pub record Eq {ℓ} (A : Type ℓ) : Type ℓ where
  pub beq : A → A → Bool
  pub beq_iff : (a b : A) → (beq a b ≡ true) ↔ (a ≡ b)

infix 50 ◌is◌
abbrev pub ◌is◌ {ℓ} : {A : Type ℓ} ⦃e : Eq A⦄ → A → A → Bool
◌is◌ ⦃e⦄ = e.beq

instance abbrev pub nat_eq : Eq ℕ
nat_eq = record { beq = ◌==◌; beq_iff = ==_iff }

instance abbrev pub string_eq : Eq String
string_eq = record { beq = str_eq; beq_iff = eq_iff }

-- Whether a set, as a list, has an element.
abbrev pub member {ℓ} : {A : Type ℓ} ⦃e : Eq A⦄ → A → List A → Bool
member a xs = any_of (λ x. x is a) xs
