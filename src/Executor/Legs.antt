-- ===== src/Executor/Legs.antt =====
-- What the tests of `_classify_vanished` of execute/executor.py ask: the legs on record, the orders
-- on the book, the fills of the coin, and the two sides.
use epigone.Executor.Reconcile.{liquidated_among, has_id, still_resting, has_legs, Fill}
use epigone.Positions.{same_side, Side, long, short}
use epigone.Episodes.{BracketOrder}
use epigone.Prelude.{
  ℕ, String, ◌≡◌, refl, ◌⊎◌, inl, inr, Bool, true, false, ◌&&◌, ◌||◌, List, [], ◌∷◌, arith, ◌==◌,
  Bool-cases, ◌is◌, string_eq, nat_eq,
}

-- A test that tells whether P holds.
abbrev pub Reflects : Bool → Type 0 → Type 0
Reflects true P = P
Reflects false P = P → ⊥

pub told_true : (b : Bool) (P : Type 0) → Reflects b P → b ≡ true → P
told_true true P r h = r
told_true false P r h = cc

pub told_false : (b : Bool) (P : Type 0) → Reflects b P → b ≡ false → P → ⊥
told_false true P r h = cc
told_false false P r h = r

or_reflects : (a b : Bool) (P Q : Type 0) → Reflects a P → Reflects b Q → Reflects (a || b) (P ⊎ Q)
or_reflects true b P Q p q = inl p
or_reflects false true P Q p q = inr q
or_reflects false false P Q p q = λ (e : P ⊎ Q). elim e [ inl x ↦ p x | inr y ↦ q y ]

and_reflects : (a b : Bool) (P Q : Type 0) → Reflects a P → Reflects b Q → Reflects (a && b) (P × Q)
and_reflects true true P Q p q = (p, q)
and_reflects true false P Q p q = λ e. q e.1
and_reflects false b P Q p q = λ e. p e.0

-- Whether a number is in a list
abbrev pub Has : ℕ → List ℕ → Type 0
Has n [] = ⊥
Has n (m ∷ ms) = (m ≡ n) ⊎ Has n ms

-- Whether a leg of the episode is on record
abbrev pub HasLeg : ℕ → List BracketOrder → Type 0
HasLeg id [] = ⊥
HasLeg id (b ∷ bs) = (b.episode_id ≡ id) ⊎ HasLeg id bs

-- Whether the order of a leg of the episode is on the book
abbrev pub Rests : ℕ → List ℕ → List BracketOrder → Type 0
Rests id book [] = ⊥
Rests id book (b ∷ bs) = ((b.episode_id ≡ id) × Has b.order_id book) ⊎ Rests id book bs

-- Whether a fill of the coin names a liquidation
abbrev pub Wiped : String → List Fill → Type 0
Wiped coin [] = ⊥
Wiped coin (f ∷ fs) = ((f.coin ≡ coin) × (f.liquidates ≡ true)) ⊎ Wiped coin fs

nat_reflects : (m n : ℕ) → Reflects (m == n) (m ≡ n)
nat_reflects m n = elim (Bool-cases (m == n)) [
  | inl h ↦ rw h ((nat_eq.beq_iff m n).0 h)
  | inr h ↦ rw h (λ e. differs h e)
]
  where
    differs : (m == n) ≡ false → m ≡ n → ⊥
    differs h e = ground (arith, h, nat_eq.beq_iff m n, e)

string_reflects : (s t : String) → Reflects (s is t) (s ≡ t)
string_reflects s t = elim (Bool-cases (s is t)) [
  | inl h ↦ rw h ((string_eq.beq_iff s t).0 h)
  | inr h ↦ rw h (λ e. differs h e)
]
  where
    differs : (s is t) ≡ false → s ≡ t → ⊥
    differs h e = cc (h, (string_eq.beq_iff s t).1 e)

bool_reflects : (b : Bool) → Reflects b (b ≡ true)
bool_reflects true = refl
bool_reflects false = λ (h : ◌≡◌ {A = Bool} false true). cc h

has_id-Has : (n : ℕ) (ms : List ℕ) → Reflects (has_id n ms) (Has n ms)
unfolding has_id
has_id-Has n [] = λ h. h
has_id-Has n (m ∷ ms) =
    or_reflects (m == n) (has_id n ms) (m ≡ n) (Has n ms) (nat_reflects m n) (has_id-Has n ms)

pub has_legs-HasLeg : (id : ℕ) (bs : List BracketOrder) → Reflects (has_legs id bs) (HasLeg id bs)
unfolding has_legs
has_legs-HasLeg id [] = λ h. h
has_legs-HasLeg id (b ∷ bs) =
    or_reflects (b.episode_id == id) (has_legs id bs) (b.episode_id ≡ id) (HasLeg id bs)
      (nat_reflects b.episode_id id) (has_legs-HasLeg id bs)

pub still_resting-Rests :
    (id : ℕ) (book : List ℕ) (bs : List BracketOrder)
    → Reflects (still_resting id book bs) (Rests id book bs)
unfolding still_resting
still_resting-Rests id book [] = λ h. h
still_resting-Rests id book (b ∷ bs) =
    or_reflects ((b.episode_id == id) && has_id b.order_id book) (still_resting id book bs)
      ((b.episode_id ≡ id) × Has b.order_id book) (Rests id book bs)
      (and_reflects (b.episode_id == id) (has_id b.order_id book) (b.episode_id ≡ id)
        (Has b.order_id book) (nat_reflects b.episode_id id) (has_id-Has b.order_id book))
      (still_resting-Rests id book bs)

pub liquidated_among-Wiped :
    (coin : String) (fs : List Fill) → Reflects (liquidated_among coin fs) (Wiped coin fs)
unfolding liquidated_among
liquidated_among-Wiped coin [] = λ h. h
liquidated_among-Wiped coin (f ∷ fs) =
    or_reflects ((f.coin is coin) && f.liquidates) (liquidated_among coin fs)
      ((f.coin ≡ coin) × (f.liquidates ≡ true)) (Wiped coin fs)
      (and_reflects (f.coin is coin) f.liquidates (f.coin ≡ coin) (f.liquidates ≡ true)
        (string_reflects f.coin coin) (bool_reflects f.liquidates))
      (liquidated_among-Wiped coin fs)

pub same_side_reflects : (a b : Side) → Reflects (same_side a b) (a ≡ b)
same_side_reflects long long = refl
same_side_reflects short short = refl
same_side_reflects long short = λ (h : long ≡ short). ground arith
same_side_reflects short long = λ (h : short ≡ long). ground arith
