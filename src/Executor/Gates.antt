-- ===== src/Executor/Gates.antt =====
-- What it is for the signatures of execute/executor.py to be guarded, and how it adds up.
use epigone.Executor.{
  Act, claims, attempts, reads_halt, sets_leverage, places, skips, defers, finishes,
}
use epigone.Prelude.{◌≡◌, refl, Bool, true, false, ◌||◌, not, List, [], ◌∷◌, ◌++◌}

-- Every signature comes behind a recorded attempt and behind a read of the halt flag of its own
-- that was false, with no other signature between. The state is whether there is an attempt, and
-- whether there is such a read.
abbrev pub IsGuarded : Bool → Bool → List Act → Type 0
IsGuarded a g [] = Unit
IsGuarded a g (claims _ ∷ xs) = IsGuarded a g xs
IsGuarded a g (attempts _ ∷ xs) = IsGuarded true g xs
IsGuarded a g (reads_halt h ∷ xs) = IsGuarded a (not h) xs
IsGuarded a g (sets_leverage _ ∷ xs) = (a ≡ true) × (g ≡ true) × IsGuarded a false xs
IsGuarded a g (places _ ∷ xs) = (a ≡ true) × (g ≡ true) × IsGuarded a false xs
IsGuarded a g (skips _ ∷ xs) = IsGuarded a g xs
IsGuarded a g (defers ∷ xs) = IsGuarded a g xs
IsGuarded a g (finishes _ ∷ xs) = IsGuarded a g xs

-- A state that has more is no worse.
IsGuarded-mono :
    (xs : List Act) (a g b h : Bool) → IsGuarded a g xs → IsGuarded (a || b) (g || h) xs
IsGuarded-mono [] a g b h k = tt
IsGuarded-mono (claims _ ∷ xs) a g b h k = IsGuarded-mono xs a g b h k
IsGuarded-mono (attempts _ ∷ xs) a g b h k = IsGuarded-mono xs true g b h k
IsGuarded-mono (reads_halt true ∷ xs) a g b h k = IsGuarded-mono xs a false b false k
IsGuarded-mono (reads_halt false ∷ xs) a g b h k = IsGuarded-mono xs a true b h k
IsGuarded-mono (sets_leverage _ ∷ xs) a g b h (l, m, k) =
    (rw l refl, rw m refl, IsGuarded-mono xs a false b false k)
IsGuarded-mono (places _ ∷ xs) a g b h (l, m, k) =
    (rw l refl, rw m refl, IsGuarded-mono xs a false b false k)
IsGuarded-mono (skips _ ∷ xs) a g b h k = IsGuarded-mono xs a g b h k
IsGuarded-mono (defers ∷ xs) a g b h k = IsGuarded-mono xs a g b h k
IsGuarded-mono (finishes _ ∷ xs) a g b h k = IsGuarded-mono xs a g b h k

IsGuarded-attempted : (a : Bool) (xs : List Act) → IsGuarded a false xs → IsGuarded true false xs
IsGuarded-attempted true xs k = k
IsGuarded-attempted false xs k = IsGuarded-mono xs false false true false k

IsGuarded-read : (a g : Bool) (xs : List Act) → IsGuarded a false xs → IsGuarded a g xs
IsGuarded-read true g xs k = IsGuarded-mono xs true false false g k
IsGuarded-read false g xs k = IsGuarded-mono xs false false false g k

-- What needs no read of its own may follow anything.
pub IsGuarded-append :
    (xs ys : List Act) (a g : Bool)
    → IsGuarded a g xs
    → IsGuarded a false ys
    → IsGuarded a g (xs ++ ys)
IsGuarded-append [] ys a g k m = IsGuarded-read a g ys m
IsGuarded-append (claims _ ∷ xs) ys a g k m = IsGuarded-append xs ys a g k m
IsGuarded-append (attempts _ ∷ xs) ys a g k m =
    IsGuarded-append xs ys true g k (IsGuarded-attempted a ys m)
IsGuarded-append (reads_halt h ∷ xs) ys a g k m = IsGuarded-append xs ys a (not h) k m
IsGuarded-append (sets_leverage _ ∷ xs) ys a g (l, n, k) m =
    (l, n, IsGuarded-append xs ys a false k m)
IsGuarded-append (places _ ∷ xs) ys a g (l, n, k) m = (l, n, IsGuarded-append xs ys a false k m)
IsGuarded-append (skips _ ∷ xs) ys a g k m = IsGuarded-append xs ys a g k m
IsGuarded-append (defers ∷ xs) ys a g k m = IsGuarded-append xs ys a g k m
IsGuarded-append (finishes _ ∷ xs) ys a g k m = IsGuarded-append xs ys a g k m
