-- ===== src/Prelude/Count.antt =====
-- How often a number stands in a list.
use Prim.Native.Nat.{ℕ, zero, suc, ◌+◌, ◌≤◌, ◌<◌}
use mathlib.Core.Path.{◌≡◌, refl}
use mathlib.Core.Bool.{◌&&◌}
use mathlib.Core.Option.{Option, none, some}
use mathlib.Core.List.{List, [], ◌∷◌}
use native.Mathlib.Omega.{arith}
use r_corev.Prelude.Tests.{◌==◌, leb, ltb, if◌then◌else◌}
use r_corev.Prelude.Lists.{length, get_elem?}

unfoldable pub count : ℕ → List ℕ → ℕ
count p [] = 0
count p (x ∷ xs) = (if x == p then 1 else 0) + count p xs

-- `xs.iter().find(|v| *v == p)`
unfoldable pub find_eq : ℕ → List ℕ → Option ℕ
find_eq p [] = none
find_eq p (x ∷ xs) = if x == p then some x else find_eq p xs

pub find_eq-none : (p : ℕ) (xs : List ℕ) → count p xs ≡ 0 → find_eq p xs ≡ none
unfolding count find_eq
find_eq-none p [] h = refl
find_eq-none p (x ∷ xs) h = ground (arith, find_eq-none p xs)

pub find_eq-some : (p : ℕ) (xs : List ℕ) → 0 < count p xs → find_eq p xs ≡ some p
unfolding count find_eq
find_eq-some p [] h = elim h [ ]
find_eq-some p (x ∷ xs) h = ground (arith, find_eq-some p xs)

-- 1 in the interval from `lo` up to `hi`, and 0 outside.
unfoldable pub inside : ℕ → ℕ → ℕ → ℕ
inside lo hi p = if leb lo p && ltb p hi then 1 else 0

pub inside_grow :
    (lo hi p : ℕ) → lo ≤ hi → inside lo (hi + 1) p ≡ (if hi == p then 1 else 0) + inside lo hi p
unfolding inside
inside_grow lo hi p h = ground arith

-- The `k`-th element taken out.
unfoldable pub remove_at : ℕ → List ℕ → List ℕ
remove_at k [] = []
remove_at zero (x ∷ xs) = xs
remove_at (suc k) (x ∷ xs) = x ∷ remove_at k xs

pub count-remove_at :
    (k p q : ℕ) (xs : List ℕ)
    → get_elem? xs k ≡ some q
    → count p xs ≡ (if q == p then 1 else 0) + count p (remove_at k xs)
unfolding count remove_at
count-remove_at k p q [] h = cc
count-remove_at zero p q (x ∷ xs) h = ground arith
count-remove_at (suc k) p q (x ∷ xs) h = ground (arith, count-remove_at k p q xs h)

pub length-remove_at :
    (k q : ℕ) (xs : List ℕ) → get_elem? xs k ≡ some q → length xs ≡ suc (length (remove_at k xs))
unfolding remove_at
length-remove_at k q [] h = cc
length-remove_at zero q (x ∷ xs) h = refl
length-remove_at (suc k) q (x ∷ xs) h = omega (arith, length-remove_at k q xs h)
