-- ===== src/Prelude/Slices.antt =====
-- Prefixes, suffixes and single writes of a list.
use Prim.Native.Nat.{ℕ, zero, suc, ◌≤◌, ◌<◌}
use mathlib.Core.Path.{◌≡◌, refl, ap}
use mathlib.Core.Logic.{◌≢◌}
use mathlib.Core.List.{List, [], ◌∷◌, ◌++◌}
use mathlib.Core.Option.{some}
use native.Mathlib.Omega.{arith}
use r_corev.Prelude.Lists.{length, get_elem?, get_or, set, take, drop}

module _ {ℓ} {A : Type ℓ} where
  pub take-set-suc :
      (b : List A) (i : ℕ) (v : A) → i < length b → take (suc i) (set b i v) ≡ take i b ++ (v ∷ [])
  take-set-suc [] i v h = elim h [ ]
  take-set-suc (x ∷ b) zero v h = refl
  take-set-suc (x ∷ b) (suc i) v h = ap (◌∷◌ x) (take-set-suc b i v (omega arith))

  pub drop-set-suc : (b : List A) (i : ℕ) (v : A) → drop (suc i) (set b i v) ≡ drop (suc i) b
  drop-set-suc [] i v = refl
  drop-set-suc (x ∷ b) zero v = refl
  drop-set-suc (x ∷ b) (suc i) v = drop-set-suc b i v

  pub drop-cons :
      (b : List A) (i : ℕ) (d : A) → i < length b → drop i b ≡ get_or b i d ∷ drop (suc i) b
  drop-cons [] i d h = elim h [ ]
  drop-cons (x ∷ b) zero d h = refl
  drop-cons (x ∷ b) (suc i) d h = drop-cons b i d (omega arith)

  pub take-all : (b : List A) (n : ℕ) → length b ≤ n → take n b ≡ b
  take-all [] zero h = refl
  take-all [] (suc n) h = refl
  take-all (x ∷ b) zero h = elim h [ ]
  take-all (x ∷ b) (suc n) h = ap (◌∷◌ x) (take-all b n (omega arith))

  pub drop-all : (b : List A) (n : ℕ) → length b ≤ n → drop n b ≡ []
  drop-all [] zero h = refl
  drop-all [] (suc n) h = refl
  drop-all (x ∷ b) zero h = elim h [ ]
  drop-all (x ∷ b) (suc n) h = drop-all b n (omega arith)

  pub set-get_or : (b : List A) (i : ℕ) (d : A) → set b i (get_or b i d) ≡ b
  set-get_or [] i d = refl
  set-get_or (x ∷ b) zero d = refl
  set-get_or (x ∷ b) (suc i) d = ap (◌∷◌ x) (set-get_or b i d)

  pub get_elem?-eq-get_or :
      (xs : List A) (i : ℕ) (d : A) → i < length xs → get_elem? xs i ≡ some (get_or xs i d)
  get_elem?-eq-get_or [] i d h = absurd (omega arith)
  get_elem?-eq-get_or (x ∷ xs) zero d h = refl
  get_elem?-eq-get_or (x ∷ xs) (suc i) d h = get_elem?-eq-get_or xs i d (omega arith)

  pub get_or-set_self :
      (xs : List A) (i : ℕ) (v d : A) → i < length xs → get_or (set xs i v) i d ≡ v
  get_or-set_self [] i v d h = absurd (omega arith)
  get_or-set_self (x ∷ xs) zero v d h = refl
  get_or-set_self (x ∷ xs) (suc i) v d h = get_or-set_self xs i v d (omega arith)

  pub get_or-set_ne :
      (xs : List A) {i j : ℕ} (v d : A) → i ≢ j → get_or (set xs i v) j d ≡ get_or xs j d
  get_or-set_ne [] v d h = refl
  get_or-set_ne (x ∷ xs) {i = zero} {j = zero} v d h = absurd (h refl)
  get_or-set_ne (x ∷ xs) {i = zero} {j = suc j} v d h = refl
  get_or-set_ne (x ∷ xs) {i = suc i} {j = zero} v d h = refl
  get_or-set_ne (x ∷ xs) {i = suc i} {j = suc j} v d h = get_or-set_ne xs v d (λ e. h (ap suc e))
