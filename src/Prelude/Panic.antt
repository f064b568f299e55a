-- ===== src/Prelude/Panic.antt =====
-- Rust code that may stop the kernel: `panic` stands for a failed `assert!`, an `unwrap` of `None`,
-- an index out of range and a call of `panic!`.
use mathlib.Core.Path.{◌≡◌, refl}
use mathlib.Core.Bool.{Bool, true, false}
use mathlib.Core.Option.{Option, none, some}

pub data Run {ℓ} (A : Type ℓ) : Type ℓ where
  panic : Run A
  ok : A → Run A

abbrev pub assert : Bool → Run (Unit {0})
assert false = panic
assert true = ok tt

abbrev pub unwrap {ℓ} : {A : Type ℓ} → Option A → Run A
unwrap none = panic
unwrap (some a) = ok a

infixl 5 ◌>>=◌
infixl 5 ◌>>◌
-- What comes after a call that stops the kernel never runs.
abbrev pub ◌>>=◌ {κ ℓ} : {B : Type κ} {A : Type ℓ} → Run B → (B → Run A) → Run A
panic >>= _ = panic
ok value >>= rest = rest value

abbrev pub ◌>>◌ {ℓ} : {A : Type ℓ} → Run (Unit {0}) → Run A → Run A
panic >> _ = panic
ok _ >> rest = rest

-- Inversion of a bind that does not panic.
pub >>=-eq-ok {ℓ κ} :
    {A : Type ℓ} {B : Type κ} (m : Run A) (f : A → Run B) {b : B}
    → (m >>= f) ≡ ok b
    → (a : A) × (m ≡ ok a) × (f a ≡ ok b)
>>=-eq-ok panic f h = cc
>>=-eq-ok (ok a) f h = (a, refl, h)
