-- ===== src/Prelude/Bits.antt =====
-- Masks of low bits, disjoint fields and single bits, as arithmetic.
use Prim.Native.Nat.{
  ℕ, zero, suc, ◌+◌, ◌-◌, ◌*◌, ◌/◌, ◌%◌, ◌^◌, ◌≤◌, ◌<◌, min, max, digits, bit_and, bit_or,
  bit_and-bitwise, bit_or-bitwise,
}
use mathlib.Core.Path.{◌≡◌, refl, ap, sym, ◌∙◌}
use native.Mathlib.Nat.{pow-suc, pow-succ', one-le-pow, div-div-eq-div-mul, div-add-mod'}
use native.Mathlib.Omega.{arith}

-- The recursion on binary digits gives the same for any two bounds that reach the number.
enough_digits :
    (low : ℕ → ℕ) (f : ℕ → ℕ → ℕ) (g h x y : ℕ)
    → x ≤ g
    → x ≤ h
    → digits low f g x y ≡ digits low f h x y
enough_digits low f zero zero x y p q = refl
enough_digits low f (suc g) (suc h) zero y p q = refl
enough_digits low f (suc g) (suc h) (suc x) y p q =
    ap (λ t. t * 2 + f (suc x % 2) (y % 2))
      (enough_digits low f g h (suc x / 2) (y / 2) (omega arith) (omega arith))
enough_digits low f zero (suc h) zero y p q = refl
enough_digits low f zero (suc h) (suc x) y p q = elim p [ ]
enough_digits low f (suc g) zero zero y p q = refl
enough_digits low f (suc g) zero (suc x) y p q = elim q [ ]

pub and_digit : (x y : ℕ) → bit_and x y ≡ bit_and (x / 2) (y / 2) * 2 + min (x % 2) (y % 2)
and_digit zero y = omega (arith, bit_and-bitwise 0 y, bit_and-bitwise 0 (y / 2))
and_digit (suc x) y = omega (
  arith,
  bit_and-bitwise (suc x) y,
  bit_and-bitwise (suc x / 2) (y / 2),
  enough_digits (λ _. 0) min x (suc x / 2) (suc x / 2) (y / 2) (omega arith) (omega arith),
)

pub or_digit : (x y : ℕ) → bit_or x y ≡ bit_or (x / 2) (y / 2) * 2 + max (x % 2) (y % 2)
or_digit zero y = omega (arith, bit_or-bitwise 0 y, bit_or-bitwise 0 (y / 2))
or_digit (suc x) y = omega (
  arith,
  bit_or-bitwise (suc x) y,
  bit_or-bitwise (suc x / 2) (y / 2),
  enough_digits (λ t. t) max x (suc x / 2) (suc x / 2) (y / 2) (omega arith) (omega arith),
)

or_zero : (n x : ℕ) → x ≤ n → bit_or x 0 ≡ x
or_zero n zero h = refl
or_zero zero (suc x) h = elim h [ ]
or_zero (suc n) (suc x) h = omega (arith, or_digit (suc x) 0, or_zero n (suc x / 2) (omega arith))

and_zero : (n x : ℕ) → x ≤ n → bit_and x 0 ≡ 0
and_zero n zero h = refl
and_zero zero (suc x) h = elim h [ ]
and_zero (suc n) (suc x) h =
    omega (arith, and_digit (suc x) 0, and_zero n (suc x / 2) (omega arith))

double_field : (q k : ℕ) → q * 2 ^ suc k ≡ 2 * (q * 2 ^ k)
double_field q k = omega (arith, ap (λ (t : ℕ). q * t) (pow-suc 2 k))

pub halve_shift : (x k : ℕ) → x / 2 ^ suc k ≡ x / 2 / 2 ^ k
halve_shift x k = rw (pow-succ' 2 k) (sym (div-div-eq-div-mul x 2 (2 ^ k)))

-- A mask of `k` ones keeps the remainder by `2 ^ k`.
pub and_mask : (k x : ℕ) → bit_and x (2 ^ k - 1) ≡ x % 2 ^ k
and_mask zero x = and_zero x x (omega arith) ∙ omega arith
and_mask (suc k) x =
    let q : ℕ = x / 2 / 2 ^ k in
    let odd : (2 ^ suc k - 1) % 2 ≡ 1 = omega (arith, pow-succ' 2 k, one-le-pow k 2) in
    let half : (2 ^ suc k - 1) / 2 ≡ 2 ^ k - 1 = omega (arith, pow-succ' 2 k, one-le-pow k 2) in
    and_digit x (2 ^ suc k - 1)
    ∙ rw (odd, half, and_mask k (x / 2))
        (omega (
          arith,
          div-add-mod' x (2 ^ suc k),
          div-add-mod' (x / 2) (2 ^ k),
          ap (λ (t : ℕ). t * 2 ^ suc k) (halve_shift x k),
          double_field q k,
        ))

-- `x << k | y` is a sum when `y` has at most `k` bits.
pub or_field : (k x y : ℕ) → y < 2 ^ k → bit_or (x * 2 ^ k) y ≡ x * 2 ^ k + y
or_field zero x y h =
    let e : y ≡ 0 = omega arith in
    rw e (or_zero (x * 2 ^ 0) (x * 2 ^ 0) (omega arith) ∙ omega arith)
or_field (suc k) x y h = omega (
  arith,
  or_digit (x * 2 ^ suc k) y,
  ap (λ t. bit_or t (y / 2)) halved,
  double_field x k,
  pow-suc 2 k,
  or_field k x (y / 2) (omega (arith, pow-suc 2 k)),
)
  where
    halved : x * 2 ^ suc k / 2 ≡ x * 2 ^ k
    halved = omega (arith, double_field x k)

-- The bit at place `i`.
abbrev pub bit_at : ℕ → ℕ → ℕ
bit_at w i = w / 2 ^ i % 2

-- `w | 1 << i` where the bit is clear.
pub or_bit : (i w : ℕ) → bit_at w i ≡ 0 → bit_or w (2 ^ i) ≡ w + 2 ^ i
or_bit zero w h = omega (arith, or_digit w 1, or_zero (w / 2) (w / 2) (omega arith))
or_bit (suc i) w h = omega (
  arith,
  or_digit w (2 ^ suc i),
  pow-succ' 2 i,
  or_bit i (w / 2) (rw (← halve_shift w i) h),
  ap (λ t. bit_or (w / 2) t) (half i),
)
  where
    half : (i : ℕ) → 2 ^ suc i / 2 ≡ 2 ^ i
    half i = omega (arith, pow-succ' 2 i)

-- `w & 1 << i`.
pub and_bit : (i w : ℕ) → bit_and w (2 ^ i) ≡ bit_at w i * 2 ^ i
and_bit zero w = omega (arith, and_digit w 1, and_zero (w / 2) (w / 2) (omega arith))
and_bit (suc i) w = omega (
  arith,
  and_digit w (2 ^ suc i),
  pow-succ' 2 i,
  and_bit i (w / 2),
  ap (λ t. bit_and (w / 2) t) (half i),
  ap (λ (t : ℕ). t % 2 * 2 ^ suc i) (halve_shift w i),
  double_field (w / 2 / 2 ^ i % 2) i,
)
  where
    half : (i : ℕ) → 2 ^ suc i / 2 ≡ 2 ^ i
    half i = omega (arith, pow-succ' 2 i)

-- `w | 1`.
pub or_one : (w : ℕ) → bit_or w 1 ≡ w / 2 * 2 + 1
or_one w = omega (arith, or_digit w 1, or_zero (w / 2) (w / 2) (omega arith))
