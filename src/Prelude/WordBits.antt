-- ===== src/Prelude/WordBits.antt =====
-- Single bits of a word: setting, clearing, and the lowest clear one.
use Prim.Native.Nat.{ℕ, zero, suc, ◌+◌, ◌-◌, ◌/◌, ◌%◌, ◌^◌, ◌≤◌, ◌<◌}
use mathlib.Core.Path.{◌≡◌, ap, sym, ◌∙◌}
use mathlib.Core.Logic.{inl, inr}
use mathlib.Core.Bool.{true, false}
use native.Mathlib.Nat.{pow-succ'}
use native.Mathlib.Omega.{arith}
use r_corev.Prelude.Tests.{◌==◌, if◌then◌else◌, Bool-cases}
use r_corev.Prelude.Bits.{bit_at, halve_shift}

bit_halved : (w i : ℕ) → bit_at w (suc i) ≡ bit_at (w / 2) i
bit_halved w i = ap (λ (t : ℕ). t % 2) (halve_shift w i)

add_halved : (w i : ℕ) → (w + 2 ^ suc i) / 2 ≡ w / 2 + 2 ^ i
add_halved w i = omega (arith, pow-succ' 2 i)

same_test : (i j : ℕ) → (suc i == suc j) ≡ (i == j)
same_test i j = ground arith

-- A clear bit that is set.
pub set_bit :
    (i j w : ℕ) → bit_at w i ≡ 0 → bit_at (w + 2 ^ i) j ≡ (if i == j then 1 else bit_at w j)
set_bit zero zero w h = omega arith
set_bit zero (suc j) w h =
    let differ : (0 == suc j) ≡ false = ground arith in
    rw differ (bit_halved (w + 1) j ∙ ap (λ t. bit_at t j) half ∙ sym (bit_halved w j))
  where
    half : (w + 1) / 2 ≡ w / 2
    half = omega arith
set_bit (suc i) zero w h =
    let differ : (suc i == 0) ≡ false = ground arith in rw differ (omega (arith, pow-succ' 2 i))
set_bit (suc i) (suc j) w h = rw (same_test i j) (
    bit_halved (w + 2 ^ suc i) j
    ∙ ap (λ t. bit_at t j) (add_halved w i)
    ∙ set_bit i j (w / 2) (sym (bit_halved w i) ∙ h)
    ∙ ap (λ (t : ℕ). if i == j then 1 else t) (sym (bit_halved w j)))

-- A set bit that is cleared.
pub clear_bit : (i w : ℕ) → bit_at w i ≡ 1 → (2 ^ i ≤ w) × (bit_at (w - 2 ^ i) i ≡ 0)
clear_bit zero w h = (omega arith, omega arith)
clear_bit (suc i) w h =
    let c = clear_bit i (w / 2) (sym (bit_halved w i) ∙ h) in
    let half : (w - 2 ^ suc i) / 2 ≡ w / 2 - 2 ^ i = omega (arith, pow-succ' 2 i, c.0) in
    (
      omega (arith, pow-succ' 2 i, c.0),
      bit_halved (w - 2 ^ suc i) i ∙ ap (λ t. bit_at t i) half ∙ c.1,
    )

-- A word with a bit set is a word.
pub set_bit_bound : (n i w : ℕ) → bit_at w i ≡ 0 → i < n → w < 2 ^ n → w + 2 ^ i < 2 ^ n
set_bit_bound zero i w h l b = elim l [ ]
set_bit_bound (suc n) zero w h l b = omega (arith, pow-succ' 2 n)
set_bit_bound (suc n) (suc i) w h l b = omega (
  arith,
  pow-succ' 2 n,
  pow-succ' 2 i,
  set_bit_bound n i (w / 2) (sym (bit_halved w i) ∙ h) (omega arith) (omega (arith, pow-succ' 2 n)),
)

-- `u64::trailing_ones`, of a word of `f` bits.
unfoldable pub trailing_ones : ℕ → ℕ → ℕ
trailing_ones zero w = 0
trailing_ones (suc f) w = let rest = trailing_ones f (w / 2) in if w % 2 == 1 then suc rest else 0

-- The lowest clear bit of a word that is not all ones.
pub trailing_ones_lem :
    (f w : ℕ)
    → suc w < 2 ^ f
    → (trailing_ones f w < f)
      × (bit_at w (trailing_ones f w) ≡ 0)
      × ((j : ℕ) → j < trailing_ones f w → bit_at w j ≡ 1)
unfolding trailing_ones
trailing_ones_lem zero w h = absurd (omega arith)
trailing_ones_lem (suc f) w h = elim (Bool-cases (w % 2 == 1)) [
  | inl b ↦
      let r = trailing_ones_lem f (w / 2) (ground (arith, pow-succ' 2 f)) in
      rw b (omega (arith, r.0), bit_halved w (trailing_ones f (w / 2)) ∙ r.1, below b r.2)
  | inr b ↦ rw b (omega arith, ground arith, λ j l. elim l [ ])
]
  where
    below :
        (w % 2 == 1) ≡ true
        → ((j : ℕ) → j < trailing_ones f (w / 2) → bit_at (w / 2) j ≡ 1)
        → (j : ℕ) → j < suc (trailing_ones f (w / 2))
        → bit_at w j ≡ 1
    below b g zero l = ground arith
    below b g (suc j) l = bit_halved w j ∙ g j (omega arith)

-- All ones.
pub all_ones : (f j w : ℕ) → suc w ≡ 2 ^ f → j < f → bit_at w j ≡ 1
all_ones zero j w h l = elim l [ ]
all_ones (suc f) zero w h l = omega (arith, pow-succ' 2 f)
all_ones (suc f) (suc j) w h l =
    bit_halved w j ∙ all_ones f j (w / 2) (omega (arith, pow-succ' 2 f)) (omega arith)
