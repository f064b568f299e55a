-- ===== src/EasyFs/Bitmap/Word.antt =====
-- One block of the bitmap: `alloc_in` sets its lowest clear bit.
use r_corev.Prelude.{
  ℕ, zero, suc, ◌+◌, ◌*◌, ◌%◌, ◌^◌, ◌<◌, ◌≡◌, refl, ap, ◌∙◌, true, false, Option, none, some, [],
  ◌∷◌, length, get_or, set, ◌==◌, if◌then◌else◌, bit_at, bit_or, or_bit, set_bit, set_bit_bound,
  trailing_ones, trailing_ones_lem, all_ones, arith, Bool-cases, Option-cases, inl, inr,
}
use r_corev.Config.{usize_mod}
use r_corev.EasyFs.Bitmap.{BitmapBlock, block_bits, word_max, find_free, alloc_in}

abbrev pub AllWords : BitmapBlock → Type 0
AllWords [] = Unit {0}
AllWords (w ∷ ws) = (w < usize_mod) × AllWords ws

-- The bit `k` of group `p` of a block.
abbrev pub bit_of : BitmapBlock → ℕ → ℕ → ℕ
bit_of b p k = bit_at (get_or b p 0) k

-- Group `p` has the clear bit `k`, and all bits before are set.
pub record FirstFree (b : BitmapBlock) (p k : ℕ) : Type 0 where
  pub place : p < length b
  pub bit : k < 64
  pub clear : bit_of b p k ≡ 0
  pub low : (j : ℕ) → j < k → bit_of b p j ≡ 1
  pub before : (q j : ℕ) → q < p → j < 64 → bit_of b q j ≡ 1

FirstFree-here :
    (w : ℕ) (ws : BitmapBlock)
    → w < usize_mod
    → (w == word_max) ≡ false
    → FirstFree (w ∷ ws) 0 (trailing_ones 64 w)
FirstFree-here w ws h n =
    let t = trailing_ones_lem 64 w (ground arith) in
    record {
      place = omega arith;
      bit = t.0;
      clear = t.1;
      low = t.2;
      before = λ q j l m. absurd (omega arith);
    }

FirstFree-cons :
    (w : ℕ) (ws : BitmapBlock) (p k : ℕ)
    → (w == word_max) ≡ true
    → FirstFree ws p k
    → FirstFree (w ∷ ws) (suc p) k
FirstFree-cons w ws p k n f = record {
  place = omega (arith, f.place);
  bit = f.bit;
  clear = f.clear;
  low = f.low;
  before = before;
}
  where
    before : (q j : ℕ) → q < suc p → j < 64 → bit_of (w ∷ ws) q j ≡ 1
    before zero j l m = all_ones 64 j w (ground arith) m
    before (suc q) j l m = f.before q j (omega arith) m

-- What `find_free` finds, counted from `pos`.
abbrev Found : ℕ → BitmapBlock → Option (ℕ × ℕ) → Type 0
Found pos b none = (q j : ℕ) → q < length b → j < 64 → bit_of b q j ≡ 1
Found pos b (some (p, k)) = (i : ℕ) × (p ≡ pos + i) × FirstFree b i k

Found-full :
    (pos w : ℕ) (ws : BitmapBlock) (r : Option (ℕ × ℕ))
    → (w == word_max) ≡ true
    → Found (pos + 1) ws r
    → Found pos (w ∷ ws) r
Found-full pos w ws none n f = later
  where
    later : (q j : ℕ) → q < suc (length ws) → j < 64 → bit_of (w ∷ ws) q j ≡ 1
    later zero j l m = all_ones 64 j w (ground arith) m
    later (suc q) j l m = f q j (omega arith) m
Found-full pos w ws (some (p, k)) n (i, e, f) = (suc i, omega arith, FirstFree-cons w ws i k n f)

find_free-Found : (pos : ℕ) (b : BitmapBlock) → AllWords b → Found pos b (find_free pos b)
unfolding find_free
find_free-Found pos [] h = λ q j l m. absurd (omega arith)
find_free-Found pos (w ∷ ws) h = elim (Bool-cases (w == word_max)) [
  | inl n ↦ rw n (Found-full pos w ws (find_free (pos + 1) ws) n (find_free-Found (pos + 1) ws h.1))
  | inr n ↦ rw n (0, omega arith, FirstFree-here w ws h.0 n)
]

bit_at_zero : (k : ℕ) → bit_at 0 k ≡ 0
bit_at_zero k = omega arith

pub get_or-set :
    (b : BitmapBlock) (p q v : ℕ)
    → p < length b
    → get_or (set b p v) q 0 ≡ (if p == q then v else get_or b q 0)
get_or-set [] p q v h = absurd (omega arith)
get_or-set (w ∷ ws) zero zero v h = refl
get_or-set (w ∷ ws) zero (suc q) v h = let n : (0 == suc q) ≡ false = ground arith in rw n refl
get_or-set (w ∷ ws) (suc p) zero v h = let n : (suc p == 0) ≡ false = ground arith in rw n refl
get_or-set (w ∷ ws) (suc p) (suc q) v h =
    let n : (suc p == suc q) ≡ (p == q) = ground arith in rw n (get_or-set ws p q v (omega arith))

pub AllWords-set : (b : BitmapBlock) (p v : ℕ) → v < usize_mod → AllWords b → AllWords (set b p v)
AllWords-set [] p v h a = tt
AllWords-set (w ∷ ws) zero v h a = (h, a.1)
AllWords-set (w ∷ ws) (suc p) v h a = (a.0, AllWords-set ws p v h a.1)

pub AllWords-get : (b : BitmapBlock) (p : ℕ) → AllWords b → get_or b p 0 < usize_mod
AllWords-get [] p a = omega arith
AllWords-get (w ∷ ws) zero a = a.0
AllWords-get (w ∷ ws) (suc p) a = AllWords-get ws p a.1

-- The block after bit `k` of group `p` is set.
abbrev pub with_bit : BitmapBlock → ℕ → ℕ → BitmapBlock
with_bit b p k = set b p (bit_or (get_or b p 0) (2 ^ k % usize_mod))

with_bit_sum :
    (b : BitmapBlock) (p k : ℕ)
    → FirstFree b p k
    → bit_or (get_or b p 0) (2 ^ k % usize_mod) ≡ get_or b p 0 + 2 ^ k
with_bit_sum b p k f =
    let one_bit : 2 ^ k < 2 ^ 64 =
      omega (arith, set_bit_bound 64 k 0 (bit_at_zero k) f.bit (omega arith)) in
    let e : 2 ^ k % usize_mod ≡ 2 ^ k = omega arith in rw e (or_bit k (get_or b p 0) f.clear)

pub bit_of-with_bit :
    (b : BitmapBlock) (p k q j : ℕ)
    → FirstFree b p k
    → bit_of (with_bit b p k) q j
      ≡ (if p == q then (if k == j then 1 else bit_of b q j) else bit_of b q j)
bit_of-with_bit b p k q j f =
    ap (λ w. bit_at w j) (get_or-set b p q (bit_or (get_or b p 0) (2 ^ k % usize_mod)) f.place)
    ∙ elim (Bool-cases (p == q)) [
      | inl e ↦
          let pq : p ≡ q = ground arith in
          rw (e, with_bit_sum b p k f) (rw (← pq) (set_bit k j (get_or b p 0) f.clear))
      | inr e ↦ rw e refl
    ]

pub with_bit-AllWords :
    (b : BitmapBlock) (p k : ℕ) → AllWords b → FirstFree b p k → AllWords (with_bit b p k)
with_bit-AllWords b p k a f =
    AllWords-set b p (bit_or (get_or b p 0) (2 ^ k % usize_mod))
      (rw (with_bit_sum b p k f)
        (set_bit_bound 64 k (get_or b p 0) f.clear f.bit (AllWords-get b p a)))
      a

-- What `alloc` does to block `i`.
abbrev pub InBlock : ℕ → BitmapBlock → Option ℕ × BitmapBlock → Type 0
InBlock i b (none, b') = (b' ≡ b) × ((q j : ℕ) → q < length b → j < 64 → bit_of b q j ≡ 1)
InBlock i b (some bit, b') =
    (p : ℕ) × (k : ℕ) × (bit ≡ i * block_bits + p * 64 + k)
    × FirstFree b p k
    × (b' ≡ with_bit b p k)

alloc_in-none : (i : ℕ) (b : BitmapBlock) → find_free 0 b ≡ none → alloc_in i b ≡ (none, b)
unfolding alloc_in
alloc_in-none i b n = rw (n, alloc_in) refl

alloc_in-some :
    (i p k : ℕ) (b : BitmapBlock)
    → find_free 0 b ≡ some (p, k)
    → alloc_in i b ≡ (some (i * block_bits + p * 64 + k), with_bit b p k)
unfolding alloc_in
alloc_in-some i p k b n = rw (n, alloc_in) refl

pub alloc_in-InBlock : (i : ℕ) (b : BitmapBlock) → AllWords b → InBlock i b (alloc_in i b)
alloc_in-InBlock i b a = elim (Option-cases (find_free 0 b)) [
  | inl n ↦ let f = find_free-Found 0 b a in rw (alloc_in-none i b n) (refl, rw n at f)
  | inr ((p, k), n) ↦
      let f = find_free-Found 0 b a in rw (alloc_in-some i p k b n) (found p k (rw n at f))
]
  where
    found :
        (p k : ℕ)
        → Found 0 b (some (p, k))
        → InBlock i b (some (i * block_bits + p * 64 + k), with_bit b p k)
    found p k (t, e, f) = let pt : t ≡ p = omega arith in (p, k, refl, rw pt at f, refl)
