-- ===== src/EasyFs/Bitmap/Alloc.antt =====
-- `Bitmap::alloc` hands out the least free bit of the bitmap, and `dealloc` gives a bit back.
use r_corev.Prelude.{
  ℕ, zero, suc, ◌+◌, ◌*◌, ◌/◌, ◌%◌, ◌<◌, ◌≡◌, ◌≢◌, refl, sym, ap, ◌∙◌, fun_ext, true, false, Option,
  none, some, length, length-set, ◌==◌, arith, Bool-cases, inl, inr,
}
use r_corev.EasyFs.Bitmap.{
  BitmapBlock, Blocks, Bitmap, block_bits, alloc_in, alloc_loop, alloc, write_blocks, maximum,
}
use r_corev.EasyFs.Bitmap.Word.{
  AllWords, bit_of, FirstFree, with_bit, bit_of-with_bit, with_bit-AllWords, InBlock,
  alloc_in-InBlock,
}

-- The bit `n` of the bitmap.
abbrev pub bit_in : Bitmap → Blocks → ℕ → ℕ
bit_in m d n = bit_of (d (n / block_bits + m.start_block_id)) (n % block_bits / 64) (n % 64)

-- Each block of the bitmap has 64 words of 64 bits.
abbrev pub IsValid : Bitmap → Blocks → Type 0
IsValid m d =
    (i : ℕ)
    → i < m.blocks
    → (length (d (i + m.start_block_id)) ≡ 64) × AllWords (d (i + m.start_block_id))

-- From `d` to `d'` the bit `bit` was set: it was the least clear one.
pub record Allocated (m : Bitmap) (d d' : Blocks) (bit : ℕ) : Type 0 where
  pub fits : bit < maximum m
  pub was : bit_in m d bit ≡ 0
  pub now : bit_in m d' bit ≡ 1
  pub others : (n : ℕ) → n ≢ bit → bit_in m d' n ≡ bit_in m d n
  pub least : (n : ℕ) → n < bit → bit_in m d n ≡ 1
  pub outside : (j : ℕ) → (bit / block_bits + m.start_block_id == j) ≡ false → d' j ≡ d j
  pub valid : IsValid m d'

abbrev pub Result : Bitmap → Blocks → Option ℕ × Blocks → Type 0
Result m d (none, d') = (d' ≡ d) × ((n : ℕ) → n < maximum m → bit_in m d n ≡ 1)
Result m d (some bit, d') = Allocated m d d' bit

-- All bits of the blocks before block `i` are set.
abbrev Full : Bitmap → Blocks → ℕ → Type 0
Full m d i = (n : ℕ) → n / block_bits < i → bit_in m d n ≡ 1

write_same : (d : Blocks) (i : ℕ) → write_blocks d i (d i) ≡ d
write_same d i = fun_ext λ j. at j
  where
    at : (j : ℕ) → write_blocks d i (d i) j ≡ d j
    at j = elim (Bool-cases (i == j)) [
      | inl e ↦ let ij : i ≡ j = ground arith in rw e (ap d ij)
      | inr e ↦ rw e refl
    ]

Full-next :
    (m : Bitmap) (d : Blocks) (i : ℕ)
    → Full m d i
    → length (d (i + m.start_block_id)) ≡ 64
    → ((q j : ℕ)
        → q < length (d (i + m.start_block_id))
        → j < 64
        → bit_of (d (i + m.start_block_id)) q j ≡ 1)
    → Full m d (i + 1)
Full-next m d i f l a n h = elim (Bool-cases (n / block_bits == i)) [
  | inl e ↦
      let ni : n / block_bits ≡ i = ground arith in
      rw ni (a (n % block_bits / 64) (n % 64) (omega (arith, l)) (omega arith))
  | inr e ↦ f n (ground arith)
]

-- Block `i` has the least clear bit.
Allocated-at :
    (m : Bitmap) (d : Blocks) (i p k bit : ℕ)
    → IsValid m d
    → i < m.blocks
    → Full m d i
    → bit ≡ i * block_bits + p * 64 + k
    → FirstFree (d (i + m.start_block_id)) p k
    → Allocated m d
        (write_blocks d (i + m.start_block_id) (with_bit (d (i + m.start_block_id)) p k))
        bit
unfolding maximum
Allocated-at m d i p k bit v h f e r = record {
  fits = omega (arith, bounds.0, bounds.1);
  was = rw (parts.0, parts.1, parts.2) r.clear;
  now = rw (parts.0, parts.1, parts.2) now;
  others = others;
  least = least;
  outside = λ j n. let n' : (i + m.start_block_id == j) ≡ false = rw parts.0 at n in rw n' refl;
  valid = valid;
}
  where
    bounds : (p < 64) × (k < 64)
    bounds = (omega (arith, r.place, (v i h).0), r.bit)

    parts : (bit / block_bits ≡ i) × (bit % block_bits / 64 ≡ p) × (bit % 64 ≡ k)
    parts = (
      omega (arith, bounds.0, bounds.1),
      omega (arith, bounds.0, bounds.1),
      omega (arith, bounds.0, bounds.1),
    )

    d' : Blocks
    d' = write_blocks d (i + m.start_block_id) (with_bit (d (i + m.start_block_id)) p k)

    now : bit_of (d' (i + m.start_block_id)) p k ≡ 1
    now =
        let self : (i + m.start_block_id == i + m.start_block_id) ≡ true = ground arith in
        let pp : (p == p) ≡ true = ground arith in
        let kk : (k == k) ≡ true = ground arith in
        rw self (bit_of-with_bit (d (i + m.start_block_id)) p k p k r ∙ rw (pp, kk) refl)

    in_block :
        (n : ℕ)
        → n ≢ bit
        → n / block_bits ≡ i
        → bit_of (with_bit (d (i + m.start_block_id)) p k) (n % block_bits / 64) (n % 64)
          ≡ bit_of (d (i + m.start_block_id)) (n % block_bits / 64) (n % 64)
    in_block n ne at =
        bit_of-with_bit (d (i + m.start_block_id)) p k (n % block_bits / 64) (n % 64) r
        ∙ elim (Bool-cases (p == n % block_bits / 64)) [
          | inr y ↦ rw y refl
          | inl y ↦ elim (Bool-cases (k == n % 64)) [
            | inr z ↦ rw (y, z) refl
            | inl z ↦
                let py : p ≡ n % block_bits / 64 = ground arith in
                let kz : k ≡ n % 64 = ground arith in
                absurd (ne (omega (arith, bounds.0, bounds.1)))
          ]
        ]

    others : (n : ℕ) → n ≢ bit → bit_in m d' n ≡ bit_in m d n
    others n ne = elim (Bool-cases (i + m.start_block_id == n / block_bits + m.start_block_id)) [
      | inl x ↦
          let at : n / block_bits ≡ i = ground arith in
          rw x (
            in_block n ne at
            ∙ ap (λ t. bit_of (d (t + m.start_block_id)) (n % block_bits / 64) (n % 64)) (sym at))
      | inr x ↦ rw x refl
    ]

    least : (n : ℕ) → n < bit → bit_in m d n ≡ 1
    least n l = elim (Bool-cases (n / block_bits == i)) [
      | inr x ↦ f n (ground (arith, bounds.0, bounds.1))
      | inl x ↦
          let at : n / block_bits ≡ i = ground arith in
          rw at (elim (Bool-cases (n % block_bits / 64 == p)) [
            | inl y ↦
                let py : n % block_bits / 64 ≡ p = ground arith in
                rw py (r.low (n % 64) (omega (arith, bounds.0, bounds.1)))
            | inr y ↦
                r.before (n % block_bits / 64) (n % 64) (ground (arith, bounds.0, bounds.1))
                  (omega arith)
          ])
    ]

    valid : IsValid m d'
    valid j l = elim (Bool-cases (i + m.start_block_id == j + m.start_block_id)) [
      | inl x ↦ rw x (
        length-set (d (i + m.start_block_id)) p _ ∙ (v i h).0,
        with_bit-AllWords (d (i + m.start_block_id)) p k (v i h).1 r,
      )
      | inr x ↦ rw x (v j l)
    ]

loop_none :
    (n i : ℕ) (m : Bitmap) (d : Blocks)
    → alloc_in i (d (i + m.start_block_id)) ≡ (none, d (i + m.start_block_id))
    → alloc_loop (suc n) i m d ≡ alloc_loop n (i + 1) m d
unfolding alloc_loop
loop_none n i m d h =
    rw (h, alloc_loop)
      (ap (λ t. alloc_loop n (i + 1) m (write_blocks d (i + m.start_block_id) t)) (ap (λ r. r.1) h)
        ∙ ap (λ t. alloc_loop n (i + 1) m t) (write_same d (i + m.start_block_id)))

loop_some :
    (n i bit : ℕ) (b : BitmapBlock) (m : Bitmap) (d : Blocks)
    → alloc_in i (d (i + m.start_block_id)) ≡ (some bit, b)
    → alloc_loop (suc n) i m d ≡ (some bit, write_blocks d (i + m.start_block_id) b)
unfolding alloc_loop
loop_some n i bit b m d h =
    rw (h, alloc_loop)
      (ap (λ t. (some bit, write_blocks d (i + m.start_block_id) t)) (ap (λ r. r.1) h))

-- One round of the loop, by what it finds in block `i`.
at_block :
    (n i : ℕ) (m : Bitmap) (d : Blocks)
    → IsValid m d
    → i < m.blocks
    → Full m d i
    → (r : Option ℕ × BitmapBlock) → alloc_in i (d (i + m.start_block_id)) ≡ r
    → InBlock i (d (i + m.start_block_id)) r
    → (Full m d (i + 1) → Result m d (alloc_loop n (i + 1) m d))
    → Result m d (alloc_loop (suc n) i m d)
at_block n i m d v h f (none, b) e (same, full) rest =
    rw (loop_none n i m d (e ∙ ap (λ t. (none, t)) same)) (rest (Full-next m d i f (v i h).0 full))
at_block n i m d v h f (some bit, b) e (p, k, at, r, same) rest =
    rw (loop_some n i bit b m d e, same) (Allocated-at m d i p k bit v h f at r)

alloc_loop-Result :
    (n i : ℕ) (m : Bitmap) (d : Blocks)
    → IsValid m d
    → i + n ≡ m.blocks
    → Full m d i
    → Result m d (alloc_loop n i m d)
unfolding alloc_loop maximum
alloc_loop-Result zero i m d v e f = (refl, λ n l. f n (omega (arith, l)))
alloc_loop-Result (suc n) i m d v e f =
    at_block n i m d v (omega arith) f (alloc_in i (d (i + m.start_block_id))) refl
      (alloc_in-InBlock i (d (i + m.start_block_id)) (v i (omega arith)).1)
      (alloc_loop-Result n (i + 1) m d v (omega arith))

-- In a bitmap whose blocks have 64 words of 64 bits, `alloc` returns the least bit that is clear, sets
-- it and changes no other bit and no block outside of the bitmap; it returns nothing, and changes
-- nothing, exactly when all bits of the bitmap are set.
pub alloc_least : (m : Bitmap) (d : Blocks) → IsValid m d → Result m d (alloc m d)
unfolding alloc
alloc_least m d v = alloc_loop-Result m.blocks 0 m d v (omega arith) λ n l. absurd (omega arith)
