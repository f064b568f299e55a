-- ===== src/EasyFs/Bitmap/Dealloc.antt =====
-- `Bitmap::dealloc` clears a bit that is set, and stops the kernel at one that is not.
use r_corev.Prelude.{
  ℕ, ◌+◌, ◌-◌, ◌*◌, ◌/◌, ◌%◌, ◌^◌, ◌<◌, ◌≡◌, ◌≢◌, refl, sym, ap, ◌∙◌, true, false, length,
  length-set, get_or, set, ltb, ◌==◌, if◌then◌else◌, bit_at, bit_and, and_bit, set_bit, clear_bit,
  ok, panic, arith, Bool-cases, inl, inr,
}
use native.Mathlib.Nat.{one-le-pow}
use r_corev.EasyFs.Bitmap.{BitmapBlock, Blocks, Bitmap, block_bits, dealloc, write_blocks, maximum}
use r_corev.EasyFs.Bitmap.Word.{get_or-set, AllWords-set, AllWords-get}
use r_corev.EasyFs.Bitmap.Alloc.{bit_in, IsValid}

and_none : (w k : ℕ) → bit_at w k ≡ 0 → ltb 0 (bit_and w (2 ^ k)) ≡ false
and_none w k h = ground (arith, and_bit k w, ap (λ (t : ℕ). t * 2 ^ k) h)

and_some : (w k : ℕ) → bit_at w k ≡ 1 → ltb 0 (bit_and w (2 ^ k)) ≡ true
and_some w k h = ground (arith, and_bit k w, ap (λ (t : ℕ). t * 2 ^ k) h, one-le-pow k 2)

-- The word without its bit `k`.
cleared : (w k j : ℕ) → bit_at w k ≡ 1 → bit_at (w - 2 ^ k) j ≡ (if k == j then 0 else bit_at w j)
cleared w k j h = elim (Bool-cases (k == j)) [
  | inl e ↦
      let kj : k ≡ j = ground arith in
      rw e (ap (λ t. bit_at (w - 2 ^ k) t) (sym kj) ∙ (clear_bit k w h).1)
  | inr e ↦
      let c = clear_bit k w h in
      let whole : w - 2 ^ k + 2 ^ k ≡ w = omega (arith, c.0) in
      let s = set_bit k j (w - 2 ^ k) c.1 in
      rw e (sym (sym (ap (λ t. bit_at t j) whole) ∙ s ∙ rw e refl))
]

-- Giving back a bit that is clear, of any bitmap, stops the kernel.
pub dealloc_clear :
    (m : Bitmap) (bit : ℕ) (d : Blocks) → bit_in m d bit ≡ 0 → dealloc m bit d ≡ panic
unfolding dealloc
dealloc_clear m bit d h =
    let same : bit % block_bits % 64 ≡ bit % 64 = omega arith in
    rw
      (
        same,
        and_none (get_or (d (bit / block_bits + m.start_block_id)) (bit % block_bits / 64) 0)
            (bit % 64) h,
      )
      refl

-- In a bitmap whose blocks have 64 words of 64 bits, a bit that is set can be given back: it is clear
-- afterwards, no other bit has changed, and the blocks have their form.
pub dealloc_set :
    (m : Bitmap) (bit : ℕ) (d : Blocks)
    → IsValid m d
    → bit < maximum m
    → bit_in m d bit ≡ 1
    → (d' : Blocks) × (dealloc m bit d ≡ ok d')
      × (bit_in m d' bit ≡ 0)
      × ((n : ℕ) → n ≢ bit → bit_in m d' n ≡ bit_in m d n)
      × IsValid m d'
unfolding dealloc maximum
dealloc_set m bit d v l h = (after, returns, now, others, valid)
  where
    block : BitmapBlock
    block = d (bit / block_bits + m.start_block_id)

    place : ℕ
    place = bit % block_bits / 64

    word : ℕ
    word = get_or block place 0

    after : Blocks
    after =
        write_blocks d (bit / block_bits + m.start_block_id)
          (set block place (word - 2 ^ (bit % 64)))

    inside_block : bit / block_bits < m.blocks
    inside_block = omega (arith, l)

    in_place : place < length block
    in_place = omega (arith, (v (bit / block_bits) inside_block).0)

    returns : dealloc m bit d ≡ ok after
    returns =
        let same : bit % block_bits % 64 ≡ bit % 64 = omega arith in
        rw (same, and_some word (bit % 64) h) refl

    bits :
        (n : ℕ)
        → n / block_bits ≡ bit / block_bits
        → bit_in m after n ≡ (
            if place == n % block_bits / 64
            then bit_at (word - 2 ^ (bit % 64)) (n % 64)
            else bit_in m d n)
    bits n e =
        let self : (bit / block_bits + m.start_block_id == bit / block_bits + m.start_block_id)
            ≡ true =
          ground arith in
        rw (e, self, get_or-set block place (n % block_bits / 64) (word - 2 ^ (bit % 64)) in_place)
          (elim (Bool-cases (place == n % block_bits / 64)) [
            | inl p ↦ rw p refl
            | inr p ↦ rw p refl
          ])

    now : bit_in m after bit ≡ 0
    now =
        let self : (place == place) ≡ true = ground arith in
        let same : (bit % 64 == bit % 64) ≡ true = ground arith in
        bits bit refl ∙ rw self (cleared word (bit % 64) (bit % 64) h ∙ rw same refl)

    same_group :
        (n : ℕ)
        → n ≢ bit
        → n / block_bits ≡ bit / block_bits
        → place ≡ n % block_bits / 64
        → bit_at (word - 2 ^ (bit % 64)) (n % 64) ≡ bit_in m d n
    same_group n ne at py =
        let same_word : word
            ≡ get_or (d (n / block_bits + m.start_block_id)) (n % block_bits / 64) 0 =
          ap (λ t. get_or (d (t + m.start_block_id)) place 0) (sym at)
          ∙ ap (λ t. get_or (d (n / block_bits + m.start_block_id)) t 0) py in
        cleared word (bit % 64) (n % 64) h ∙ elim (Bool-cases (bit % 64 == n % 64)) [
          | inl z ↦
              let kz : bit % 64 ≡ n % 64 = ground arith in absurd (ne (omega (arith, at, py, kz)))
          | inr z ↦ rw z (ap (λ t. bit_at t (n % 64)) same_word)
        ]

    others : (n : ℕ) → n ≢ bit → bit_in m after n ≡ bit_in m d n
    others n ne =
        elim (Bool-cases
          (bit / block_bits + m.start_block_id == n / block_bits + m.start_block_id)) [
            | inl x ↦
                let at : n / block_bits ≡ bit / block_bits = ground arith in
                bits n at ∙ elim (Bool-cases (place == n % block_bits / 64)) [
                  | inr y ↦ rw y refl
                  | inl y ↦ rw y (same_group n ne at (ground arith))
                ]
            | inr x ↦ rw x refl
          ]

    valid : IsValid m after
    valid j k = elim (Bool-cases (bit / block_bits + m.start_block_id == j + m.start_block_id)) [
      | inl x ↦
          let old = v (bit / block_bits) inside_block in
          rw x (
            length-set block place _ ∙ old.0,
            AllWords-set block place _ (omega (arith, AllWords-get block place old.1)) old.1,
          )
      | inr x ↦ rw x (v j k)
    ]
