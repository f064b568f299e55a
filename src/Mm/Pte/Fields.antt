-- ===== src/Mm/Pte/Fields.antt =====
-- The fields of a page table entry.
use r_corev.Prelude.{
  ℕ, ◌+◌, ◌*◌, ◌/◌, ◌%◌, ◌^◌, ◌<◌, ◌≡◌, refl, ◌∙◌, true, false, not, bit_or, and_mask, or_field,
  bit_at, and_bit, or_one, ◌==◌, arith,
}
use r_corev.Config.{usize_mod}
use r_corev.Mm.Pte.{
  flag_v, new, empty, ppn, flags, has_flag, is_valid, readable, writable, executable,
}

new_sum : (n f : ℕ) → n < 2 ^ 44 → f < 2 ^ 8 → new n f ≡ n * 2 ^ 10 + f
unfolding new
new_sum n f hn hf =
    let e : n * 2 ^ 10 % usize_mod ≡ n * 2 ^ 10 = omega arith in
    rw e (or_field 10 n f (omega arith))

-- The page number and the flags of a new entry are the ones that it was made of.
pub new_fields : (n f : ℕ) → n < 2 ^ 44 → f < 2 ^ 8 → (ppn (new n f) ≡ n) × (flags (new n f) ≡ f)
unfolding ppn flags
new_fields n f hn hf = (
  and_mask 44 (new n f / 2 ^ 10) ∙ omega (arith, new_sum n f hn hf),
  omega (arith, new_sum n f hn hf),
)

flag_test : (bits i : ℕ) → has_flag bits (2 ^ i) ≡ not (bit_at (flags bits) i * 2 ^ i == 0)
unfolding has_flag
flag_test bits i = rw (and_bit i (flags bits)) refl

-- The four tests read the bits 0 to 3.
pub flag_bits :
    (bits : ℕ)
    → (is_valid bits ≡ (bits % 2 == 1))
      × (readable bits ≡ (bits / 2 % 2 == 1))
      × (writable bits ≡ (bits / 4 % 2 == 1))
      × (executable bits ≡ (bits / 8 % 2 == 1))
unfolding is_valid readable writable executable flags
flag_bits bits = (
  flag_test bits 0 ∙ ground arith,
  flag_test bits 1 ∙ ground arith,
  flag_test bits 2 ∙ ground arith,
  flag_test bits 3 ∙ ground arith,
)

-- `flags | V` keeps the other flags and sets the lowest bit.
pub or_valid : (f : ℕ) → bit_or f flag_v ≡ f / 2 * 2 + 1
or_valid f = or_one f

-- For a page number of 44 bits and flags of 8, a mapping entry is valid, and maps to its page with its flags and `V`.
pub new_valid :
    (n f : ℕ)
    → n < 2 ^ 44
    → f < 2 ^ 8
    → (is_valid (new n (bit_or f flag_v)) ≡ true)
      × (ppn (new n (bit_or f flag_v)) ≡ n)
      × (flags (new n (bit_or f flag_v)) ≡ f / 2 * 2 + 1)
new_valid n f hn hf =
    let e = new_fields n (f / 2 * 2 + 1) hn (omega arith) in
    rw (or_valid f) (
      (flag_bits (new n (f / 2 * 2 + 1))).0 ∙ ground (arith, new_sum n (f / 2 * 2 + 1) hn),
      e.0,
      e.1,
    )

pub empty_invalid : is_valid empty ≡ false
unfolding is_valid empty
empty_invalid = refl
