-- ===== src/Mm/Pte.antt =====
-- `PageTableEntry` and `PTEFlags` of os/src/mm/page_table.rs: the page number stands above ten low
-- bits, the flags in the lowest eight.
pub mod Fields
use r_corev.Prelude.{ℕ, ◌-◌, ◌*◌, ◌/◌, ◌%◌, ◌^◌, Bool, not, bit_and, bit_or, ◌==◌}
use r_corev.Config.{usize_mod}

abbrev pub flag_v : ℕ
flag_v = 2 ^ 0

abbrev pub flag_r : ℕ
flag_r = 2 ^ 1

abbrev pub flag_w : ℕ
flag_w = 2 ^ 2

abbrev pub flag_x : ℕ
flag_x = 2 ^ 3

abbrev pub flag_u : ℕ
flag_u = 2 ^ 4

-- An entry is its `bits`; `new` shifts the page number in 64 bits.
unfoldable pub new : ℕ → ℕ → ℕ
new ppn flags = bit_or (ppn * 2 ^ 10 % usize_mod) flags

unfoldable pub empty : ℕ
empty = 0

unfoldable pub ppn : ℕ → ℕ
ppn bits = bit_and (bits / 2 ^ 10) (2 ^ 44 - 1)

-- All eight flags are named, so `from_bits` of a byte is never `None`.
unfoldable pub flags : ℕ → ℕ
flags bits = bits % 2 ^ 8

unfoldable pub has_flag : ℕ → ℕ → Bool
unfolding flags
has_flag bits f = not (bit_and (flags bits) f == 0)

unfoldable pub is_valid : ℕ → Bool
unfolding has_flag
is_valid bits = has_flag bits flag_v

unfoldable pub readable : ℕ → Bool
unfolding has_flag
readable bits = has_flag bits flag_r

unfoldable pub writable : ℕ → Bool
unfolding has_flag
writable bits = has_flag bits flag_w

unfoldable pub executable : ℕ → Bool
unfolding has_flag
executable bits = has_flag bits flag_x
