-- ===== src/EasyFs/Bitmap.antt =====
-- easy-fs/src/bitmap.rs. A block of the bitmap is a list of 64 words of 64 bits; the array of blocks
-- is what callers of the block cache see.
pub mod Word
pub mod Alloc
pub mod Dealloc
mod Tests
use r_corev.Prelude.{
  ℕ, zero, suc, ◌+◌, ◌-◌, ◌*◌, ◌/◌, ◌%◌, ◌^◌, Bool, not, Option, none, some, List, [], ◌∷◌, get_or,
  set, ltb, ◌==◌, if◌then◌else◌, bit_and, bit_or, trailing_ones, Run, ok, panic, ◌>>=◌, ◌>>◌,
  assert,
}
use r_corev.Config.{usize_mod}
use r_corev.EasyFs.Device.{block_sz}

abbrev pub block_bits : ℕ
block_bits = block_sz * 8

abbrev pub BitmapBlock : Type 0
BitmapBlock = List ℕ

abbrev pub Blocks : Type 0
Blocks = ℕ → BitmapBlock

pub record Bitmap : Type 0 where
  pub start_block_id : ℕ
  pub blocks : ℕ

abbrev pub decomposition : ℕ → ℕ × ℕ × ℕ
decomposition bit = (bit / block_bits, bit % block_bits / 64, bit % block_bits % 64)

abbrev pub word_max : ℕ
word_max = usize_mod - 1

-- The first group that is not all ones, and its lowest clear bit; the groups count from `pos`.
unfoldable pub find_free : ℕ → BitmapBlock → Option (ℕ × ℕ)
find_free pos [] = none
find_free pos (w ∷ ws) =
    let rest = find_free (pos + 1) ws in
    if not (w == word_max) then some (pos, trailing_ones 64 w) else rest

abbrev pub write_blocks : Blocks → ℕ → BitmapBlock → Blocks
write_blocks d i b j = if i == j then b else d j

-- The closure of `alloc` on one block.
unfoldable pub alloc_in : ℕ → BitmapBlock → Option ℕ × BitmapBlock
unfolding find_free
alloc_in block_id b = elim (find_free 0 b) [
  | none ↦ (none, b)
  | some (pos, inner) ↦ (
    some (block_id * block_bits + pos * 64 + inner),
    set b pos (bit_or (get_or b pos 0) (2 ^ inner % usize_mod)),
  )
]

-- The `n` blocks from `block_id` on.
unfoldable pub alloc_loop : ℕ → ℕ → Bitmap → Blocks → Option ℕ × Blocks
unfolding alloc_in
alloc_loop zero block_id m d = (none, d)
alloc_loop (suc n) block_id m d =
    let (pos, b) = alloc_in block_id (d (block_id + m.start_block_id)) in
    let d' = write_blocks d (block_id + m.start_block_id) b in
    let rest = alloc_loop n (block_id + 1) m d' in
    elim pos [ none ↦ rest | some bit ↦ (some bit, d') ]

unfoldable pub alloc : Bitmap → Blocks → Option ℕ × Blocks
unfolding alloc_loop
alloc m d = alloc_loop m.blocks 0 m d

unfoldable pub dealloc : Bitmap → ℕ → Blocks → Run Blocks
dealloc m bit d =
    let (block_pos, bits64_pos, inner_pos) = decomposition bit in
    let b = d (block_pos + m.start_block_id) in
    let w = get_or b bits64_pos 0 in
    assert (ltb 0 (bit_and w (2 ^ inner_pos)))
    >> ok (write_blocks d (block_pos + m.start_block_id) (set b bits64_pos (w - 2 ^ inner_pos)))

unfoldable pub maximum : Bitmap → ℕ
maximum m = m.blocks * block_bits
