-- ===== src/EasyFs/Bitmap/Tests.antt =====
-- A bitmap of one block from block 1 on, with the first group full and bit 64 set.
use r_corev.Prelude.{ℕ, zero, suc, ◌≡◌, refl, ◌∷◌, replicate, arith, some, trailing_ones}
use r_corev.EasyFs.Bitmap.{Bitmap, Blocks, alloc, find_free, alloc_in, alloc_loop, word_max}
use r_corev.EasyFs.Bitmap.Word.{AllWords}
use r_corev.EasyFs.Bitmap.Alloc.{IsValid, Result, alloc_least}

abbrev area : Bitmap
area = record { start_block_id = 1; blocks = 1 }

abbrev disk : Blocks
disk i = word_max ∷ 1 ∷ replicate 62 0

disk-IsValid : IsValid area disk
disk-IsValid i h = (refl, words)
  where
    zeros : (n : ℕ) → AllWords (replicate n 0)
    zeros zero = tt
    zeros (suc n) = (omega arith, zeros n)

    words : AllWords (disk 1)
    words = (omega arith, (omega arith, zeros 62))

alloc_least_example : Result area disk (alloc area disk)
alloc_least_example = alloc_least area disk disk-IsValid

alloc_gives_65 : (alloc area disk).0 ≡ some 65
unfolding alloc alloc_loop alloc_in find_free trailing_ones
alloc_gives_65 = refl
