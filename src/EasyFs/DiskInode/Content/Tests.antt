-- ===== src/EasyFs/DiskInode/Content/Tests.antt =====
-- Reads and writes of small files.
use r_corev.Prelude.{ℕ, zero, suc, ◌+◌, ◌<◌, ◌≡◌, refl, List, [], ◌∷◌, replicate, ok, arith}
use r_corev.EasyFs.DiskInode.{DiskInode, file}
use r_corev.EasyFs.DiskInode.Entries.{block_at}
use r_corev.EasyFs.DiskInode.Content.{Disk, index_of, read_at, write_at}
use r_corev.EasyFs.DiskInode.Content.Separate.{IsSeparate}
use r_corev.EasyFs.DiskInode.Content.Reading.{read_at_lem}
use r_corev.EasyFs.DiskInode.Content.Writing.{Wrote, write_at_lem}

-- Every byte of a block is the number of the block.
abbrev numbered : Disk
numbered b i = b

abbrev two_blocks : DiskInode
two_blocks = record {
  size = 600;
  direct = 5 ∷ 6 ∷ replicate 26 0;
  indirect1 = 0;
  indirect2 = 0;
  type_ = file;
}

abbrev four_bytes : List ℕ
four_bytes = 1 ∷ 2 ∷ 3 ∷ 4 ∷ []

abbrev four_zeros : List ℕ
four_zeros = 0 ∷ 0 ∷ 0 ∷ 0 ∷ []

two_blocks_at : (i : ℕ) → i < 2 → block_at (index_of numbered) two_blocks i ≡ 5 + i
two_blocks_at zero h = refl
two_blocks_at (suc zero) h = refl
two_blocks_at (suc (suc i)) h = absurd (omega arith)

two_blocks-IsSeparate : IsSeparate (index_of numbered) two_blocks 2
two_blocks-IsSeparate = record {
  distinct = λ i j hi hj e. omega (arith, two_blocks_at i hi, two_blocks_at j hj, e);
  first = λ i j hi hj h. absurd (omega arith);
  second = λ i j hi hj h. absurd (omega arith);
  third = λ i j hi hj h. absurd (omega arith);
}

-- Across the bound of two blocks.
read_at_lem_example : read_at 510 four_zeros numbered two_blocks ≡ ok (4, 5 ∷ 5 ∷ 6 ∷ 6 ∷ [])
read_at_lem_example = read_at_lem 510 four_zeros numbered two_blocks (omega arith) (omega arith)

write_at_lem_example :
    Wrote 510 four_bytes numbered two_blocks 2 (write_at 510 four_bytes numbered two_blocks)
write_at_lem_example =
    write_at_lem 510 2 four_bytes numbered two_blocks (omega arith) (omega arith)
      two_blocks-IsSeparate (omega arith) (omega arith) (omega arith)

-- A read behind the end of the file.
read_behind : read_at 600 four_zeros numbered two_blocks ≡ ok (0, four_zeros)
unfolding read_at
read_behind = refl
