-- ===== src/EasyFs/DiskInode/Grow/Tests.antt =====
-- Files that grow.
use r_corev.Prelude.{ℕ, ◌≡◌, refl, List, ◌∷◌, replicate, ok, arith}
use r_corev.EasyFs.DiskInode.{DiskInode, file, blocks_num_needed}
use r_corev.EasyFs.DiskInode.Content.{Disk}
use r_corev.EasyFs.DiskInode.Grow.{Growth, grow_blocks, increase_size}
use r_corev.EasyFs.DiskInode.Grow.Steps.{add_blocks}
use r_corev.EasyFs.DiskInode.Grow.Stepwise.{grow_blocks_lem}
use r_corev.EasyFs.DiskInode.Grow.Needed.{Increased, increase_size_lem}

abbrev empty_disk : Disk
empty_disk b i = 0

abbrev one_block : DiskInode
one_block = record {
  size = 10;
  direct = 5 ∷ replicate 27 0;
  indirect1 = 0;
  indirect2 = 0;
  type_ = file;
}

-- From one data block to 29: 28 more and one index block.
abbrev new_blocks : List ℕ
new_blocks = replicate 30 9

needed_example : blocks_num_needed 14337 one_block ≡ ok 29
unfolding blocks_num_needed
needed_example = refl

increase_size_lem_example :
    Increased 14337 29 new_blocks one_block (increase_size 14337 new_blocks empty_disk one_block)
increase_size_lem_example =
    increase_size_lem 14337 29 new_blocks empty_disk one_block (omega arith) (omega arith)
      needed_example (omega arith)

abbrev start : Growth
start = record { inode = one_block; disk = empty_disk; new_blocks = new_blocks }

grow_blocks_lem_example : grow_blocks 1 29 start ≡ add_blocks 28 1 start
grow_blocks_lem_example = grow_blocks_lem 1 29 start (omega arith)
