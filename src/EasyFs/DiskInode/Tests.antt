-- ===== src/EasyFs/DiskInode/Tests.antt =====
-- A file of 14600 bytes: 28 direct blocks and one behind the first index block.
use r_corev.Prelude.{◌+◌, ◌≡◌, refl, ◌∷◌, replicate, arith}
use r_corev.EasyFs.DiskInode.{
  DiskInode, file, Index, data_blocks, data_blocks_of, total_blocks, clear_size,
}
use r_corev.EasyFs.DiskInode.Clear.{Cleared, clear_size_lem}

abbrev inode : DiskInode
inode = record {
  size = 14600;
  direct = 5 ∷ replicate 27 6;
  indirect1 = 40;
  indirect2 = 0;
  type_ = file;
}

abbrev index : Index
index block i = block + i + 1

clear_size_lem_example :
    Cleared index inode (data_blocks inode) (total_blocks inode.size) (clear_size index inode)
unfolding data_blocks data_blocks_of
clear_size_lem_example = clear_size_lem index inode (omega arith) (omega arith)

total_30 : total_blocks 14600 ≡ 30
unfolding total_blocks data_blocks_of
total_30 = refl
