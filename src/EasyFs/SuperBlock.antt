-- ===== src/EasyFs/SuperBlock.antt =====
-- `SuperBlock` of easy-fs/src/layout.rs: the lengths of the areas of the disk.
use r_corev.Prelude.{ℕ, Bool, ◌==◌}

abbrev efs_magic : ℕ
efs_magic = 0x3b800001

pub record SuperBlock : Type 0 where
  pub magic : ℕ
  pub total_blocks : ℕ
  pub inode_bitmap_blocks : ℕ
  pub inode_area_blocks : ℕ
  pub data_bitmap_blocks : ℕ
  pub data_area_blocks : ℕ

unfoldable pub initialize : ℕ → ℕ → ℕ → ℕ → ℕ → SuperBlock
initialize total inode_bitmap inode_area data_bitmap data_area = record {
  magic = efs_magic;
  total_blocks = total;
  inode_bitmap_blocks = inode_bitmap;
  inode_area_blocks = inode_area;
  data_bitmap_blocks = data_bitmap;
  data_area_blocks = data_area;
}

unfoldable pub is_valid : SuperBlock → Bool
is_valid s = s.magic == efs_magic
