-- ===== src/EasyFs/Efs/Areas.antt =====
-- The areas that `create` lays out follow each other and fill the device.
use r_corev.Prelude.{ℕ, ◌+◌, ◌*◌, ◌≤◌, ◌<◌, ◌≡◌, refl, arith}
use r_corev.EasyFs.Device.{block_sz}
use r_corev.EasyFs.Bitmap
use r_corev.EasyFs.Bitmap.{Bitmap}
use r_corev.EasyFs.SuperBlock
use r_corev.EasyFs.SuperBlock.{SuperBlock}
use r_corev.EasyFs.DiskInode.{u32_mod}
use r_corev.EasyFs.Efs.{EasyFileSystem, layout, get_disk_inode_pos, inode_size}

-- The super block, the bitmap of the inodes, the inodes, the bitmap of the data and the data follow
-- each other.
pub record IsLaidOut (total : ℕ) (efs : EasyFileSystem) (b : SuperBlock) : Type 0 where
  inode_bitmap : efs.inode_bitmap.start_block_id ≡ 1
  inode_area : efs.inode_area_start_block ≡ 1 + b.inode_bitmap_blocks
  data_bitmap : efs.data_bitmap.start_block_id ≡ 1 + b.inode_bitmap_blocks + b.inode_area_blocks
  data_area : efs.data_area_start_block ≡ efs.data_bitmap.start_block_id + b.data_bitmap_blocks
  end : efs.data_area_start_block + b.data_area_blocks ≡ total
  inode_bits : efs.inode_bitmap.blocks ≡ b.inode_bitmap_blocks
  data_bits : efs.data_bitmap.blocks ≡ b.data_bitmap_blocks
  -- Each inode that the bitmap can give has a place in the area of the inodes.
  inodes_fit :
      (i : ℕ)
      → i < Bitmap.maximum efs.inode_bitmap
      → ((get_disk_inode_pos efs i).0 < efs.data_bitmap.start_block_id)
        × (efs.inode_area_start_block ≤ (get_disk_inode_pos efs i).0)
        × ((get_disk_inode_pos efs i).1 + inode_size ≤ block_sz)
  -- Each data block has a bit, and less than one block of bits is left over.
  enough : b.data_area_blocks ≤ Bitmap.maximum efs.data_bitmap
  tight : Bitmap.maximum efs.data_bitmap ≤ b.data_area_blocks + 4097

-- For a device of at least `1 + 1025 * inode_bitmap_blocks` blocks and less than `2 ^ 32 - 4096`, the areas of the
-- super block, the inode bitmap, the inodes, the data bitmap and the data follow each other and end at
-- `total`; each inode of the bitmap has a place inside of a block of the inodes; and the data bitmap has
-- a bit for each data block.
pub layout_lem :
    (total inode_bitmap_blocks : ℕ)
    → 1 + 1025 * inode_bitmap_blocks ≤ total
    → total + 4096 < u32_mod
    → IsLaidOut total (layout total inode_bitmap_blocks).0 (layout total inode_bitmap_blocks).1
unfolding layout get_disk_inode_pos SuperBlock.initialize Bitmap.maximum
layout_lem total n h u = record {
  inode_bitmap = refl;
  inode_area = omega arith;
  data_bitmap = omega arith;
  data_area = omega arith;
  end = omega arith;
  inode_bits = refl;
  data_bits = refl;
  inodes_fit = λ i l. (omega arith, omega arith, omega arith);
  enough = omega arith;
  tight = omega arith;
}
