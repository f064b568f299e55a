-- ===== src/EasyFs/Efs.antt =====
-- easy-fs/src/efs.rs. A block of the device is seen through the type at which the code reads it: words
-- for the bitmaps, inodes at the offsets of a block, bytes for the data blocks. A block that is
-- cleared is cleared in each of these views.
pub mod Areas
pub mod Create
pub mod Allocation
mod Tests
use r_corev.Prelude.{
  ℕ, zero, suc, ◌+◌, ◌-◌, ◌*◌, ◌/◌, ◌%◌, Bool, true, false, Option, none, some, List, [], ◌∷◌,
  replicate, ◌==◌, if◌then◌else◌, Run, ok, panic, ◌>>=◌, ◌>>◌, assert, unwrap,
}
use r_corev.EasyFs.Device.{block_sz}
use r_corev.EasyFs.Bitmap
use r_corev.EasyFs.Bitmap.{Bitmap, Blocks}
use r_corev.EasyFs.SuperBlock
use r_corev.EasyFs.SuperBlock.{SuperBlock}
use r_corev.EasyFs.DiskInode
use r_corev.EasyFs.DiskInode.{DiskInode, u32_mod, file, directory}
use r_corev.EasyFs.DiskInode.Content.{Disk}

pub record Store : Type 0 where
  pub super_block : SuperBlock
  pub words : Blocks
  pub inodes : ℕ → ℕ → DiskInode
  pub bytes : Disk

pub record EasyFileSystem : Type 0 where
  pub inode_bitmap : Bitmap
  pub data_bitmap : Bitmap
  pub inode_area_start_block : ℕ
  pub data_area_start_block : ℕ

-- Arithmetic of `u32` wraps, as in a release build.
abbrev pub add : ℕ → ℕ → ℕ
add a b = (a + b) % u32_mod

abbrev pub sub : ℕ → ℕ → ℕ
sub a b = (a + u32_mod - b) % u32_mod

-- `core::mem::size_of::<DiskInode>()`.
abbrev pub inode_size : ℕ
inode_size = 128

-- What an inode of zero bytes is.
abbrev pub zero_inode : DiskInode
zero_inode = record {
  size = 0;
  direct = replicate 28 0;
  indirect1 = 0;
  indirect2 = 0;
  type_ = file;
}

abbrev pub clear_block : ℕ → Store → Store
clear_block b s = record s {
  words = λ c. if c == b then replicate 64 0 else s.words c;
  inodes = λ c o. if c == b then zero_inode else s.inodes c o;
  bytes = λ c i. if c == b then 0 else s.bytes c i;
}

-- `for i in 0..total_blocks`, the `n` blocks from `i` on.
abbrev pub clear_all : ℕ → ℕ → Store → Store
clear_all i zero s = s
clear_all i (suc n) s = clear_all (i + 1) n (clear_block i s)

unfoldable pub alloc_inode : EasyFileSystem → Store → Run (ℕ × Store)
alloc_inode efs s =
    let (found, words) = Bitmap.alloc efs.inode_bitmap s.words in
    unwrap found >>= λ bit. ok (bit % u32_mod, record s { words = words })

unfoldable pub alloc_data : EasyFileSystem → Store → Run (ℕ × Store)
alloc_data efs s =
    let (found, words) = Bitmap.alloc efs.data_bitmap s.words in
    unwrap found >>= λ bit.
    ok (add (bit % u32_mod) efs.data_area_start_block, record s { words = words })

unfoldable pub dealloc_data : EasyFileSystem → ℕ → Store → Run Store
dealloc_data efs block_id s =
    let s' = clear_block block_id s in
    Bitmap.dealloc efs.data_bitmap (sub block_id efs.data_area_start_block) s'.words >>= λ words.
    ok (record s' { words = words })

-- The block and the offset of an inode.
unfoldable pub get_disk_inode_pos : EasyFileSystem → ℕ → ℕ × ℕ
get_disk_inode_pos efs inode_id =
    let inodes_per_block = block_sz / inode_size in
    (
      add efs.inode_area_start_block (inode_id / inodes_per_block),
      inode_id % inodes_per_block * inode_size,
    )

unfoldable pub get_data_block_id : EasyFileSystem → ℕ → ℕ
get_data_block_id efs data_block_id = add efs.data_area_start_block data_block_id

abbrev pub put_inode : ℕ × ℕ → DiskInode → Store → Store
put_inode (b, o) d s = record s {
  inodes = λ c p. if c == b then (if p == o then d else s.inodes c p) else s.inodes c p;
}

-- The areas that `create` lays out and what the super block says of them.
unfoldable pub layout : ℕ → ℕ → EasyFileSystem × SuperBlock
layout total inode_bitmap_blocks =
    let bits : Bitmap = record { start_block_id = 1; blocks = inode_bitmap_blocks } in
    let inode_num = Bitmap.maximum bits in
    let inode_area_blocks = (inode_num * inode_size + block_sz - 1) / block_sz % u32_mod in
    let inode_total_blocks = add inode_bitmap_blocks inode_area_blocks in
    let data_total_blocks = sub (sub total 1) inode_total_blocks in
    let data_bitmap_blocks = add data_total_blocks 4096 / 4097 in
    let data_area_blocks = sub data_total_blocks data_bitmap_blocks in
    (
      record {
        inode_bitmap = bits;
        data_bitmap = record {
          start_block_id = add (add 1 inode_bitmap_blocks) inode_area_blocks;
          blocks = data_bitmap_blocks;
        };
        inode_area_start_block = add 1 inode_bitmap_blocks;
        data_area_start_block = add (add 1 inode_total_blocks) data_bitmap_blocks;
      },
      SuperBlock.initialize total inode_bitmap_blocks inode_area_blocks data_bitmap_blocks
          data_area_blocks,
    )

unfoldable pub create : ℕ → ℕ → Store → Run (EasyFileSystem × Store)
unfolding layout alloc_inode get_disk_inode_pos
create total inode_bitmap_blocks s =
    let (efs, super_block) = layout total inode_bitmap_blocks in
    alloc_inode efs (record (clear_all 0 total s) { super_block = super_block }) >>= λ r.
    assert (r.0 == 0)
    >> (let root = get_disk_inode_pos efs 0 in
        let d = DiskInode.initialize directory (r.1.inodes root.0 root.1) in
        ok (efs, put_inode root d r.1))

unfoldable pub open_ : Store → Run EasyFileSystem
open_ s =
    let b = s.super_block in
    assert (SuperBlock.is_valid b)
    >> (let inode_total_blocks = add b.inode_bitmap_blocks b.inode_area_blocks in
        ok (record {
          inode_bitmap = record { start_block_id = 1; blocks = b.inode_bitmap_blocks };
          data_bitmap = record {
            start_block_id = add 1 inode_total_blocks;
            blocks = b.data_bitmap_blocks;
          };
          inode_area_start_block = add 1 b.inode_bitmap_blocks;
          data_area_start_block = add (add 1 inode_total_blocks) b.data_bitmap_blocks;
        }))
