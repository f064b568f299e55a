-- ===== src/EasyFs/Efs/Tests.antt =====
-- A small file system.
use r_corev.Prelude.{
  ℕ, ◌≡◌, refl, ◌≤◌, ◌+◌, ◌^◌, replicate, ok, arith, length-replicate, trailing_ones,
}
use r_corev.EasyFs.Bitmap
use r_corev.EasyFs.Bitmap.Alloc.{IsValid}
use r_corev.EasyFs.SuperBlock
use r_corev.EasyFs.Efs.{EasyFileSystem, Store, layout, create, alloc_data, dealloc_data, zero_inode}
use r_corev.EasyFs.Efs.Areas.{IsLaidOut, layout_lem}
use r_corev.EasyFs.Efs.Create.{Created, create_lem, zeros_valid}
use r_corev.EasyFs.Efs.Allocation.{GivesBack, dealloc_data-alloc_data}

abbrev device : Store
device = record {
  super_block = SuperBlock.initialize 0 0 0 0 0;
  words = λ b. replicate 64 0;
  inodes = λ b o. zero_inode;
  bytes = λ b i. b;
}

abbrev efs : EasyFileSystem
efs = record {
  inode_bitmap = record { start_block_id = 1; blocks = 1 };
  data_bitmap = record { start_block_id = 3; blocks = 1 };
  inode_area_start_block = 2;
  data_area_start_block = 4;
}

layout_lem_example : IsLaidOut 4096 (layout 4096 1).0 (layout 4096 1).1
layout_lem_example = layout_lem 4096 1 (omega arith) (omega arith)

create_lem_example : Created 4096 1 device (create 4096 1 device)
create_lem_example = create_lem 4096 1 device (omega arith) (omega arith) (omega arith)

device-IsValid : IsValid efs.data_bitmap device.words
device-IsValid i h = (length-replicate {A = ℕ} 64 0, zeros_valid 64)

bits_fit : efs.data_area_start_block + Bitmap.maximum efs.data_bitmap ≤ 2 ^ 32
unfolding Bitmap.maximum
bits_fit = omega arith

abbrev after : Store
after = record device { words = (Bitmap.alloc efs.data_bitmap device.words).1 }

taken : alloc_data efs device ≡ ok (4, after)
unfolding alloc_data Bitmap.alloc Bitmap.alloc_loop Bitmap.alloc_in Bitmap.find_free trailing_ones
taken = refl

dealloc_data-alloc_data_example : GivesBack efs 4 device after (dealloc_data efs 4 after)
dealloc_data-alloc_data_example =
    dealloc_data-alloc_data efs device 4 after device-IsValid (omega arith) bits_fit taken
