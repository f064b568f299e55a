-- ===== src/EasyFs/Vfs/Tests.antt =====
-- A root directory with two files.
use r_corev.Prelude.{
  ℕ, ◌≡◌, refl, List, [], ◌∷◌, replicate, some, ◌==◌, if◌then◌else◌, ok, ◌>>=◌, arith,
}
use r_corev.EasyFs.DiskInode.{DiskInode, directory}
use r_corev.EasyFs.DiskInode.Content.{Disk, index_of}
use r_corev.EasyFs.DiskInode.Content.Separate.{IsSeparate}
use r_corev.EasyFs.DirEntry
use r_corev.EasyFs.SuperBlock
use r_corev.EasyFs.Efs.{EasyFileSystem, Store}
use r_corev.EasyFs.Vfs.{Inode, find_inode_id, ls, read_at, write_at}
use r_corev.EasyFs.Vfs.Directory.{Lists, find_inode_id_lem, ls_lem}
use r_corev.EasyFs.Vfs.Files.{read_at-write_at_inside}

-- The names are "a" and "b".
abbrev two_entries : Disk
two_entries b i =
    if i == 0 then 97 else if i == 28 then 1 else if i == 32 then 98 else if i == 60 then 2 else 0

abbrev root_inode : DiskInode
root_inode = record {
  size = 64;
  direct = 9 ∷ replicate 27 0;
  indirect1 = 0;
  indirect2 = 0;
  type_ = directory;
}

abbrev store : Store
store = record {
  super_block = SuperBlock.initialize 0 0 0 0 0;
  words = λ b. replicate 64 0;
  inodes = λ b o. root_inode;
  bytes = two_entries;
}

abbrev efs : EasyFileSystem
efs = record {
  inode_bitmap = record { start_block_id = 1; blocks = 1 };
  data_bitmap = record { start_block_id = 1026; blocks = 1 };
  inode_area_start_block = 2;
  data_area_start_block = 1027;
}

abbrev root : Inode
root = record { inode_id = 0; block_id = 2; block_offset = 0; nlink = 1 }

abbrev entries : List (List ℕ × ℕ)
entries = (97 ∷ [], 1) ∷ (98 ∷ [], 2) ∷ []

two_entries-Lists : Lists two_entries root_inode 0 entries
unfolding DirEntry.name DirEntry.find_zero DirEntry.from_bytes DirEntry.is_utf8 DirEntry.utf8_from
    DirEntry.lead
two_entries-Lists = (refl, refl, (refl, refl, tt))

find_inode_id_lem_example : find_inode_id (98 ∷ []) two_entries root_inode ≡ ok (some 2)
find_inode_id_lem_example =
    find_inode_id_lem entries (98 ∷ []) two_entries root_inode refl (omega arith) refl
      two_entries-Lists

ls_lem_example : ls root store ≡ ok ((97 ∷ []) ∷ (98 ∷ []) ∷ [])
ls_lem_example = ls_lem entries root store (omega arith) refl two_entries-Lists

root_inode-IsSeparate : IsSeparate (index_of two_entries) root_inode 1
root_inode-IsSeparate = record {
  distinct = λ i j hi hj e. omega arith;
  first = λ i j hi hj h. absurd (omega arith);
  second = λ i j hi hj h. absurd (omega arith);
  third = λ i j hi hj h. absurd (omega arith);
}

read_at-write_at_inside_example :
    (write_at 60 (7 ∷ 8 ∷ []) root efs store >>= λ w. read_at 60 (0 ∷ 0 ∷ []) root w.1)
    ≡ ok (2, 7 ∷ 8 ∷ [])
read_at-write_at_inside_example =
    read_at-write_at_inside 60 1 (7 ∷ 8 ∷ []) (0 ∷ 0 ∷ []) root efs store (omega arith)
      (omega arith) root_inode-IsSeparate (omega arith) (omega arith) refl
