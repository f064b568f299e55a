-- ===== src/EasyFs/Vfs.antt =====
-- easy-fs/src/vfs.rs: what a user of the file system does with an inode. The locks of the file system
-- make each operation one step.
pub mod Directory
pub mod Files
mod Tests
use r_corev.Prelude.{
  ℕ, zero, suc, ◌+◌, ◌-◌, ◌*◌, ◌/◌, ◌%◌, Bool, true, false, ◌&&◌, Option, none, some, List, [], ◌∷◌,
  length, replicate, ltb, ◌==◌, if◌then◌else◌, Run, ok, panic, ◌>>=◌, ◌>>◌, assert,
}
use r_corev.Config.{usize_mod}
use r_corev.EasyFs.DiskInode
use r_corev.EasyFs.DiskInode.{
  DiskInode, u32_mod, file, is_dir, blocks_num_needed, total_blocks, clear_size,
}
use r_corev.EasyFs.DiskInode.Content
use r_corev.EasyFs.DiskInode.Content.{Disk, index_of}
use r_corev.EasyFs.DiskInode.Grow
use r_corev.EasyFs.DirEntry
use r_corev.EasyFs.Efs.{
  EasyFileSystem, Store, alloc_inode, alloc_data, dealloc_data, get_disk_inode_pos, put_inode,
}

pub record Inode : Type 0 where
  pub inode_id : ℕ
  pub block_id : ℕ
  pub block_offset : ℕ
  pub nlink : ℕ

unfoldable pub new : ℕ → ℕ → ℕ → Inode
new inode_id block_id block_offset = record {
  inode_id = inode_id;
  block_id = block_id;
  block_offset = block_offset;
  nlink = 1;
}

abbrev pub pos : Inode → ℕ × ℕ
pos v = (v.block_id, v.block_offset)

-- `read_disk_inode`: the inode on the disk.
abbrev pub disk_inode : Inode → Store → DiskInode
disk_inode v s = s.inodes v.block_id v.block_offset

abbrev pub dirent_sz : ℕ
dirent_sz = 32

-- Equality of strings.
abbrev pub same : List ℕ → List ℕ → Bool
same [] [] = true
same [] (y ∷ ys) = false
same (x ∷ xs) [] = false
same (x ∷ xs) (y ∷ ys) = (x == y) && same xs ys

-- The entry at place `i`, read into the buffer that the loop shares.
unfoldable pub read_entry : ℕ → List ℕ → Disk → DiskInode → Run (List ℕ)
read_entry i dirent_space disk d =
    Content.read_at (dirent_sz * i) dirent_space disk d >>= λ r. assert (r.0 == dirent_sz) >> ok r.1

-- The loop of `find_inode_id` over the `n` entries from `i` on.
unfoldable pub find_loop : ℕ → ℕ → List ℕ → List ℕ → Disk → DiskInode → Run (Option ℕ)
unfolding read_entry
find_loop zero i name dirent_space disk d = ok none
find_loop (suc n) i name dirent_space disk d = read_entry i dirent_space disk d >>= λ bytes.
    DirEntry.name (DirEntry.from_bytes bytes) >>= λ found. elim (same found name) [
      | true ↦ ok (some ((DirEntry.from_bytes bytes).inode_number % u32_mod))
      | false ↦ find_loop n (i + 1) name bytes disk d
    ]

unfoldable pub find_inode_id : List ℕ → Disk → DiskInode → Run (Option ℕ)
unfolding find_loop
find_inode_id name disk d =
    assert (is_dir d) >> find_loop (d.size / dirent_sz) 0 name (replicate dirent_sz 0) disk d

unfoldable pub find : List ℕ → Inode → EasyFileSystem → Store → Run (Option Inode)
unfolding find_inode_id
find name root efs s = find_inode_id name s.bytes (disk_inode root s) >>= λ found. elim found [
  | none ↦ ok none
  | some inode_id ↦
      let (block_id, block_offset) = get_disk_inode_pos efs inode_id in
      ok (some (new inode_id block_id block_offset))
]

unfoldable pub create_nlink : Inode → Inode
create_nlink v = record v { nlink = (v.nlink + 1) % usize_mod }

unfoldable pub destory_nlink : Inode → Inode
destory_nlink v = if ltb 1 v.nlink then record v { nlink = v.nlink - 1 } else v

-- `for _ in 0..blocks_needed`.
unfoldable pub alloc_all : ℕ → EasyFileSystem → Store → Run (List ℕ × Store)
alloc_all zero efs s = ok ([], s)
alloc_all (suc n) efs s = do
  (b, s') ← alloc_data efs s
  (bs, s'') ← alloc_all n efs s'
  ok (b ∷ bs, s'')

unfoldable pub increase_size : ℕ → DiskInode → EasyFileSystem → Store → Run (DiskInode × Store)
unfolding alloc_all
increase_size new_size d efs s = if ltb new_size d.size then ok (d, s) else do
  blocks_needed ← blocks_num_needed new_size d
  (v, s') ← alloc_all blocks_needed efs s
  g ← Grow.increase_size new_size v s'.bytes d
  ok (g.inode, record s' { bytes = g.disk })

-- The entry of a new file at the end of the root directory.
unfoldable pub append_entry : List ℕ → ℕ → Inode → EasyFileSystem → Store → Run Store
unfolding increase_size
append_entry name inode_id root efs s = do
  let root_inode = disk_inode root s
  let file_count = root_inode.size / dirent_sz
  (d, s') ← increase_size ((file_count + 1) * dirent_sz % u32_mod) root_inode efs s
  dirent ← DirEntry.new name inode_id
  (_, bytes) ← Content.write_at (file_count * dirent_sz) (DirEntry.into_bytes dirent) s'.bytes d
  ok (put_inode (pos root) d (record s' { bytes = bytes }))

unfoldable pub create_new : List ℕ → Inode → EasyFileSystem → Store → Run (Option Inode × Store)
unfolding append_entry
create_new name root efs s = do
  (inode_id, s1) ← alloc_inode efs s
  let at = get_disk_inode_pos efs inode_id
  let s2 = put_inode at (DiskInode.initialize file (s1.inodes at.0 at.1)) s1
  s3 ← append_entry name inode_id root efs s2
  ok (some (new inode_id at.0 at.1), s3)

unfoldable pub create : List ℕ → Inode → EasyFileSystem → Store → Run (Option Inode × Store)
unfolding find_inode_id create_new
create name root efs s = find_inode_id name s.bytes (disk_inode root s) >>= λ found. elim found [
  | some _ ↦ ok (none, s)
  | none ↦ create_new name root efs s
]

-- The loop of `ls`: each pass has a buffer of its own.
unfoldable pub ls_loop : ℕ → ℕ → Disk → DiskInode → Run (List (List ℕ))
unfolding read_entry
ls_loop zero i disk d = ok []
ls_loop (suc n) i disk d = read_entry i (replicate dirent_sz 0) disk d >>= λ bytes.
    DirEntry.name (DirEntry.from_bytes bytes) >>= λ name.
    ls_loop n (i + 1) disk d >>= λ names. ok (name ∷ names)

unfoldable pub ls : Inode → Store → Run (List (List ℕ))
unfolding ls_loop
ls root s = let d = disk_inode root s in ls_loop (d.size / dirent_sz) 0 s.bytes d

unfoldable pub read_at : ℕ → List ℕ → Inode → Store → Run (ℕ × List ℕ)
read_at offset buf v s = Content.read_at offset buf s.bytes (disk_inode v s)

unfoldable pub write_at : ℕ → List ℕ → Inode → EasyFileSystem → Store → Run (ℕ × Store)
unfolding increase_size
write_at offset buf v efs s = do
  (d, s') ← increase_size ((offset + length buf) % u32_mod) (disk_inode v s) efs s
  (written, bytes) ← Content.write_at offset buf s'.bytes d
  ok (written, put_inode (pos v) d (record s' { bytes = bytes }))

unfoldable pub dealloc_all : List ℕ → EasyFileSystem → Store → Run Store
dealloc_all [] efs s = ok s
dealloc_all (b ∷ bs) efs s = dealloc_data efs b s >>= λ s'. dealloc_all bs efs s'

unfoldable pub clear : Inode → EasyFileSystem → Store → Run Store
unfolding dealloc_all
clear v efs s = do
  let d = disk_inode v s
  (blocks, d') ← clear_size (index_of s.bytes) d
  assert (length blocks == total_blocks d.size)
  s' ← dealloc_all blocks efs s
  ok (put_inode (pos v) d' s')
