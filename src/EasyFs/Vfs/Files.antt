-- ===== src/EasyFs/Vfs/Files.antt =====
-- Reads and writes of a file through its inode.
use r_corev.Prelude.{
  ℕ, ◌+◌, ◌-◌, ◌*◌, ◌%◌, ◌≤◌, ◌<◌, ◌≡◌, refl, ap, ◌∙◌, List, [], ltb, length, ok, ◌>>=◌, arith,
  Bool-cases, inl, inr,
}
use r_corev.EasyFs.Device.{block_sz}
use r_corev.EasyFs.DiskInode.{
  DiskInode, u32_mod, indirect2_bound, data_blocks, data_blocks_of, blocks_num_needed,
}
use r_corev.EasyFs.DiskInode.Sizes.{blocks_num_needed_lem}
use r_corev.EasyFs.DiskInode.Content.{Disk, index_of}
use r_corev.EasyFs.DiskInode.Content.Separate.{IsSeparate}
use r_corev.EasyFs.DiskInode.Content.Writing.{write_at_lem}
use r_corev.EasyFs.DiskInode.Content.RoundTrip.{read_at-write_at}
use r_corev.EasyFs.DiskInode.Grow
use r_corev.EasyFs.DiskInode.Grow.{Growth}
use r_corev.EasyFs.DiskInode.Grow.Steps.{add_blocks}
use r_corev.EasyFs.DiskInode.Grow.Stepwise.{grow_blocks_lem}
use r_corev.EasyFs.Efs.{EasyFileSystem, Store}
use r_corev.EasyFs.Efs.Create.{put_inode-at}
use r_corev.EasyFs.Vfs.{Inode, disk_inode, pos, alloc_all, increase_size, read_at, write_at}

grow_nothing :
    (disk : Disk) (d : DiskInode)
    → Grow.increase_size d.size [] disk d ≡ ok (record { inode = d; disk = disk; new_blocks = [] })
unfolding Grow.increase_size add_blocks data_blocks
grow_nothing disk d =
    let a = data_blocks_of d.size in
    let g : Growth = record { inode = d; disk = disk; new_blocks = [] } in
    let n : a - a ≡ 0 = omega arith in
    grow_blocks_lem a a g (omega arith) ∙ ap (λ k. add_blocks k a g) n

-- A file that is large enough does not grow.
large_enough :
    (new_size : ℕ) (d : DiskInode) (efs : EasyFileSystem) (s : Store)
    → new_size ≤ d.size
    → d.size + block_sz ≤ u32_mod
    → increase_size new_size d efs s ≡ ok (d, s)
unfolding increase_size alloc_all
large_enough new_size d efs s h u = elim (Bool-cases (ltb new_size d.size)) [
  | inl e ↦ rw e refl
  | inr e ↦
      let same : new_size ≡ d.size = ground arith in
      let needed : blocks_num_needed d.size d ≡ ok 0 =
        ((blocks_num_needed_lem d.size d u).0 (omega arith)).1 ∙ ap ok (omega arith) in
      rw (e, same, needed, grow_nothing s.bytes d) refl
]

-- What is written into a file without passing its end is read back from the same place; the file has at most
-- `n` blocks, which are separate.
pub read_at-write_at_inside :
    (offset n : ℕ) (buf old : List ℕ) (v : Inode) (efs : EasyFileSystem) (s : Store)
    → n ≤ indirect2_bound
    → (disk_inode v s).size ≤ n * block_sz
    → IsSeparate (index_of s.bytes) (disk_inode v s) n
    → 0 < length buf
    → offset + length buf ≤ (disk_inode v s).size
    → length old ≡ length buf
    → (write_at offset buf v efs s >>= λ w. read_at offset old v w.1) ≡ ok (length buf, buf)
unfolding write_at read_at
read_at-write_at_inside offset n buf old v efs s hn hs sep hl ho same =
    let d = disk_inode v s in
    let fits : (offset + length buf) % u32_mod ≡ offset + length buf = omega arith in
    let w = write_at_lem offset n buf s.bytes d hn hs sep (omega arith) hl (omega arith) in
    let back = read_at-write_at offset n buf old s.bytes d hn hs sep hl ho (omega arith) same in
    let kept = put_inode-at (pos v) d (record s { bytes = w.after }) in
    rw (fits, large_enough (offset + length buf) d efs s ho (omega arith), w.result, kept)
      (rw w.result at back)
