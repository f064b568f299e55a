-- ===== src/EasyFs/DiskInode/Grow.antt =====
-- `DiskInode::increase_size` of easy-fs/src/layout.rs: new blocks become data blocks and index blocks.
pub mod Steps
pub mod Second
pub mod Stepwise
pub mod Taken
pub mod Needed
mod Tests
use r_corev.Prelude.{
  ℕ, zero, suc, ◌+◌, ◌-◌, ◌*◌, ◌/◌, ◌%◌, ◌^◌, Bool, true, false, ◌&&◌, ◌||◌, List, [], ◌∷◌, set,
  leb, ltb, ◌==◌, min, if◌then◌else◌, Run, ok, panic, ◌>>=◌, ◌>>◌, assert,
}
use r_corev.EasyFs.DiskInode.{
  DiskInode, data_blocks, data_blocks_of, inode_direct_count, inode_indirect1_count,
}
use r_corev.EasyFs.DiskInode.Content.{Disk, index_of, write_block}

-- The inode, the disk and what the iterator over the new blocks still holds.
pub record Growth : Type 0 where
  pub inode : DiskInode
  pub disk : Disk
  pub new_blocks : List ℕ

-- `new_blocks.next().unwrap()` and what is done with the block.
abbrev pub next_block : Growth → (ℕ → Growth → Run Growth) → Run Growth
next_block g f = elim g.new_blocks [ [] ↦ panic | b ∷ bs ↦ f b (record g { new_blocks = bs }) ]

-- `indirect[i] = v` for an `IndirectBlock`.
abbrev pub write_entry : Disk → ℕ → ℕ → ℕ → Disk
write_entry disk b i v =
    write_block disk b (4 * i)
      ((v % 2 ^ 8) ∷ (v / 2 ^ 8 % 2 ^ 8) ∷ (v / 2 ^ 16 % 2 ^ 8) ∷ (v / 2 ^ 24 % 2 ^ 8) ∷ [])

abbrev pub put_direct : ℕ → ℕ → Growth → Growth
put_direct i b g = record g { inode = record g.inode { direct = set g.inode.direct i b } }

abbrev pub put_first : ℕ → ℕ → Growth → Growth
put_first i b g = record g { disk = write_entry g.disk g.inode.indirect1 i b }

-- The passes of the loop over the direct blocks, from the block `i` on.
unfoldable pub fill_direct : ℕ → ℕ → Growth → Run Growth
fill_direct zero i g = ok g
fill_direct (suc n) i g = next_block g (λ b g'. fill_direct n (i + 1) (put_direct i b g'))

unfoldable pub alloc_indirect1 : Growth → Run Growth
alloc_indirect1 g =
    next_block g (λ b g'. ok (record g' { inode = record g'.inode { indirect1 = b } }))

unfoldable pub fill_indirect1 : ℕ → ℕ → Growth → Run Growth
fill_indirect1 zero i g = ok g
fill_indirect1 (suc n) i g = next_block g (λ b g'. fill_indirect1 n (i + 1) (put_first i b g'))

unfoldable pub alloc_indirect2 : Growth → Run Growth
alloc_indirect2 g =
    next_block g (λ b g'. ok (record g' { inode = record g'.inode { indirect2 = b } }))

-- A new index block of the second level, where the entry is the first of its block.
unfoldable pub alloc_low : ℕ → ℕ → Growth → Run Growth
alloc_low a0 b0 g =
    if b0 == 0
    then next_block g
        (λ b g'. ok (record g' { disk = write_entry g'.disk g'.inode.indirect2 a0 b }))
    else ok g

unfoldable pub put_second : ℕ → ℕ → Growth → Run Growth
put_second a0 b0 g = next_block g (λ b g'.
    ok (record g' { disk = write_entry g'.disk (index_of g'.disk g'.inode.indirect2 a0) b0 b }))

-- The body of the last loop; `indirect2[a0]` is in bounds or stops the kernel.
unfoldable pub second_pass : ℕ → ℕ → Growth → Run Growth
unfolding alloc_low put_second
second_pass a0 b0 g =
    assert (ltb a0 inode_indirect1_count) >> (alloc_low a0 b0 g >>= λ g'. put_second a0 b0 g')

-- The last loop: without fuel it stops, which the fuel that is given excludes.
unfoldable pub fill_indirect2 : ℕ → ℕ → ℕ → ℕ → ℕ → Growth → Run Growth
unfolding second_pass
fill_indirect2 zero a0 b0 a1 b1 g = panic
fill_indirect2 (suc fuel) a0 b0 a1 b1 g = elim (ltb a0 a1 || ((a0 == a1) && ltb b0 b1)) [
  | true ↦ second_pass a0 b0 g >>= λ g'.
      if b0 + 1 == inode_indirect1_count
      then fill_indirect2 fuel (a0 + 1) 0 a1 b1 g'
      else fill_indirect2 fuel a0 (b0 + 1) a1 b1 g'
  | false ↦ ok g
]

unfoldable pub grow_second : ℕ → ℕ → Growth → Run Growth
unfolding alloc_indirect2 fill_indirect2
grow_second current total g =
    if leb total inode_indirect1_count
    then ok g
    else (if current == inode_indirect1_count then alloc_indirect2 g else ok g) >>= λ g'.
        let c = current - inode_indirect1_count in
        let t = total - inode_indirect1_count in
        fill_indirect2 (t + 1) (c / inode_indirect1_count) (c % inode_indirect1_count)
          (t / inode_indirect1_count) (t % inode_indirect1_count) g'

unfoldable pub grow_first : ℕ → ℕ → Growth → Run Growth
unfolding alloc_indirect1 fill_indirect1 grow_second
grow_first current total g =
    if leb total inode_direct_count
    then ok g
    else (if current == inode_direct_count then alloc_indirect1 g else ok g) >>= λ g'.
        let c = current - inode_direct_count in
        let t = total - inode_direct_count in
        let n = min t inode_indirect1_count - c in
        fill_indirect1 n c g' >>= λ g''. grow_second (c + n) t g''

-- From `current` data blocks to `total`.
unfoldable pub grow_blocks : ℕ → ℕ → Growth → Run Growth
unfolding fill_direct grow_first
grow_blocks current total g =
    let n = min total inode_direct_count - current in
    fill_direct n current g >>= λ g'. grow_first (current + n) total g'

unfoldable pub increase_size : ℕ → List ℕ → Disk → DiskInode → Run Growth
unfolding grow_blocks data_blocks
increase_size new_size new_blocks disk d =
    grow_blocks (data_blocks d) (data_blocks (record d { size = new_size }))
      (record { inode = record d { size = new_size }; disk = disk; new_blocks = new_blocks })
