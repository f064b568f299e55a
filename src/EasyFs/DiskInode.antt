-- ===== src/EasyFs/DiskInode.antt =====
-- `DiskInode` of easy-fs/src/layout.rs: the blocks of a file. The index blocks are what callers of the
-- block cache see: the entry at an index of a block. A `u32` has 32 bits.
pub mod Sizes
pub mod Entries
pub mod Clear
pub mod Content
pub mod Grow
mod Tests
use r_corev.Prelude.{
  ℕ, zero, suc, ◌+◌, ◌-◌, ◌*◌, ◌/◌, ◌%◌, ◌^◌, Bool, true, false, List, [], ◌∷◌, ◌++◌, get_or, set,
  leb, ltb, min, if◌then◌else◌, Run, ok, panic, ◌>>=◌, ◌>>◌, assert,
}
use r_corev.EasyFs.Device.{block_sz}

abbrev pub u32_mod : ℕ
u32_mod = 2 ^ 32

abbrev pub inode_direct_count : ℕ
inode_direct_count = 28

abbrev pub inode_indirect1_count : ℕ
inode_indirect1_count = block_sz / 4

abbrev pub inode_indirect2_count : ℕ
inode_indirect2_count = inode_indirect1_count * inode_indirect1_count

abbrev pub direct_bound : ℕ
direct_bound = inode_direct_count

abbrev pub indirect1_bound : ℕ
indirect1_bound = direct_bound + inode_indirect1_count

abbrev pub indirect2_bound : ℕ
indirect2_bound = indirect1_bound + inode_indirect2_count

pub data DiskInodeType : Type 0 where
  file directory : DiskInodeType

pub record DiskInode : Type 0 where
  pub size : ℕ
  pub direct : List ℕ
  pub indirect1 : ℕ
  pub indirect2 : ℕ
  pub type_ : DiskInodeType

abbrev pub zeros : List ℕ → List ℕ
zeros [] = []
zeros (_ ∷ xs) = 0 ∷ zeros xs

unfoldable pub initialize : DiskInodeType → DiskInode → DiskInode
initialize t d = record {
  size = 0;
  direct = zeros d.direct;
  indirect1 = 0;
  indirect2 = 0;
  type_ = t;
}

abbrev pub is_dir : DiskInode → Bool
is_dir d = elim d.type_ [ directory ↦ true | file ↦ false ]

-- `_data_blocks`
unfoldable pub data_blocks_of : ℕ → ℕ
data_blocks_of size = ((size + block_sz) % u32_mod + u32_mod - 1) % u32_mod / block_sz

unfoldable pub data_blocks : DiskInode → ℕ
unfolding data_blocks_of
data_blocks d = data_blocks_of d.size

unfoldable pub total_blocks : ℕ → ℕ
unfolding data_blocks_of
total_blocks size =
    let n = data_blocks_of size in
    (n
      + (if ltb inode_direct_count n then 1 else 0)
      + (if ltb indirect1_bound n
          then 1 + (n - indirect1_bound + inode_indirect1_count - 1) / inode_indirect1_count
          else 0))
    % u32_mod

unfoldable pub blocks_num_needed : ℕ → DiskInode → Run ℕ
unfolding total_blocks
blocks_num_needed new_size d = do
  assert (leb d.size new_size)
  ok ((total_blocks new_size + u32_mod - total_blocks d.size) % u32_mod)

abbrev pub Index : Type 0
Index = ℕ → ℕ → ℕ

-- An index past the end of a block of indices panics.
unfoldable pub index_at : Index → ℕ → ℕ → Run ℕ
index_at ix block i = do assert (ltb i inode_indirect1_count); ok (ix block i)

unfoldable pub get_block_id : ℕ → Index → DiskInode → Run ℕ
unfolding index_at
get_block_id inner_id ix d =
    if ltb inner_id inode_direct_count
    then ok (get_or d.direct inner_id 0)
    else if ltb inner_id indirect1_bound
    then index_at ix d.indirect1 (inner_id - inode_direct_count)
    else do
      indirect1 ← index_at ix d.indirect2 ((inner_id - indirect1_bound) / inode_indirect1_count)
      index_at ix indirect1 ((inner_id - indirect1_bound) % inode_indirect1_count)

-- A loop that pushes the entries `i`, `i + 1`, …, `n` of them.
abbrev pub pushes : (ℕ → ℕ) → ℕ → ℕ → List ℕ
pushes f i zero = []
pushes f i (suc n) = f i ∷ pushes f (i + 1) n

-- The loop over the direct entries sets them to 0.
abbrev pub clear_direct : ℕ → ℕ → List ℕ → List ℕ
clear_direct i zero xs = xs
clear_direct i (suc n) xs = clear_direct (i + 1) n (set xs i 0)

-- The full blocks of the second level: the block itself, then its entries.
abbrev pub push_full : Index → ℕ → ℕ → ℕ → List ℕ
push_full ix block i zero = []
push_full ix block i (suc n) =
    ix block i ∷ (pushes (ix (ix block i)) 0 inode_indirect1_count ++ push_full ix block (i + 1) n)

abbrev pub push_last : Index → ℕ → ℕ → ℕ → List ℕ
push_last ix block a1 b1 = if ltb 0 b1 then ix block a1 ∷ pushes (ix (ix block a1)) 0 b1 else []

-- The blocks that are given back, in order, and the inode; `n` is the number of data blocks.
unfoldable pub clear_blocks : Index → DiskInode → ℕ → Run (List ℕ × DiskInode)
clear_blocks ix d n =
    let k = min n inode_direct_count in
    let v0 = pushes (λ i. get_or d.direct i 0) 0 k in
    let d0 = record d { size = 0; direct = clear_direct 0 k d.direct } in
    if leb n inode_direct_count
    then ok (v0, d0)
    else let n1 = n - inode_direct_count in
      let v1 = v0 ++ (d.indirect1 ∷ pushes (ix d.indirect1) 0 (min n1 inode_indirect1_count)) in
      let d1 = record d0 { indirect1 = 0 } in
      if leb n1 inode_indirect1_count
      then ok (v1, d1)
      else let n2 = n1 - inode_indirect1_count in
        let a1 = n2 / inode_indirect1_count in
        let b1 = n2 % inode_indirect1_count in
        assert (leb n2 inode_indirect2_count)
        >> ok (
          v1 ++ (d.indirect2 ∷ (push_full ix d.indirect2 0 a1 ++ push_last ix d.indirect2 a1 b1)),
          record d1 { indirect2 = 0 },
        )

unfoldable pub clear_size : Index → DiskInode → Run (List ℕ × DiskInode)
unfolding clear_blocks data_blocks
clear_size ix d = clear_blocks ix d (data_blocks d)
