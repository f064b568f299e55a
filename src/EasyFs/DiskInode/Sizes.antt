-- ===== src/EasyFs/DiskInode/Sizes.antt =====
-- How many blocks a file of a size has.
use r_corev.Prelude.{
  ℕ, ◌+◌, ◌-◌, ◌*◌, ◌/◌, ◌%◌, ◌≤◌, ◌<◌, ◌≡◌, ltb, if◌then◌else◌, ok, panic, arith,
}
use r_corev.EasyFs.Device.{block_sz}
use r_corev.EasyFs.DiskInode.{
  u32_mod, indirect1_bound, inode_direct_count, inode_indirect1_count, DiskInode, data_blocks_of,
  total_blocks, blocks_num_needed,
}

-- The least number of blocks that holds `size` bytes.
pub data_blocks_lem :
    (size : ℕ)
    → size + block_sz ≤ u32_mod
    → (size ≤ data_blocks_of size * block_sz) × (data_blocks_of size * block_sz < size + block_sz)
unfolding data_blocks_of
data_blocks_lem size h = omega arith

-- The index blocks that `n` data blocks need.
unfoldable pub index_blocks : ℕ → ℕ
index_blocks n =
    (if ltb inode_direct_count n then 1 else 0)
    + (if ltb indirect1_bound n
        then 1 + (n - indirect1_bound + inode_indirect1_count - 1) / inode_indirect1_count
        else 0)

pub index_blocks_mono : (m n : ℕ) → m ≤ n → index_blocks m ≤ index_blocks n
unfolding index_blocks
index_blocks_mono m n h = ground arith

index_blocks-bound : (n : ℕ) → index_blocks n ≤ n + 2
unfolding index_blocks
index_blocks-bound n = ground arith

unwrapped :
    (n : ℕ)
    → n + n + 2 < u32_mod
    → (n
          + (if ltb inode_direct_count n then 1 else 0)
          + (if ltb indirect1_bound n
              then 1 + (n - indirect1_bound + inode_indirect1_count - 1) / inode_indirect1_count
              else 0))
        % u32_mod
      ≡ n + index_blocks n
unfolding index_blocks
unwrapped n h = omega (arith, index_blocks-bound n)

pub total_sum :
    (size : ℕ)
    → size + block_sz ≤ u32_mod
    → total_blocks size ≡ data_blocks_of size + index_blocks (data_blocks_of size)
unfolding total_blocks
total_sum size h = unwrapped (data_blocks_of size) (omega (arith, data_blocks_lem size h))

pub data_blocks_mono :
    (a b : ℕ) → a ≤ b → b + block_sz ≤ u32_mod → data_blocks_of a ≤ data_blocks_of b
data_blocks_mono a b l h = omega (arith, data_blocks_lem a (omega arith), data_blocks_lem b h)

total_mono : (a b : ℕ) → a ≤ b → b + block_sz ≤ u32_mod → total_blocks a ≤ total_blocks b
total_mono a b l h = omega (
  arith,
  total_sum a (omega arith),
  total_sum b h,
  data_blocks_mono a b l h,
  index_blocks_mono (data_blocks_of a) (data_blocks_of b) (data_blocks_mono a b l h),
)

total_bound : (b : ℕ) → b + block_sz ≤ u32_mod → total_blocks b < u32_mod
total_bound b h =
    omega (arith, total_sum b h, data_blocks_lem b h, index_blocks-bound (data_blocks_of b))

-- Where the new size is 512 or more below 2 ^ 32, a size at least the old needs no fewer blocks, and `blocks_num_needed` is the difference; a smaller size
-- panics.
pub blocks_num_needed_lem :
    (new_size : ℕ) (d : DiskInode)
    → new_size + block_sz ≤ u32_mod
    → (d.size ≤ new_size
        → (total_blocks d.size ≤ total_blocks new_size)
          × (blocks_num_needed new_size d ≡ ok (total_blocks new_size - total_blocks d.size)))
      × (new_size < d.size → blocks_num_needed new_size d ≡ panic)
unfolding blocks_num_needed
blocks_num_needed_lem new_size d h = (
  λ l. let m = total_mono d.size new_size l h in (m, ground (arith, total_bound new_size h)),
  λ l. ground arith,
)
