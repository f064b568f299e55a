-- ===== src/EasyFs/Device.antt =====
-- `BlockDevice` of easy-fs/src/block_dev.rs: an interface to a driver, which keeps a state of its own.
-- A block is the list of its bytes.
use r_corev.Prelude.{ℕ, ◌≡◌, List, ◌==◌, if◌then◌else◌}

abbrev pub block_sz : ℕ
block_sz = 512

abbrev pub Block : Type 0
Block = List ℕ

pub record BlockDevice (D : Type 0) : Type 0 where
  pub read_block : ℕ → D → Block
  pub write_block : ℕ → Block → D → D
  -- A block reads as it was last written.
  pub read_write :
      (i j : ℕ) (b : Block) (d : D)
      → read_block j (write_block i b d) ≡ (if i == j then b else read_block j d)
