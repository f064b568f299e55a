-- ===== src/EasyFs/Efs/Create.antt =====
-- A new file system: its blocks are cleared, its root directory is empty and has the number 0.
use r_corev.Prelude.{
  ℕ, zero, suc, ◌+◌, ◌-◌, ◌*◌, ◌/◌, ◌%◌, ◌^◌, ◌≤◌, ◌<◌, ◌≡◌, refl, ap, ◌∙◌, Bool, true, false, ◌&&◌,
  Option, none, some, replicate, length-replicate, get_or, leb, ltb, ◌==◌, if◌then◌else◌, Run, ok,
  arith, Bool-cases, inl, inr,
}
use native.Mathlib.Nat.{zero-div}
use r_corev.EasyFs.Bitmap
use r_corev.EasyFs.Bitmap.{Bitmap, Blocks}
use r_corev.EasyFs.Bitmap.Word.{AllWords}
use r_corev.EasyFs.Bitmap.Alloc.{IsValid, Allocated, Result, alloc_least, bit_in}
use r_corev.EasyFs.SuperBlock
use r_corev.EasyFs.SuperBlock.{SuperBlock}
use r_corev.EasyFs.DiskInode
use r_corev.EasyFs.DiskInode.{DiskInode, DiskInodeType, directory, u32_mod}
use r_corev.EasyFs.Efs.{
  EasyFileSystem, Store, add, layout, alloc_inode, clear_all, clear_block, create, open_,
  get_disk_inode_pos, put_inode, zero_inode,
}

-- What the clearing leaves of a view.
clear_all-words :
    (i n : ℕ) (s : Store) (c : ℕ)
    → (clear_all i n s).words c ≡ (if leb i c && ltb c (i + n) then replicate 64 0 else s.words c)
clear_all-words i zero s c =
    let out : (leb i c && ltb c (i + 0)) ≡ false = ground arith in rw out refl
clear_all-words i (suc n) s c =
    clear_all-words (i + 1) n (clear_block i s) c ∙ elim (Bool-cases (c == i)) [
      | inl e ↦
          let rest : (leb (i + 1) c && ltb c (i + 1 + n)) ≡ false = ground arith in
          let all : (leb i c && ltb c (i + suc n)) ≡ true = ground arith in rw (rest, all, e) refl
      | inr e ↦
          let same : (leb (i + 1) c && ltb c (i + 1 + n)) ≡ (leb i c && ltb c (i + suc n)) =
            ground arith in
          rw (same, e) refl
    ]

clear_all-inodes :
    (i n : ℕ) (s : Store) (c o : ℕ)
    → (clear_all i n s).inodes c o ≡ (if leb i c && ltb c (i + n) then zero_inode else s.inodes c o)
clear_all-inodes i zero s c o =
    let out : (leb i c && ltb c (i + 0)) ≡ false = ground arith in rw out refl
clear_all-inodes i (suc n) s c o =
    clear_all-inodes (i + 1) n (clear_block i s) c o ∙ elim (Bool-cases (c == i)) [
      | inl e ↦
          let rest : (leb (i + 1) c && ltb c (i + 1 + n)) ≡ false = ground arith in
          let all : (leb i c && ltb c (i + suc n)) ≡ true = ground arith in rw (rest, all, e) refl
      | inr e ↦
          let same : (leb (i + 1) c && ltb c (i + 1 + n)) ≡ (leb i c && ltb c (i + suc n)) =
            ground arith in
          rw (same, e) refl
    ]

pub zeros_valid : (n : ℕ) → AllWords (replicate n 0)
zeros_valid zero = tt
zeros_valid (suc n) = (omega arith, zeros_valid n)

zeros_at : (n i : ℕ) → ◌≡◌ {A = ℕ} (get_or (replicate n 0) i 0) 0
zeros_at zero i = refl
zeros_at (suc n) zero = refl
zeros_at (suc n) (suc i) = zeros_at n i

-- Where the first bit is clear it is the one that `alloc` takes.
took_first :
    (m : Bitmap) (d : Blocks) (r : Option ℕ × Blocks)
    → Bitmap.alloc m d ≡ r
    → Result m d r
    → 0 < Bitmap.maximum m
    → bit_in m d 0 ≡ 0
    → (words : Blocks) × (Bitmap.alloc m d ≡ (some 0, words)) × Allocated m d words 0
took_first m d (none, d') e (same, full) h z = absurd (omega (arith, full 0 h, z))
took_first m d (some zero, d') e c h z = (d', e, c)
took_first m d (some (suc b), d') e c h z = absurd (omega (arith, c.least 0 (omega arith), z))

-- The words of a device whose first `total` blocks are cleared.
module _ (total : ℕ) (m : Bitmap) (s : Store) (inside : m.start_block_id + m.blocks ≤ total) where
  cleared_words :
      (i : ℕ) → i < m.blocks → (clear_all 0 total s).words (i + m.start_block_id) ≡ replicate 64 0
  cleared_words i h =
      let all : (leb 0 (i + m.start_block_id) && ltb (i + m.start_block_id) (0 + total)) ≡ true =
        ground arith in
      clear_all-words 0 total s (i + m.start_block_id) ∙ rw all refl

  cleared-IsValid : IsValid m (clear_all 0 total s).words
  cleared-IsValid i h = rw (cleared_words i h) (length-replicate {A = ℕ} 64 0, zeros_valid 64)

  cleared_bit : (b : ℕ) → b < Bitmap.maximum m → bit_in m (clear_all 0 total s).words b ≡ 0
  unfolding Bitmap.maximum
  cleared_bit b h =
      rw
        (
          cleared_words (b / 4096) (omega arith),
          zeros_at 64 (b % 4096 / 64),
          zero-div (2 ^ (b % 64)),
        )
        refl

  -- The first bit is handed out first.
  first_bit :
      0 < m.blocks
      → (words : Blocks) × (Bitmap.alloc m (clear_all 0 total s).words ≡ (some 0, words))
        × Allocated m (clear_all 0 total s).words words 0
  unfolding Bitmap.maximum
  first_bit h =
      let d = (clear_all 0 total s).words in
      took_first m d (Bitmap.alloc m d) refl (alloc_least m d cleared-IsValid) (omega arith)
        (cleared_bit 0 (omega arith))

pub put_inode-at :
    (pos : ℕ × ℕ) (d : DiskInode) (s : Store) → (put_inode pos d s).inodes pos.0 pos.1 ≡ d
put_inode-at (b, o) d s =
    let p : (b == b) ≡ true = ground arith in
    let q : (o == o) ≡ true = ground arith in rw (p, q) refl

-- The file system that `create` makes on the device `s`.
pub record Created (total inode_bitmap_blocks : ℕ) (s : Store) (r : Run (EasyFileSystem × Store))
    : Type 0 where
  pub after : Store
  pub result : r ≡ ok ((layout total inode_bitmap_blocks).0, after)
  -- The root directory is empty, and its number is taken, the only one.
  pub root :
      let pos = get_disk_inode_pos (layout total inode_bitmap_blocks).0 0 in
      after.inodes pos.0 pos.1 ≡ record zero_inode { type_ = directory }
  pub root_bit : bit_in (layout total inode_bitmap_blocks).0.inode_bitmap after.words 0 ≡ 1
  pub free_inodes :
      (i : ℕ)
      → 0 < i
      → i < Bitmap.maximum (layout total inode_bitmap_blocks).0.inode_bitmap
      → bit_in (layout total inode_bitmap_blocks).0.inode_bitmap after.words i ≡ 0
  -- `open` finds the same areas.
  pub opened : open_ after ≡ ok (layout total inode_bitmap_blocks).0

-- On a device of at least `1 + 1025 * inode_bitmap_blocks` blocks, less than `2 ^ 32 - 4096`, and with a block for the
-- inode bitmap, `create` succeeds: the root directory is empty and has the number 0, every other number
-- is free, and `open` finds the areas again.
pub create_lem :
    (total inode_bitmap_blocks : ℕ) (s : Store)
    → 0 < inode_bitmap_blocks
    → 1 + 1025 * inode_bitmap_blocks ≤ total
    → total + 4096 < u32_mod
    → Created total inode_bitmap_blocks s (create total inode_bitmap_blocks s)
unfolding create alloc_inode layout get_disk_inode_pos open_ SuperBlock.is_valid
    SuperBlock.initialize Bitmap.maximum DiskInode.initialize
create_lem total n s h hl hu =
    let bits : Bitmap = record { start_block_id = 1; blocks = n } in
    let (words, taken, c) = first_bit total bits s (omega arith) h in
    let efs = (layout total n).0 in
    let pos = get_disk_inode_pos efs 0 in
    let fits : pos.0 ≡ 1 + n = omega arith in
    let clean : (clear_all 0 total s).inodes pos.0 pos.1 ≡ zero_inode =
      let all : (leb 0 (1 + n) && ltb (1 + n) (0 + total)) ≡ true = ground arith in
      ap (λ b. (clear_all 0 total s).inodes b pos.1) fits
      ∙ clear_all-inodes 0 total s (1 + n) pos.1
      ∙ ap (λ (t : Bool). if t then zero_inode else s.inodes (1 + n) pos.1) all in
    let area = (n * 4096 * 128 + 512 - 1) / 512 % u32_mod in
    let start : add 1 (add n area) ≡ add (add 1 n) area = omega arith in
    let store : Store = record (clear_all 0 total s) {
      super_block = (layout total n).1;
      words = words;
    } in
    rw taken (record {
      after = put_inode pos (record zero_inode { type_ = directory }) store;
      result = ap (λ d. ok (efs, put_inode pos (DiskInode.initialize directory d) store)) clean;
      root = put_inode-at pos (record zero_inode { type_ = directory }) store;
      root_bit = c.now;
      free_inodes =
          λ i l u. c.others i (λ e. omega arith) ∙ cleared_bit total bits s (omega arith) i u;
      opened =
          ap (λ b. ok (record efs { data_bitmap = record efs.data_bitmap { start_block_id = b } }))
            start;
    })
