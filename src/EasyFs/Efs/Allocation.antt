-- ===== src/EasyFs/Efs/Allocation.antt =====
-- Data blocks are handed out by `alloc_data` and given back by `dealloc_data`.
use r_corev.Prelude.{
  ℕ, ◌+◌, ◌-◌, ◌/◌, ◌%◌, ◌≤◌, ◌<◌, ◌≡◌, ◌≢◌, refl, sym, subst, fun_ext, ◌∙◌, true, false, Option,
  none, some, ◌==◌, Run, ok, panic, ◌>>=◌, unwrap, arith, Bool-cases, inl, inr,
}
use r_corev.EasyFs.Bitmap
use r_corev.EasyFs.Bitmap.{Bitmap, Blocks}
use r_corev.EasyFs.Bitmap.Alloc.{IsValid, Allocated, Result, alloc_least, bit_in}
use r_corev.EasyFs.Bitmap.Dealloc.{dealloc_set}
use r_corev.EasyFs.DiskInode.{u32_mod}
use r_corev.EasyFs.Efs.{EasyFileSystem, Store, clear_block, alloc_data, dealloc_data}

-- `alloc_data` panics where no data block is free; otherwise it hands out the block of the least free
-- bit, and changes nothing but the bit.
abbrev pub TakesData : EasyFileSystem → Store → Run (ℕ × Store) → Type 0
TakesData efs s panic =
    (b : ℕ) → b < Bitmap.maximum efs.data_bitmap → bit_in efs.data_bitmap s.words b ≡ 1
TakesData efs s (ok (block, s')) =
    (bit : ℕ) × (block ≡ efs.data_area_start_block + bit)
    × Allocated efs.data_bitmap s.words s'.words bit
    × (s' ≡ record s { words = s'.words })

takes :
    (efs : EasyFileSystem) (s : Store)
    → efs.data_area_start_block + Bitmap.maximum efs.data_bitmap ≤ u32_mod
    → (r : Option ℕ × Blocks) → Result efs.data_bitmap s.words r
    → TakesData efs s (
        unwrap r.0 >>= λ bit.
        ok ((bit % u32_mod + efs.data_area_start_block) % u32_mod, record s { words = r.1 }))
takes efs s h (none, words) (same, full) = full
takes efs s h (some bit, words) c = (bit, omega (arith, c.fits), c, refl)

-- Where the numbers of the data blocks stay below `2 ^ 32`, `alloc_data` hands out the data block of the
-- least free bit and changes that bit only, and it panics exactly when no bit is free.
pub alloc_data_lem :
    (efs : EasyFileSystem) (s : Store)
    → IsValid efs.data_bitmap s.words
    → efs.data_area_start_block + Bitmap.maximum efs.data_bitmap ≤ u32_mod
    → TakesData efs s (alloc_data efs s)
unfolding alloc_data
alloc_data_lem efs s v h =
    takes efs s h (Bitmap.alloc efs.data_bitmap s.words) (alloc_least efs.data_bitmap s.words v)

-- Clearing a block behind the bitmap keeps the bitmap.
module _ (efs : EasyFileSystem)
    (apart : efs.data_bitmap.start_block_id + efs.data_bitmap.blocks
      ≤ efs.data_area_start_block) where
  kept :
      (s : Store) (block i : ℕ)
      → efs.data_area_start_block ≤ block
      → i < efs.data_bitmap.blocks
      → (clear_block block s).words (i + efs.data_bitmap.start_block_id)
        ≡ s.words (i + efs.data_bitmap.start_block_id)
  kept s block i h l =
      let other : (i + efs.data_bitmap.start_block_id == block) ≡ false = ground arith in
      rw other refl

  kept-IsValid :
      (s : Store) (block : ℕ)
      → efs.data_area_start_block ≤ block
      → IsValid efs.data_bitmap s.words
      → IsValid efs.data_bitmap (clear_block block s).words
  kept-IsValid s block h v i l = rw (kept s block i h l) (v i l)

  kept_bit :
      (s : Store) (block b : ℕ)
      → efs.data_area_start_block ≤ block
      → b < Bitmap.maximum efs.data_bitmap
      → bit_in efs.data_bitmap (clear_block block s).words b ≡ bit_in efs.data_bitmap s.words b
  unfolding Bitmap.maximum
  kept_bit s block b h l = rw (kept s block (b / 4096) h (omega arith)) refl

-- The block is free again: the bitmap is as in `s`, and the bytes of the block are 0.
pub record GivesBack (efs : EasyFileSystem) (block : ℕ) (s s' : Store) (r : Run Store)
    : Type 0 where
  pub after : Store
  pub result : r ≡ ok after
  pub bits :
      (b : ℕ)
      → b < Bitmap.maximum efs.data_bitmap
      → bit_in efs.data_bitmap after.words b ≡ bit_in efs.data_bitmap s.words b
  pub cleared : (i : ℕ) → after.bytes block i ≡ 0
  pub others : (c : ℕ) → c ≢ block → after.bytes c ≡ s'.bytes c

gives_back :
    (efs : EasyFileSystem) (s : Store)
    → efs.data_bitmap.start_block_id + efs.data_bitmap.blocks ≤ efs.data_area_start_block
    → efs.data_area_start_block + Bitmap.maximum efs.data_bitmap ≤ u32_mod
    → (block : ℕ) (s' : Store) → TakesData efs s (ok (block, s'))
    → GivesBack efs block s s' (dealloc_data efs block s')
unfolding dealloc_data
gives_back efs s apart h block s' (bit, at, c, same) =
    let back : (block + u32_mod - efs.data_area_start_block) % u32_mod ≡ bit =
      omega (arith, c.fits) in
    let above : efs.data_area_start_block ≤ block = omega arith in
    let s1 = clear_block block s' in
    let set = kept_bit efs apart s' block bit above c.fits ∙ c.now in
    let (words, done, now, others, valid) =
      dealloc_set efs.data_bitmap bit s1.words (kept-IsValid efs apart s' block above c.valid)
        c.fits set in
    let self : (block == block) ≡ true = ground arith in
    rw (back, done)
      (record {
        after = record s1 { words = words };
        result = refl;
        bits = λ b l. elim (Bool-cases (b == bit)) [
          | inl e ↦ let p : b ≡ bit = ground arith in rw p (now ∙ sym c.was)
          | inr e ↦
              let ne : b ≢ bit = λ p. ground arith in
              others b ne ∙ kept_bit efs apart s' block b above l ∙ c.others b ne
        ];
        cleared = λ i. rw self refl;
        others =
            λ x ne. fun_ext (λ i. let other : (x == block) ≡ false = ground arith in rw other refl);
      })

-- In a file system whose data blocks stand behind their bitmap and stay below `2 ^ 32`, a data block
-- that `alloc_data` handed out can be given back: the bitmap is then what it was before, the bytes of
-- the block are 0, and all other bytes are kept.
pub dealloc_data-alloc_data :
    (efs : EasyFileSystem) (s : Store) (block : ℕ) (s' : Store)
    → IsValid efs.data_bitmap s.words
    → efs.data_bitmap.start_block_id + efs.data_bitmap.blocks ≤ efs.data_area_start_block
    → efs.data_area_start_block + Bitmap.maximum efs.data_bitmap ≤ u32_mod
    → alloc_data efs s ≡ ok (block, s')
    → GivesBack efs block s s' (dealloc_data efs block s')
dealloc_data-alloc_data efs s block s' v apart h e =
    gives_back efs s apart h block s' (subst (TakesData efs s) e (alloc_data_lem efs s v h))
