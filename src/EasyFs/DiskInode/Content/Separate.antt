-- ===== src/EasyFs/DiskInode/Content/Separate.antt =====
-- The data blocks of a file are apart from each other and from the index blocks that find them: then a
-- write to a data block changes no number of a data block.
use r_corev.Prelude.{
  ℕ, ◌-◌, ◌/◌, ◌%◌, ◌≤◌, ◌<◌, ◌≡◌, ◌≢◌, refl, ap, ◌∙◌, List, fun_ext, ltb, ◌==◌, arith, Bool-cases,
  inl, inr,
}
use r_corev.EasyFs.DiskInode.{DiskInode, Index, indirect1_bound, inode_direct_count}
use r_corev.EasyFs.DiskInode.Entries.{block_at}
use r_corev.EasyFs.DiskInode.Content.{Disk, index_of, entry_of, write_block}

-- The first `n` data blocks are different blocks, and none of them is an index block that finds one of
-- them.
pub record IsSeparate (ix : Index) (d : DiskInode) (n : ℕ) : Type 0 where
  pub distinct : (i j : ℕ) → i < n → j < n → block_at ix d i ≡ block_at ix d j → i ≡ j
  pub first : (i j : ℕ) → i < n → j < n → inode_direct_count ≤ j → d.indirect1 ≢ block_at ix d i
  pub second : (i j : ℕ) → i < n → j < n → indirect1_bound ≤ j → d.indirect2 ≢ block_at ix d i
  pub third :
      (i j : ℕ)
      → i < n
      → j < n
      → indirect1_bound ≤ j
      → ix d.indirect2 ((j - indirect1_bound) / 128) ≢ block_at ix d i

-- The disks agree on every block that is not one of the first `n` of `block`.
abbrev pub Agrees : (ℕ → ℕ) → ℕ → Disk → Disk → Type 0
Agrees block n m0 m = (c : ℕ) → ((i : ℕ) → i < n → c ≢ block i) → m c ≡ m0 c

-- Then the file has the same data blocks.
pub same_block :
    (m0 m : Disk) (d : DiskInode) (n : ℕ)
    → IsSeparate (index_of m0) d n
    → Agrees (block_at (index_of m0) d) n m0 m
    → (j : ℕ) → j < n
    → block_at (index_of m) d j ≡ block_at (index_of m0) d j
same_block m0 m d n s a j h = elim (Bool-cases (ltb j inode_direct_count)) [
  | inl e ↦ rw e refl
  | inr e ↦ elim (Bool-cases (ltb j indirect1_bound)) [
    | inl f ↦
        let same = a d.indirect1 (λ i l. s.first i j l h (ground arith)) in
        rw (e, f) (ap (λ b. entry_of b (j - inode_direct_count)) same)
    | inr f ↦
        let top = a d.indirect2 (λ i l. s.second i j l h (ground arith)) in
        let low =
          a (index_of m0 d.indirect2 ((j - indirect1_bound) / 128))
            (λ i l. s.third i j l h (ground arith)) in
        rw (e, f)
          (ap
              (λ b.
                entry_of (m (entry_of b ((j - indirect1_bound) / 128)))
                  ((j - indirect1_bound) % 128))
              top
            ∙ ap (λ b. entry_of b ((j - indirect1_bound) % 128)) low)
  ]
]

write_block_ne :
    (m : Disk) (b at : ℕ) (src : List ℕ) (c : ℕ) → c ≢ b → write_block m b at src c ≡ m c
write_block_ne m b at src c h = elim (Bool-cases (c == b)) [
  | inl e ↦ absurd (h (ground arith))
  | inr e ↦ fun_ext (λ j. rw e refl)
]

-- A write to one of the data blocks.
pub keep :
    (block : ℕ → ℕ) (n : ℕ) (m0 m : Disk) (i at : ℕ) (src : List ℕ)
    → Agrees block n m0 m
    → i < n
    → Agrees block n m0 (write_block m (block i) at src)
keep block n m0 m i at src a h c out = write_block_ne m (block i) at src c (out i h) ∙ a c out
