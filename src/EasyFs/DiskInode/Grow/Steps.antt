-- ===== src/EasyFs/DiskInode/Grow/Steps.antt =====
-- Adding data blocks one after the other, and the loops over the direct blocks and the first index
-- block.
use r_corev.Prelude.{
  ℕ, zero, suc, ◌+◌, ◌-◌, ◌/◌, ◌%◌, ◌≤◌, ◌<◌, ◌≡◌, refl, sym, ap, ◌∙◌, true, false, [], ◌∷◌,
  fun_ext, ltb, ◌==◌, if◌then◌else◌, Run, ok, panic, ◌>>=◌, Bool-cases, inl, inr, arith,
}
use r_corev.EasyFs.DiskInode.{inode_direct_count, inode_indirect1_count, indirect1_bound}
use r_corev.EasyFs.DiskInode.Grow.{
  Growth, next_block, put_direct, put_first, fill_direct, alloc_indirect1, fill_indirect1,
  alloc_indirect2, second_pass,
}

unfoldable pub add_first : ℕ → Growth → Run Growth
add_first i g = (if i == inode_direct_count then alloc_indirect1 g else ok g) >>= λ g1.
    next_block g1 (λ b g'. ok (put_first (i - inode_direct_count) b g'))

unfoldable pub add_second : ℕ → Growth → Run Growth
add_second i g = (if i == indirect1_bound then alloc_indirect2 g else ok g) >>= λ g1.
    second_pass ((i - indirect1_bound) / inode_indirect1_count)
      ((i - indirect1_bound) % inode_indirect1_count) g1

-- The data block `i` of a file that has `i` data blocks.
unfoldable pub add_block : ℕ → Growth → Run Growth
unfolding add_first add_second
add_block i g =
    if ltb i inode_direct_count
    then next_block g (λ b g'. ok (put_direct i b g'))
    else if ltb i indirect1_bound
    then add_first i g
    else add_second i g

-- `n` more data blocks, for a file that has `i`.
unfoldable pub add_blocks : ℕ → ℕ → Growth → Run Growth
unfolding add_block
add_blocks zero i g = ok g
add_blocks (suc n) i g = add_block i g >>= λ g'. add_blocks n (i + 1) g'

pub bind_assoc :
    (m : Run Growth) (f h : Growth → Run Growth) → ((m >>= f) >>= h) ≡ (m >>= λ g. f g >>= h)
bind_assoc panic f h = refl
bind_assoc (ok g) f h = refl

bind_ok : (m : Run Growth) → (m >>= λ g. ok g) ≡ m
bind_ok panic = refl
bind_ok (ok g) = refl

pub add_blocks-add :
    (n k i : ℕ) (g : Growth)
    → add_blocks (n + k) i g ≡ (add_blocks n i g >>= λ g'. add_blocks k (i + n) g')
unfolding add_blocks
add_blocks-add zero k i g =
    let p : 0 + k ≡ k = omega arith in let q : i + 0 ≡ i = omega arith in rw (p, q) refl
add_blocks-add (suc n) k i g =
    let p : suc n + k ≡ suc (n + k) = omega arith in
    let q : i + suc n ≡ i + 1 + n = omega arith in
    rw (p, q)
      (ap (λ f. add_block i g >>= f) (fun_ext (λ g'. add_blocks-add n k (i + 1) g'))
        ∙ sym (
            bind_assoc (add_block i g) (λ g'. add_blocks n (i + 1) g')
              (λ g'. add_blocks k (i + 1 + n) g')))

next-bind :
    (g : Growth) (f : ℕ → Growth → Run Growth) (h : Growth → Run Growth)
    → (next_block g f >>= h) ≡ next_block g (λ b g'. f b g' >>= h)
next-bind g f h =
    elim g.new_blocks
      as (λ bs.
        ((elim bs [ [] ↦ panic | b ∷ bs ↦ f b (record g { new_blocks = bs }) ]) >>= h)
        ≡ (elim bs [ [] ↦ panic | b ∷ bs ↦ f b (record g { new_blocks = bs }) >>= h ])) [
          | [] ↦ refl
          | b ∷ bs ↦ refl
        ]

pub fill_direct_lem :
    (n i : ℕ) (g : Growth)
    → (0 < n → i + n ≤ inode_direct_count)
    → fill_direct n i g ≡ add_blocks n i g
unfolding fill_direct add_blocks add_block
fill_direct_lem zero i g h = refl
fill_direct_lem (suc n) i g h =
    let b = h (omega arith) in
    let p : ltb i inode_direct_count ≡ true = ground arith in
    rw p (
      ap (next_block g) (
        fun_ext
          (λ v. fun_ext (λ g'. fill_direct_lem n (i + 1) (put_direct i v g') (λ x. omega arith))))
      ∙ sym (next-bind g (λ v g'. ok (put_direct i v g')) (λ g'. add_blocks n (i + 1) g')))

-- The loop over the entries of the first index block, with its allocation.
first_lem :
    (n i : ℕ) (g : Growth)
    → inode_direct_count < i
    → (0 < n → i + n ≤ indirect1_bound)
    → fill_indirect1 n (i - inode_direct_count) g ≡ add_blocks n i g
unfolding fill_indirect1 add_blocks add_block add_first
first_lem zero i g l h = refl
first_lem (suc n) i g l h =
    let b = h (omega arith) in
    let p : ltb i inode_direct_count ≡ false = ground arith in
    let q : ltb i indirect1_bound ≡ true = ground arith in
    let r : (i == inode_direct_count) ≡ false = ground arith in
    let e : i - inode_direct_count + 1 ≡ i + 1 - inode_direct_count = omega arith in
    rw (p, q, r)
      (ap (next_block g) (
          fun_ext (λ v. fun_ext (λ g'.
            ap (λ x. fill_indirect1 n x (put_first (i - inode_direct_count) v g')) e
            ∙ first_lem n (i + 1) (put_first (i - inode_direct_count) v g') (omega arith)
                (λ x. omega arith))))
        ∙ sym (
            next-bind g (λ v g'. ok (put_first (i - inode_direct_count) v g'))
              (λ g'. add_blocks n (i + 1) g')))

pub first_alloc :
    (n i : ℕ) (g : Growth)
    → inode_direct_count ≤ i
    → (0 < n → i + n ≤ indirect1_bound)
    → (i ≡ inode_direct_count → 0 < n)
    → ((if i == inode_direct_count then alloc_indirect1 g else ok g) >>= λ g'.
        fill_indirect1 n (i - inode_direct_count) g')
      ≡ add_blocks n i g
unfolding add_blocks add_block fill_indirect1 add_first
first_alloc zero i g l h m =
    let r : (i == inode_direct_count) ≡ false = ground (arith, m) in rw r refl
first_alloc (suc n) i g l h m =
    let b = h (omega arith) in
    elim (Bool-cases (i == inode_direct_count)) [
      | inl r ↦
          let p : ltb i inode_direct_count ≡ false = ground arith in
          let q : ltb i indirect1_bound ≡ true = ground arith in
          let e : i - inode_direct_count + 1 ≡ i + 1 - inode_direct_count = omega arith in
          rw (p, q, r)
            (ap (λ f. alloc_indirect1 g >>= f)
                (fun_ext (λ g1.
                  ap (next_block g1) (
                    fun_ext (λ v. fun_ext (λ g'.
                      ap (λ x. fill_indirect1 n x (put_first (i - inode_direct_count) v g')) e
                      ∙ first_lem n (i + 1) (put_first (i - inode_direct_count) v g') (ground arith)
                          (λ x. omega arith))))
                  ∙ sym (
                      next-bind g1 (λ v g'. ok (put_first (i - inode_direct_count) v g'))
                        (λ g'. add_blocks n (i + 1) g'))))
              ∙ sym (
                  bind_assoc (alloc_indirect1 g)
                    (λ g1. next_block g1 (λ v g'. ok (put_first (i - inode_direct_count) v g')))
                    (λ g'. add_blocks n (i + 1) g')))
      | inr r ↦
          ap
            (λ t. (if t then alloc_indirect1 g else ok g) >>= λ g'.
              fill_indirect1 (suc n) (i - inode_direct_count) g')
            r
          ∙ first_lem (suc n) i g (ground arith) h
    ]
