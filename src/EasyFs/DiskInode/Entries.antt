-- ===== src/EasyFs/DiskInode/Entries.antt =====
-- The data blocks of a file are among the numbers that `clear_size` pushes.
use r_corev.Prelude.{
  ℕ, zero, suc, ◌+◌, ◌-◌, ◌/◌, ◌%◌, ◌<◌, ◌≤◌, ◌≡◌, refl, true, List, [], ◌∷◌, ◌++◌, count, get_or,
  ltb, lt→ltb, ◌==◌, if◌then◌else◌, ok, arith, Bool-cases, inl, inr,
}
use r_corev.EasyFs.DiskInode.{
  inode_direct_count, inode_indirect1_count, indirect1_bound, indirect2_bound, DiskInode, Index,
  index_at, get_block_id, pushes, push_full, push_last,
}

-- The number of the data block `i`.
abbrev pub block_at : Index → DiskInode → ℕ → ℕ
block_at ix d i =
    if ltb i inode_direct_count
    then get_or d.direct i 0
    else if ltb i indirect1_bound
    then ix d.indirect1 (i - inode_direct_count)
    else ix (ix d.indirect2 ((i - indirect1_bound) / inode_indirect1_count))
        ((i - indirect1_bound) % inode_indirect1_count)

pub get_block_id-block_at :
    (ix : Index) (d : DiskInode) (i : ℕ)
    → i < indirect2_bound
    → get_block_id i ix d ≡ ok (block_at ix d i)
unfolding get_block_id index_at
get_block_id-block_at ix d i h = elim (Bool-cases (ltb i inode_direct_count)) [
  | inl e ↦ rw e refl
  | inr e ↦ elim (Bool-cases (ltb i indirect1_bound)) [
    | inl f ↦
        let p : ltb (i - inode_direct_count) inode_indirect1_count ≡ true = ground arith in
        rw (e, f, p) refl
    | inr f ↦
        let p : ltb ((i - indirect1_bound) / inode_indirect1_count) inode_indirect1_count ≡ true =
          ground arith in
        let q : ltb ((i - indirect1_bound) % inode_indirect1_count) inode_indirect1_count ≡ true =
          ground arith in
        rw (e, f, p, q) refl
  ]
]

count-append : (p : ℕ) (xs ys : List ℕ) → count p (xs ++ ys) ≡ count p xs + count p ys
unfolding count
count-append p [] ys = omega arith
count-append p (x ∷ xs) ys = omega (arith, count-append p xs ys)

pub in_left : (p : ℕ) (xs ys : List ℕ) → 0 < count p xs → 0 < count p (xs ++ ys)
in_left p xs ys h = omega (arith, count-append p xs ys)

pub in_right : (p : ℕ) (xs ys : List ℕ) → 0 < count p ys → 0 < count p (xs ++ ys)
in_right p xs ys h = omega (arith, count-append p xs ys)

pub in_tail : (p x : ℕ) (xs : List ℕ) → 0 < count p xs → 0 < count p (x ∷ xs)
unfolding count
in_tail p x xs h = omega arith

in_head : (x : ℕ) (xs : List ℕ) → 0 < count x (x ∷ xs)
unfolding count
in_head x xs = let self : (x == x) ≡ true = ground arith in rw self (omega arith)

pub in_pushes : (f : ℕ → ℕ) (i j n : ℕ) → i ≤ j → j < i + n → 0 < count (f j) (pushes f i n)
in_pushes f i j zero l h = absurd (omega arith)
in_pushes f i j (suc n) l h = elim (Bool-cases (i == j)) [
  | inl e ↦ let ij : i ≡ j = ground arith in rw (← ij) (in_head (f i) (pushes f (i + 1) n))
  | inr e ↦
      in_tail (f j) (f i) (pushes f (i + 1) n)
        (in_pushes f (i + 1) j n (ground arith) (omega arith))
]

in_full :
    (ix : Index) (block i q r n : ℕ)
    → i ≤ q
    → q < i + n
    → r < inode_indirect1_count
    → 0 < count (ix (ix block q) r) (push_full ix block i n)
in_full ix block i q r zero l h b = absurd (omega arith)
in_full ix block i q r (suc n) l h b =
    in_tail (ix (ix block q) r) (ix block i)
      (pushes (ix (ix block i)) 0 inode_indirect1_count ++ push_full ix block (i + 1) n)
      (elim (Bool-cases (i == q)) [
        | inl e ↦
            let iq : i ≡ q = ground arith in
            rw (← iq) (
              in_left (ix (ix block i) r) (pushes (ix (ix block i)) 0 inode_indirect1_count)
                (push_full ix block (i + 1) n)
                (in_pushes (ix (ix block i)) 0 r inode_indirect1_count (omega arith) (omega arith)))
        | inr e ↦
            in_right (ix (ix block q) r) (pushes (ix (ix block i)) 0 inode_indirect1_count)
              (push_full ix block (i + 1) n)
              (in_full ix block (i + 1) q r n (ground arith) (omega arith) b)
      ])

-- The entry `m` of the second level, of `n` entries.
pub in_second :
    (ix : Index) (block m n : ℕ)
    → m < n
    → 0
      < count
          (ix (ix block (m / 128)) (m % 128))
          (push_full ix block 0 (n / 128) ++ push_last ix block (n / 128) (n % 128))
in_second ix block m n h = elim (Bool-cases (ltb (m / 128) (n / 128))) [
  | inl e ↦
      in_left (ix (ix block (m / 128)) (m % 128)) (push_full ix block 0 (n / 128))
        (push_last ix block (n / 128) (n % 128))
        (in_full ix block 0 (m / 128) (m % 128) (n / 128) (omega arith) (ground arith)
          (omega arith))
  | inr e ↦
      let same : m / 128 ≡ n / 128 = ground arith in
      let below : m % 128 < n % 128 = omega arith in
      in_right (ix (ix block (m / 128)) (m % 128)) (push_full ix block 0 (n / 128))
        (push_last ix block (n / 128) (n % 128))
        (rw (same, lt→ltb 0 (n % 128) (omega arith))
          (in_tail (ix (ix block (n / 128)) (m % 128)) (ix block (n / 128))
            (pushes (ix (ix block (n / 128))) 0 (n % 128))
            (in_pushes (ix (ix block (n / 128))) 0 (m % 128) (n % 128) (omega arith)
              (omega arith))))
]
