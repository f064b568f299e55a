-- ===== src/EasyFs/DiskInode/Clear.antt =====
-- `clear_size` gives back every block of the file.
use r_corev.Prelude.{
  ℕ, zero, suc, ◌+◌, ◌-◌, ◌*◌, ◌/◌, ◌%◌, ◌<◌, ◌≤◌, ◌≡◌, refl, ap, ◌∙◌, true, false, List, ◌∷◌, ◌++◌,
  length, length-append, count, get_or, min, ltb, leb, leb→le, ltb→lt, lt→ltb, if◌then◌else◌, Run,
  ok, arith, Bool-cases, inl, inr,
}
use r_corev.EasyFs.Device.{block_sz}
use r_corev.EasyFs.DiskInode.{
  u32_mod, inode_direct_count, inode_indirect1_count, inode_indirect2_count, indirect1_bound,
  indirect2_bound, DiskInode, data_blocks_of, data_blocks, total_blocks, Index, get_block_id,
  pushes, push_full, push_last, clear_blocks, clear_size,
}
use r_corev.EasyFs.DiskInode.Sizes.{total_sum, index_blocks}
use r_corev.EasyFs.DiskInode.Entries.{
  block_at, get_block_id-block_at, in_left, in_right, in_tail, in_pushes, in_second,
}

length-pushes : (f : ℕ → ℕ) (i n : ℕ) → length (pushes f i n) ≡ n
length-pushes f i zero = refl
length-pushes f i (suc n) = ap suc (length-pushes f (i + 1) n)

length-push_full : (ix : Index) (block i n : ℕ) → length (push_full ix block i n) ≡ n * 129
length-push_full ix block i zero = refl
length-push_full ix block i (suc n) = omega (
  arith,
  length-append (pushes (ix (ix block i)) 0 inode_indirect1_count) (push_full ix block (i + 1) n),
  length-pushes (ix (ix block i)) 0 inode_indirect1_count,
  length-push_full ix block (i + 1) n,
)

length-push_last :
    (ix : Index) (block a b : ℕ) → length (push_last ix block a b) ≡ (if ltb 0 b then 1 + b else 0)
length-push_last ix block a b = elim (Bool-cases (ltb 0 b)) [
  | inl e ↦ rw e (omega (arith, length-pushes (ix (ix block a)) 0 b))
  | inr e ↦ rw e refl
]

index_few : (n : ℕ) → n ≤ inode_direct_count → index_blocks n ≡ 0
unfolding index_blocks
index_few n h = ground arith

index_one : (n : ℕ) → inode_direct_count < n → n ≤ indirect1_bound → index_blocks n ≡ 1
unfolding index_blocks
index_one n h u = ground arith

index_two : (n : ℕ) → indirect1_bound < n → index_blocks n ≡ 2 + (n - 156 + 127) / 128
unfolding index_blocks
index_two n h = ground arith

direct_part :
    (d : DiskInode) (n : ℕ)
    → length (pushes (λ i. get_or d.direct i 0) 0 (min n inode_direct_count)) ≡ min n 28
direct_part d n = length-pushes (λ i. get_or d.direct i 0) 0 (min n inode_direct_count)

first_part :
    (ix : Index) (d : DiskInode) (n m : ℕ)
    → length (
        pushes (λ i. get_or d.direct i 0) 0 (min n inode_direct_count)
        ++ (d.indirect1 ∷ pushes (ix d.indirect1) 0 (min m inode_indirect1_count)))
      ≡ min n 28 + 1 + min m 128
first_part ix d n m = omega (
  arith,
  length-append (pushes (λ i. get_or d.direct i 0) 0 (min n inode_direct_count))
      (d.indirect1 ∷ pushes (ix d.indirect1) 0 (min m inode_indirect1_count)),
  direct_part d n,
  length-pushes (ix d.indirect1) 0 (min m inode_indirect1_count),
)

second_part :
    (ix : Index) (block a b : ℕ)
    → length (block ∷ (push_full ix block 0 a ++ push_last ix block a b))
      ≡ 1 + a * 129 + (if ltb 0 b then 1 + b else 0)
second_part ix block a b = omega (
  arith,
  length-append (push_full ix block 0 a) (push_last ix block a b),
  length-push_full ix block 0 a,
  length-push_last ix block a b,
)

both_parts :
    (ix : Index) (d : DiskInode) (n m a b : ℕ)
    → length (
        (pushes (λ i. get_or d.direct i 0) 0 (min n inode_direct_count)
          ++ (d.indirect1 ∷ pushes (ix d.indirect1) 0 (min m inode_indirect1_count)))
        ++ (d.indirect2 ∷ (push_full ix d.indirect2 0 a ++ push_last ix d.indirect2 a b)))
      ≡ min n 28 + 1 + min m 128 + (1 + a * 129 + (if ltb 0 b then 1 + b else 0))
both_parts ix d n m a b =
    length-append
      (pushes (λ i. get_or d.direct i 0) 0 (min n inode_direct_count)
        ++ (d.indirect1 ∷ pushes (ix d.indirect1) 0 (min m inode_indirect1_count)))
      (d.indirect2 ∷ (push_full ix d.indirect2 0 a ++ push_last ix d.indirect2 a b))
    ∙ rw (first_part ix d n m, second_part ix d.indirect2 a b) refl

last_block :
    (n : ℕ) → n / 128 * 129 + (if ltb 0 (n % 128) then 1 + n % 128 else 0) ≡ n + (n + 127) / 128
last_block n = ground arith

-- `total` numbers are given back, among them those of the data blocks, and the file is empty.
pub record Cleared (ix : Index) (d : DiskInode) (n total : ℕ) (r : Run (List ℕ × DiskInode))
    : Type 0 where
  pub blocks : List ℕ
  pub after : DiskInode
  pub result : r ≡ ok (blocks, after)
  pub as_many : length blocks ≡ total
  pub empty : after.size ≡ 0
  pub all : (i : ℕ) → i < n → (b : ℕ) × (get_block_id i ix d ≡ ok b) × (0 < count b blocks)

abbrev v0 : DiskInode → ℕ → List ℕ
v0 d n = pushes (λ i. get_or d.direct i 0) 0 (min n inode_direct_count)

abbrev v1 : Index → DiskInode → ℕ → List ℕ
v1 ix d n =
    v0 d n
    ++ (d.indirect1
        ∷ pushes (ix d.indirect1) 0 (min (n - inode_direct_count) inode_indirect1_count))

in_direct :
    (ix : Index) (d : DiskInode) (n i : ℕ)
    → i < n
    → n ≤ inode_direct_count
    → 0 < count (block_at ix d i) (v0 d n)
in_direct ix d n i l h = rw (lt→ltb i inode_direct_count (omega arith)) (
    in_pushes (λ i. get_or d.direct i 0) 0 i (min n inode_direct_count) (omega arith) (omega arith))

in_first :
    (ix : Index) (d : DiskInode) (n i : ℕ)
    → i < n
    → i < indirect1_bound
    → 0 < count (block_at ix d i) (v1 ix d n)
in_first ix d n i l h = elim (Bool-cases (ltb i inode_direct_count)) [
  | inl e ↦ rw e (
      in_left (get_or d.direct i 0) (v0 d n)
        (d.indirect1
          ∷ pushes (ix d.indirect1) 0 (min (n - inode_direct_count) inode_indirect1_count))
        (in_pushes (λ i. get_or d.direct i 0) 0 i (min n inode_direct_count) (omega arith)
          (ground arith)))
  | inr e ↦
      let past : inode_direct_count ≤ i = ground arith in
      rw (e, lt→ltb i indirect1_bound h)
        (in_right (ix d.indirect1 (i - inode_direct_count)) (v0 d n)
          (d.indirect1
            ∷ pushes (ix d.indirect1) 0 (min (n - inode_direct_count) inode_indirect1_count))
          (in_tail (ix d.indirect1 (i - inode_direct_count)) d.indirect1
            (pushes (ix d.indirect1) 0 (min (n - inode_direct_count) inode_indirect1_count))
            (in_pushes (ix d.indirect1) 0 (i - inode_direct_count)
              (min (n - inode_direct_count) inode_indirect1_count) (omega arith) (omega arith))))
]

abbrev v2 : Index → DiskInode → ℕ → List ℕ
v2 ix d n =
    d.indirect2
    ∷ (push_full ix d.indirect2 0 (n / 128) ++ push_last ix d.indirect2 (n / 128) (n % 128))

in_both :
    (ix : Index) (d : DiskInode) (n i : ℕ)
    → i < n
    → indirect1_bound < n
    → 0 < count (block_at ix d i) (v1 ix d n ++ v2 ix d (n - 28 - 128))
in_both ix d n i l h = elim (Bool-cases (ltb i indirect1_bound)) [
  | inl e ↦
      in_left (block_at ix d i) (v1 ix d n) (v2 ix d (n - 28 - 128))
        (in_first ix d n i l (ltb→lt i indirect1_bound e))
  | inr e ↦
      let past : indirect1_bound ≤ i = ground arith in
      let e' : ltb i inode_direct_count ≡ false = ground arith in
      rw (e', e)
        (in_right (ix (ix d.indirect2 ((i - 156) / 128)) ((i - 156) % 128)) (v1 ix d n)
          (v2 ix d (n - 28 - 128))
          (in_tail (ix (ix d.indirect2 ((i - 156) / 128)) ((i - 156) % 128)) d.indirect2
            (push_full ix d.indirect2 0 ((n - 28 - 128) / 128)
              ++ push_last ix d.indirect2 ((n - 28 - 128) / 128) ((n - 28 - 128) % 128))
            (in_second ix d.indirect2 (i - 156) (n - 28 - 128) (omega arith))))
]

clear_blocks_lem :
    (ix : Index) (d : DiskInode) (n : ℕ)
    → n ≤ indirect2_bound
    → Cleared ix d n (n + index_blocks n) (clear_blocks ix d n)
unfolding clear_blocks
clear_blocks_lem ix d n u = elim (Bool-cases (leb n inode_direct_count)) [
  | inl e ↦
      let few = leb→le n inode_direct_count e in
      rw e (record {
        blocks = _;
        after = _;
        result = refl;
        as_many = omega (arith, direct_part d n, index_few n few);
        empty = refl;
        all = λ i l.
            (block_at ix d i, get_block_id-block_at ix d i (omega arith), in_direct ix d n i l few);
      })
  | inr e ↦
      let many : inode_direct_count < n = ground arith in
      elim (Bool-cases (leb (n - inode_direct_count) inode_indirect1_count)) [
        | inl f ↦
            let few = leb→le (n - inode_direct_count) inode_indirect1_count f in
            rw (e, f)
              (record {
                blocks = _;
                after = _;
                result = refl;
                as_many =
                    omega (arith, first_part ix d n (n - inode_direct_count), index_one n many);
                empty = refl;
                all = λ i l. (
                  block_at ix d i,
                  get_block_id-block_at ix d i (omega arith),
                  in_first ix d n i l (omega (arith, few)),
                );
              })
        | inr f ↦
            let more : indirect1_bound < n = ground arith in
            let g : leb (n - inode_direct_count - inode_indirect1_count) inode_indirect2_count
                ≡ true =
              ground arith in
            rw (e, f, g)
              (record {
                blocks = _;
                after = _;
                result = refl;
                as_many = omega (
                  arith,
                  both_parts ix d n (n - 28) ((n - 28 - 128) / 128) ((n - 28 - 128) % 128),
                  last_block (n - 28 - 128),
                  index_two n more,
                );
                empty = refl;
                all = λ i l. (
                  block_at ix d i,
                  get_block_id-block_at ix d i (omega arith),
                  in_both ix d n i l (omega arith),
                );
              })
      ]
]

-- For a file whose size is 512 or more below 2 ^ 32, of at most the blocks that the two levels of indices reach, `clear_size` gives back as
-- many numbers as `total_blocks` counts, data and index blocks, among them what `get_block_id` gives
-- for every data block, and the file is empty.
pub clear_size_lem :
    (ix : Index) (d : DiskInode)
    → d.size + block_sz ≤ u32_mod
    → data_blocks d ≤ indirect2_bound
    → Cleared ix d (data_blocks d) (total_blocks d.size) (clear_size ix d)
unfolding clear_size data_blocks
clear_size_lem ix d h u = rw (total_sum d.size h) (clear_blocks_lem ix d (data_blocks_of d.size) u)
