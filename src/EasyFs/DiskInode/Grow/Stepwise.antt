-- ===== src/EasyFs/DiskInode/Grow/Stepwise.antt =====
-- `increase_size` adds the data blocks one after the other: a description of what one more data block
-- takes, and the three loops of the code as repetitions of it.
use r_corev.Prelude.{
  ℕ, ◌+◌, ◌-◌, ◌≤◌, ◌<◌, ◌≡◌, refl, sym, ap, ◌∙◌, fun_ext, leb, ◌==◌, min, if◌then◌else◌, ok, ◌>>=◌,
  Bool-cases, inl, inr, arith,
}
use r_corev.EasyFs.DiskInode.{inode_direct_count, inode_indirect1_count, indirect1_bound}
use r_corev.EasyFs.DiskInode.Grow.{
  Growth, fill_direct, alloc_indirect1, fill_indirect1, grow_second, grow_first, grow_blocks,
}
use r_corev.EasyFs.DiskInode.Grow.Steps.{
  add_blocks, bind_assoc, add_blocks-add, fill_direct_lem, first_alloc,
}
use r_corev.EasyFs.DiskInode.Grow.Second.{second_alloc}

grow_second_lem :
    (current total : ℕ) (g : Growth)
    → current ≤ total
    → (total ≤ 128 → current ≡ total)
    → (128 < total → 128 ≤ current)
    → grow_second current total g ≡ add_blocks (total - current) (current + 28) g
unfolding grow_second add_blocks
grow_second_lem current total g l small large =
    elim (Bool-cases (leb total inode_indirect1_count)) [
      | inl e ↦
          let none_left : total - current ≡ 0 = ground (arith, small) in rw (e, none_left) refl
      | inr e ↦
          let above : 128 < total = ground arith in
          let a : current + 28 - indirect1_bound ≡ current - 128 = omega arith in
          let b : current + 28 + (total - current) - indirect1_bound ≡ total - 128 = omega arith in
          let same : (current + 28 == indirect1_bound) ≡ (current == 128) = ground arith in
          let c =
            second_alloc (total - current) (total - 128 + 1) (current + 28) g
              (omega (arith, large above)) (λ x. omega arith) (omega (arith, large above)) in
          rw e (rw (a, b, same) at c)
    ]

grow_first_lem :
    (current total : ℕ) (g : Growth)
    → current ≤ total
    → (total ≤ 28 → current ≡ total)
    → (28 < total → 28 ≤ current)
    → grow_first current total g ≡ add_blocks (total - current) current g
unfolding grow_first add_blocks
grow_first_lem current total g l small large = elim (Bool-cases (leb total inode_direct_count)) [
  | inl e ↦ let none_left : total - current ≡ 0 = ground (arith, small) in rw (e, none_left) refl
  | inr e ↦
      let above : 28 < total = ground arith in
      let from = large above in
      let n = min (total - 28) 128 - (current - 28) in
      let rest = total - current - n in
      let start = if current == inode_direct_count then alloc_indirect1 g else ok g in
      let first = first_alloc n current g from (λ x. omega arith) (λ x. omega arith) in
      let second : (g'' : Growth)
          → grow_second (current - 28 + n) (total - 28) g'' ≡ add_blocks rest (current + n) g'' =
        λ g''.
          let p : total - 28 - (current - 28 + n) ≡ rest = omega arith in
          let q : current - 28 + n + 28 ≡ current + n = omega arith in
          let c =
            grow_second_lem (current - 28 + n) (total - 28) g'' (omega arith) (λ x. omega arith)
              (λ x. omega arith) in
          rw (p, q) at c in
      let sum : total - current ≡ n + rest = omega arith in
      rw (e, sum)
        (ap (λ f. start >>= f)
            (fun_ext (λ g'. ap (λ f. fill_indirect1 n (current - 28) g' >>= f) (fun_ext second)))
          ∙ sym (
              bind_assoc start (fill_indirect1 n (current - 28))
                (λ g''. add_blocks rest (current + n) g''))
          ∙ ap (λ r. r >>= λ g''. add_blocks rest (current + n) g'') first
          ∙ sym (add_blocks-add n rest current g))
]

-- Going from `current` data blocks to `total` is adding the blocks `current`, `current + 1`, …, one
-- at a time.
pub grow_blocks_lem :
    (current total : ℕ) (g : Growth)
    → current ≤ total
    → grow_blocks current total g ≡ add_blocks (total - current) current g
unfolding grow_blocks
grow_blocks_lem current total g l =
    let n = min total 28 - current in
    let rest = total - current - n in
    let first = fill_direct_lem n current g (λ x. omega arith) in
    let second : (g' : Growth)
        → grow_first (current + n) total g' ≡ add_blocks rest (current + n) g' =
      λ g'.
        let p : total - (current + n) ≡ rest = omega arith in
        let c =
          grow_first_lem (current + n) total g' (omega arith) (λ x. omega arith)
            (λ x. omega arith) in
        rw p at c in
    let sum : total - current ≡ n + rest = omega arith in
    rw sum (
      ap (λ f. fill_direct n current g >>= f) (fun_ext second)
      ∙ ap (λ r. r >>= λ g'. add_blocks rest (current + n) g') first
      ∙ sym (add_blocks-add n rest current g))
