-- ===== src/EasyFs/DiskInode/Grow/Needed.antt =====
-- `increase_size` takes exactly the blocks that `blocks_num_needed` counts.
use r_corev.Prelude.{
  ℕ, zero, suc, ◌+◌, ◌-◌, ◌*◌, ◌/◌, ◌%◌, ◌≤◌, ◌<◌, ◌≡◌, refl, sym, ap, subst, ◌∙◌, true, List, ltb,
  ◌==◌, if◌then◌else◌, drop, length, get_or, Run, ok, Bool-cases, inl, inr, arith,
}
use r_corev.EasyFs.Device.{block_sz}
use r_corev.EasyFs.DiskInode.{
  DiskInode, data_blocks, data_blocks_of, total_blocks, blocks_num_needed, inode_direct_count,
  inode_indirect1_count, indirect1_bound, indirect2_bound,
}
use r_corev.EasyFs.DiskInode.Sizes.{
  index_blocks, total_sum, data_blocks_mono, index_blocks_mono, blocks_num_needed_lem,
  data_blocks_lem,
}
use r_corev.EasyFs.DiskInode.Content.{Disk, index_of}
use r_corev.EasyFs.DiskInode.Grow.{
  Growth, next_block, put_direct, put_first, write_entry, put_second, alloc_low, alloc_indirect1,
  alloc_indirect2, second_pass, increase_size,
}
use r_corev.EasyFs.DiskInode.Grow.Steps.{add_block, add_first, add_second, add_blocks}
use r_corev.EasyFs.DiskInode.Grow.Stepwise.{grow_blocks_lem}
use r_corev.EasyFs.DiskInode.Grow.Taken.{
  Grew, Grew-bind, Grew-refl, on_disk, put_direct_lem, alloc_first_lem, alloc_second_lem, one_if,
  remaining,
}

first_if :
    (i : ℕ) (g : Growth)
    → one_if (i == inode_direct_count) ≤ length g.new_blocks
    → Grew i
        (one_if (i == inode_direct_count))
        g
        (if i == inode_direct_count then alloc_indirect1 g else ok g)
first_if i g h = elim (Bool-cases (i == inode_direct_count)) [
  | inl e ↦ rw e (alloc_first_lem i g (ground arith) (ground arith))
  | inr e ↦ rw e (Grew-refl i g)
]

second_if :
    (i : ℕ) (g : Growth)
    → one_if (i == indirect1_bound) ≤ length g.new_blocks
    → Grew i
        (one_if (i == indirect1_bound))
        g
        (if i == indirect1_bound then alloc_indirect2 g else ok g)
second_if i g h = elim (Bool-cases (i == indirect1_bound)) [
  | inl e ↦ rw e (alloc_second_lem i g (ground arith) (ground arith))
  | inr e ↦ rw e (Grew-refl i g)
]

pass_lem :
    (i a b : ℕ) (g : Growth)
    → a < inode_indirect1_count
    → one_if (b == 0) + 1 ≤ length g.new_blocks
    → Grew i (one_if (b == 0) + 1) g (second_pass a b g)
unfolding second_pass alloc_low put_second
pass_lem i a b g l h =
    let inside : ltb a inode_indirect1_count ≡ true = ground arith in
    let low : Grew i (one_if (b == 0)) g (alloc_low a b g) = elim (Bool-cases (b == 0)) [
      | inl e ↦
          rw e (on_disk i g (λ v g'. write_entry g'.disk g'.inode.indirect2 a v) (ground arith))
      | inr e ↦ rw e (Grew-refl i g)
    ] in
    rw inside (
      Grew-bind (put_second a b) (omega arith) low (
        on_disk i low.after
          (λ v g'. write_entry g'.disk (index_of g'.disk g'.inode.indirect2 a) b v)
          (omega (arith, remaining low))))

-- The new blocks that the data block `i` takes.
abbrev needs : ℕ → ℕ
needs i = index_blocks (i + 1) + 1 - index_blocks i

add_first_lem :
    (i : ℕ) (g : Growth)
    → inode_direct_count ≤ i
    → i < indirect1_bound
    → needs i ≤ length g.new_blocks
    → Grew i (needs i) g (add_first i g)
unfolding add_first index_blocks
add_first_lem i g l u h =
    let n : needs i ≡ one_if (i == inode_direct_count) + 1 = ground arith in
    let c = first_if i g (omega (arith, n)) in
    subst (λ k. Grew i k g (add_first i g)) (sym n)
      (Grew-bind (λ g1. next_block g1 (λ b g'. ok (put_first (i - inode_direct_count) b g')))
        (omega arith) c
        (on_disk i c.after
          (λ v g'. write_entry g'.disk g'.inode.indirect1 (i - inode_direct_count) v)
          (omega (arith, n, remaining c))))

add_second_lem :
    (i : ℕ) (g : Growth)
    → indirect1_bound ≤ i
    → i < indirect2_bound
    → needs i ≤ length g.new_blocks
    → Grew i (needs i) g (add_second i g)
unfolding add_second index_blocks
add_second_lem i g l u h =
    let b = (i - indirect1_bound) % 128 in
    let n : needs i ≡ one_if (i == indirect1_bound) + (one_if (b == 0) + 1) = ground arith in
    let c = second_if i g (omega (arith, n)) in
    subst (λ k. Grew i k g (add_second i g)) (sym n)
      (Grew-bind (second_pass ((i - indirect1_bound) / 128) b) (omega arith) c (
        pass_lem i ((i - indirect1_bound) / 128) b c.after (omega arith)
          (omega (arith, n, remaining c))))

add_block_lem :
    (i : ℕ) (g : Growth)
    → i < indirect2_bound
    → needs i ≤ length g.new_blocks
    → Grew i (needs i) g (add_block i g)
unfolding add_block index_blocks
add_block_lem i g u h = elim (Bool-cases (ltb i inode_direct_count)) [
  | inl e ↦
      let n : needs i ≡ 1 = ground arith in
      let c = put_direct_lem i g (omega (arith, n)) in
      rw e (subst (λ k. Grew i k g (next_block g (λ b g'. ok (put_direct i b g')))) (sym n) c)
  | inr e ↦ elim (Bool-cases (ltb i indirect1_bound)) [
    | inl f ↦ rw (e, f) (add_first_lem i g (ground arith) (ground arith) h)
    | inr f ↦ rw (e, f) (add_second_lem i g (ground arith) (ground arith) h)
  ]
]

add_blocks_lem :
    (n i k : ℕ) (g : Growth)
    → i + n ≤ indirect2_bound
    → k ≡ index_blocks (i + n) + n - index_blocks i
    → k ≤ length g.new_blocks
    → Grew i k g (add_blocks n i g)
unfolding add_blocks
add_blocks_lem zero i k g u e h =
    let same : i + 0 ≡ i = omega arith in
    let none_left : k ≡ 0 = omega (arith, ap index_blocks same) in
    subst (λ x. Grew i x g (ok g)) (sym none_left) (Grew-refl i g)
add_blocks_lem (suc n) i k g u e h =
    let next : i + suc n ≡ i + 1 + n = omega arith in
    let rest = index_blocks (i + 1 + n) + n - index_blocks (i + 1) in
    let m1 = index_blocks_mono i (i + 1) (omega arith) in
    let m2 = index_blocks_mono (i + 1) (i + 1 + n) (omega arith) in
    let sum : k ≡ needs i + rest = omega (arith, ap index_blocks next) in
    let c = add_block_lem i g (omega arith) (omega arith) in
    subst (λ x. Grew i x g (add_blocks (suc n) i g)) (sym sum)
      (Grew-bind (add_blocks n (i + 1)) (omega arith) c
        (add_blocks_lem n (i + 1) rest c.after (omega arith) refl (omega (arith, remaining c))))

pub record Increased (new_size needed : ℕ) (new_blocks : List ℕ) (d : DiskInode) (r : Run Growth)
    : Type 0 where
  pub after : Growth
  pub result : r ≡ ok after
  pub left : after.new_blocks ≡ drop needed new_blocks
  pub size : after.inode.size ≡ new_size
  pub kind : after.inode.type_ ≡ d.type_
  pub direct :
      (i : ℕ) → i < data_blocks_of d.size → get_or after.inode.direct i 0 ≡ get_or d.direct i 0
  pub first : inode_direct_count < data_blocks_of d.size → after.inode.indirect1 ≡ d.indirect1
  pub second : indirect1_bound < data_blocks_of d.size → after.inode.indirect2 ≡ d.indirect2

-- With the number of new blocks that `blocks_num_needed` gives, or more, growing a file to a size of at
-- most the largest one succeeds and takes exactly that number from the front: the inode has the new
-- size and its type, and the numbers in it that find the old data blocks are kept.
pub increase_size_lem :
    (new_size needed : ℕ) (new_blocks : List ℕ) (disk : Disk) (d : DiskInode)
    → d.size ≤ new_size
    → new_size ≤ indirect2_bound * block_sz
    → blocks_num_needed new_size d ≡ ok needed
    → needed ≤ length new_blocks
    → Increased new_size needed new_blocks d (increase_size new_size new_blocks disk d)
unfolding increase_size data_blocks
increase_size_lem new_size needed new_blocks disk d hd hn e h =
    let a = data_blocks_of d.size in
    let b = data_blocks_of new_size in
    let mono = data_blocks_mono d.size new_size hd (omega arith) in
    let back : a + (b - a) ≡ b = omega arith in
    let given : needed ≡ total_blocks new_size - total_blocks d.size =
      let both = sym e ∙ ((blocks_num_needed_lem new_size d (omega arith)).0 hd).1 in cc in
    let count : needed ≡ index_blocks (a + (b - a)) + (b - a) - index_blocks a = omega (
      arith,
      given,
      total_sum new_size (omega arith),
      total_sum d.size (omega arith),
      ap index_blocks back,
      index_blocks_mono a b mono,
    ) in
    let start : Growth = record {
      inode = record d { size = new_size };
      disk = disk;
      new_blocks = new_blocks;
    } in
    let c =
      add_blocks_lem (b - a) a needed start (omega (arith, data_blocks_lem new_size (omega arith)))
        count h in
    record {
      after = c.after;
      result = grow_blocks_lem a b start mono ∙ c.result;
      left = c.left;
      size = c.size;
      kind = c.kind;
      direct = c.direct;
      first = c.first;
      second = c.second;
    }
