-- ===== src/EasyFs/DiskInode/Grow/Second.antt =====
-- The loop over the second level adds data blocks one after the other.
use r_corev.Prelude.{
  ℕ, zero, suc, ◌+◌, ◌-◌, ◌/◌, ◌%◌, ◌≤◌, ◌<◌, ◌≡◌, refl, sym, ap, ◌∙◌, true, false, ◌&&◌, ◌||◌,
  fun_ext, ltb, ◌==◌, if◌then◌else◌, ok, ◌>>=◌, Bool-cases, inl, inr, arith,
}
use r_corev.EasyFs.DiskInode.{inode_direct_count, inode_indirect1_count, indirect1_bound}
use r_corev.EasyFs.DiskInode.Grow.{Growth, alloc_indirect2, second_pass, fill_indirect2}
use r_corev.EasyFs.DiskInode.Grow.Steps.{add_second, add_block, add_blocks, bind_assoc}

fill_indirect2-unfold :
    (fuel a0 b0 a1 b1 : ℕ) (g : Growth)
    → (ltb a0 a1 || ((a0 == a1) && ltb b0 b1)) ≡ true
    → fill_indirect2 (suc fuel) a0 b0 a1 b1 g ≡ (
        second_pass a0 b0 g >>= λ g'.
        if b0 + 1 == inode_indirect1_count
        then fill_indirect2 fuel (a0 + 1) 0 a1 b1 g'
        else fill_indirect2 fuel a0 (b0 + 1) a1 b1 g')
unfolding fill_indirect2
fill_indirect2-unfold fuel a0 b0 a1 b1 g h = rw (fill_indirect2, h) refl

fill_indirect2-done :
    (fuel a0 b0 a1 b1 : ℕ) (g : Growth)
    → (ltb a0 a1 || ((a0 == a1) && ltb b0 b1)) ≡ false
    → fill_indirect2 (suc fuel) a0 b0 a1 b1 g ≡ ok g
unfolding fill_indirect2
fill_indirect2-done fuel a0 b0 a1 b1 g h = rw (fill_indirect2, h) refl

-- The next place of the second level.
next_place :
    (fuel m a1 b1 : ℕ) (g : Growth)
    → (if m % 128 + 1 == inode_indirect1_count
        then fill_indirect2 fuel (m / 128 + 1) 0 a1 b1 g
        else fill_indirect2 fuel (m / 128) (m % 128 + 1) a1 b1 g)
      ≡ fill_indirect2 fuel ((m + 1) / 128) ((m + 1) % 128) a1 b1 g
next_place fuel m a1 b1 g = elim (Bool-cases (m % 128 + 1 == inode_indirect1_count)) [
  | inl e ↦
      let q : (m + 1) / 128 ≡ m / 128 + 1 = ground arith in
      let r : (m + 1) % 128 ≡ 0 = ground arith in rw (e, q, r) refl
  | inr e ↦
      let q : (m + 1) / 128 ≡ m / 128 = ground arith in
      let r : (m + 1) % 128 ≡ m % 128 + 1 = ground arith in rw (e, q, r) refl
]

-- The entry `i`, then the loop from the next one to the entry `i + suc n`.
second_next :
    (n fuel i : ℕ) (g : Growth)
    → indirect1_bound ≤ i
    → fill_indirect2
        (suc fuel)
        ((i - indirect1_bound) / 128)
        ((i - indirect1_bound) % 128)
        ((i + suc n - indirect1_bound) / 128)
        ((i + suc n - indirect1_bound) % 128)
        g
      ≡ (second_pass ((i - indirect1_bound) / 128) ((i - indirect1_bound) % 128) g >>= λ g'.
          fill_indirect2 fuel
            ((i + 1 - indirect1_bound) / 128)
            ((i + 1 - indirect1_bound) % 128)
            ((i + 1 + n - indirect1_bound) / 128)
            ((i + 1 + n - indirect1_bound) % 128)
            g')
second_next n fuel i g l =
    let m = i - indirect1_bound in
    let t = i + suc n - indirect1_bound in
    let p : i + 1 - indirect1_bound ≡ m + 1 = omega arith in
    let q : i + 1 + n ≡ i + suc n = omega arith in
    let more : (ltb (m / 128) (t / 128) || ((m / 128 == t / 128) && ltb (m % 128) (t % 128)))
        ≡ true =
      ground arith in
    rw (p, q)
      (fill_indirect2-unfold fuel (m / 128) (m % 128) (t / 128) (t % 128) g more
        ∙ ap (λ f. second_pass (m / 128) (m % 128) g >>= f)
            (fun_ext (next_place fuel m (t / 128) (t % 128))))

second_lem :
    (n fuel i : ℕ) (g : Growth)
    → indirect1_bound < i
    → n < fuel
    → fill_indirect2 fuel
        ((i - indirect1_bound) / 128)
        ((i - indirect1_bound) % 128)
        ((i + n - indirect1_bound) / 128)
        ((i + n - indirect1_bound) % 128)
        g
      ≡ add_blocks n i g
unfolding add_blocks add_block add_second
second_lem n zero i g l h = absurd (omega arith)
second_lem zero (suc fuel) i g l h =
    let m = i - indirect1_bound in
    let p : i + 0 ≡ i = omega arith in
    let less : (ltb (m / 128) (m / 128) || ((m / 128 == m / 128) && ltb (m % 128) (m % 128)))
        ≡ false =
      ground arith in
    rw p (fill_indirect2-done fuel (m / 128) (m % 128) (m / 128) (m % 128) g less)
second_lem (suc n) (suc fuel) i g l h =
    let p : ltb i inode_direct_count ≡ false = ground arith in
    let q : ltb i indirect1_bound ≡ false = ground arith in
    let r : (i == indirect1_bound) ≡ false = ground arith in
    rw (p, q, r)
      (second_next n fuel i g (omega arith)
        ∙ ap (λ f. second_pass ((i - indirect1_bound) / 128) ((i - indirect1_bound) % 128) g >>= f)
            (fun_ext (λ g'. second_lem n fuel (i + 1) g' (omega arith) (omega arith))))

pub second_alloc :
    (n fuel i : ℕ) (g : Growth)
    → indirect1_bound ≤ i
    → (i ≡ indirect1_bound → 0 < n)
    → n < fuel
    → ((if i == indirect1_bound then alloc_indirect2 g else ok g) >>= λ g'.
        fill_indirect2 fuel
          ((i - indirect1_bound) / 128)
          ((i - indirect1_bound) % 128)
          ((i + n - indirect1_bound) / 128)
          ((i + n - indirect1_bound) % 128)
          g')
      ≡ add_blocks n i g
unfolding add_blocks add_block add_second
second_alloc zero fuel i g l m h =
    let r : (i == indirect1_bound) ≡ false = ground (arith, m) in
    ap
      (λ t. (if t then alloc_indirect2 g else ok g) >>= λ g'.
        fill_indirect2 fuel ((i - indirect1_bound) / 128) ((i - indirect1_bound) % 128)
          ((i + 0 - indirect1_bound) / 128) ((i + 0 - indirect1_bound) % 128) g')
      r
    ∙ second_lem 0 fuel i g (ground arith) h
second_alloc (suc n) zero i g l m h = absurd (omega arith)
second_alloc (suc n) (suc fuel) i g l m h =
    let p : ltb i inode_direct_count ≡ false = ground arith in
    let q : ltb i indirect1_bound ≡ false = ground arith in
    let start = if i == indirect1_bound then alloc_indirect2 g else ok g in
    let step = second_pass ((i - indirect1_bound) / 128) ((i - indirect1_bound) % 128) in
    rw (p, q)
      (ap (λ f. start >>= f)
          (fun_ext (λ g1.
            second_next n fuel i g1 l
            ∙ ap (λ f. step g1 >>= f)
                (fun_ext (λ g'. second_lem n fuel (i + 1) g' (omega arith) (omega arith)))))
        ∙ sym (bind_assoc start step (λ g'. add_blocks n (i + 1) g')))
