-- ===== src/EasyFs/DiskInode/Grow/Taken.antt =====
-- What a step of `increase_size` takes and keeps.
use r_corev.Prelude.{
  ℕ, zero, suc, ◌+◌, ◌-◌, ◌≤◌, ◌<◌, ◌≡◌, ◌≢◌, refl, ap, ◌∙◌, Bool, List, [], ◌∷◌, if◌then◌else◌,
  drop, length, length-drop, get_or, get_or-set_ne, Run, ok, panic, ◌>>=◌, arith,
}
use r_corev.EasyFs.DiskInode.{inode_direct_count, indirect1_bound}
use r_corev.EasyFs.DiskInode.Content.{Disk}
use r_corev.EasyFs.DiskInode.Grow.{Growth, next_block, put_direct, alloc_indirect1, alloc_indirect2}

drop-drop : (xs : List ℕ) (j k : ℕ) → drop k (drop j xs) ≡ drop (j + k) xs
drop-drop xs zero k = let p : 0 + k ≡ k = omega arith in rw p refl
drop-drop [] (suc j) zero = let p : suc j + 0 ≡ suc j = omega arith in rw p refl
drop-drop [] (suc j) (suc k) = let p : suc j + suc k ≡ suc (j + suc k) = omega arith in rw p refl
drop-drop (x ∷ xs) (suc j) k =
    let p : suc j + k ≡ suc (j + k) = omega arith in rw p (drop-drop xs j k)

-- A step from `i` data blocks succeeds, takes `k` new blocks, and keeps the size, the type and the
-- numbers in the inode that find the first `i` data blocks.
pub record Grew (i k : ℕ) (g : Growth) (r : Run Growth) : Type 0 where
  pub after : Growth
  pub result : r ≡ ok after
  pub left : after.new_blocks ≡ drop k g.new_blocks
  pub size : after.inode.size ≡ g.inode.size
  pub kind : after.inode.type_ ≡ g.inode.type_
  pub direct : (j : ℕ) → j < i → get_or after.inode.direct j 0 ≡ get_or g.inode.direct j 0
  pub first : inode_direct_count < i → after.inode.indirect1 ≡ g.inode.indirect1
  pub second : indirect1_bound < i → after.inode.indirect2 ≡ g.inode.indirect2

pub Grew-bind :
    {i i' k k' : ℕ} {g : Growth} {m : Run Growth} (f : Growth → Run Growth)
    → i ≤ i'
    → (c : Grew i k g m) → Grew i' k' c.after (f c.after)
    → Grew i (k + k') g (m >>= f)
Grew-bind {k = k} {k'} {g} f l c d = record {
  after = d.after;
  result = rw c.result d.result;
  left = d.left ∙ ap (drop k') c.left ∙ drop-drop g.new_blocks k k';
  size = d.size ∙ c.size;
  kind = d.kind ∙ c.kind;
  direct = λ j h. d.direct j (omega arith) ∙ c.direct j h;
  first = λ h. d.first (omega arith) ∙ c.first h;
  second = λ h. d.second (omega arith) ∙ c.second h;
}

pub Grew-refl : (i : ℕ) (g : Growth) → Grew i 0 g (ok g)
Grew-refl i g = record {
  after = g;
  result = refl;
  left = refl;
  size = refl;
  kind = refl;
  direct = λ j h. refl;
  first = λ h. refl;
  second = λ h. refl;
}

head_lem : (bs : List ℕ) → 0 < length bs → (b : ℕ) × (bs ≡ b ∷ drop 1 bs)
head_lem [] h = absurd (omega arith)
head_lem (b ∷ bs) h = (b, refl)

next_lem :
    (g : Growth) (f : ℕ → Growth → Run Growth)
    → 0 < length g.new_blocks
    → (b : ℕ) × (next_block g f ≡ f b (record g { new_blocks = drop 1 g.new_blocks }))
next_lem g f h =
    let (b, e) = head_lem g.new_blocks h in
    (b, ap (λ bs. elim bs [ [] ↦ panic | v ∷ vs ↦ f v (record g { new_blocks = vs }) ]) e)

-- One new block that changes the disk only.
pub on_disk :
    (i : ℕ) (g : Growth) (f : ℕ → Growth → Disk)
    → 0 < length g.new_blocks
    → Grew i 1 g (next_block g (λ b g'. ok (record g' { disk = f b g' })))
on_disk i g f h =
    let (b, e) = next_lem g (λ b g'. ok (record g' { disk = f b g' })) h in
    record {
      after = record g {
        disk = f b (record g { new_blocks = drop 1 g.new_blocks });
        new_blocks = drop 1 g.new_blocks;
      };
      result = e;
      left = refl;
      size = refl;
      kind = refl;
      direct = λ j h. refl;
      first = λ h. refl;
      second = λ h. refl;
    }

pub put_direct_lem :
    (i : ℕ) (g : Growth)
    → 0 < length g.new_blocks
    → Grew i 1 g (next_block g (λ b g'. ok (put_direct i b g')))
put_direct_lem i g h =
    let (b, e) = next_lem g (λ b g'. ok (put_direct i b g')) h in
    record {
      after = put_direct i b (record g { new_blocks = drop 1 g.new_blocks });
      result = e;
      left = refl;
      size = refl;
      kind = refl;
      direct = λ j l. let ne : i ≢ j = λ p. omega arith in get_or-set_ne g.inode.direct b 0 ne;
      first = λ h. refl;
      second = λ h. refl;
    }

pub alloc_first_lem :
    (i : ℕ) (g : Growth)
    → i ≤ inode_direct_count
    → 0 < length g.new_blocks
    → Grew i 1 g (alloc_indirect1 g)
unfolding alloc_indirect1
alloc_first_lem i g l h =
    let (b, e) =
      next_lem g (λ b g'. ok (record g' { inode = record g'.inode { indirect1 = b } })) h in
    record {
      after = record g {
        inode = record g.inode { indirect1 = b };
        new_blocks = drop 1 g.new_blocks;
      };
      result = e;
      left = refl;
      size = refl;
      kind = refl;
      direct = λ j h. refl;
      first = λ h. absurd (omega arith);
      second = λ h. refl;
    }

pub alloc_second_lem :
    (i : ℕ) (g : Growth)
    → i ≤ indirect1_bound
    → 0 < length g.new_blocks
    → Grew i 1 g (alloc_indirect2 g)
unfolding alloc_indirect2
alloc_second_lem i g l h =
    let (b, e) =
      next_lem g (λ b g'. ok (record g' { inode = record g'.inode { indirect2 = b } })) h in
    record {
      after = record g {
        inode = record g.inode { indirect2 = b };
        new_blocks = drop 1 g.new_blocks;
      };
      result = e;
      left = refl;
      size = refl;
      kind = refl;
      direct = λ j h. refl;
      first = λ h. refl;
      second = λ h. absurd (omega arith);
    }

abbrev pub one_if : Bool → ℕ
one_if b = if b then 1 else 0

-- What a step leaves.
pub remaining :
    {i k : ℕ} {g : Growth} {m : Run Growth}
    → (c : Grew i k g m) → length c.after.new_blocks ≡ length g.new_blocks - k
remaining {k = k} {g} c = ap length c.left ∙ length-drop k g.new_blocks
