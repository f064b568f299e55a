-- ===== src/EasyFs/Cache/Coherence.antt =====
-- The cache is transparent: callers see one array of blocks.
use r_corev.Prelude.{
  ℕ, ◌<◌, ◌≤◌, ◌≡◌, refl, sym, ap, ◌∙◌, true, false, none, some, length, ◌==◌, arith, Bool-cases,
  Option-cases, inl, inr,
}
use r_corev.EasyFs.Device.{BlockDevice, Block}
use r_corev.EasyFs.Cache.{Entry, Queue, block_cache_size, sync, find, evict}
use r_corev.EasyFs.Cache.Evict.{Distinct, Evicted, evict_lem}

-- What a caller sees of block `j`: the cached bytes, or those of the device.
unfoldable pub view : {D : Type 0} → BlockDevice D → Queue → D → ℕ → Block
view dev q d j = elim (find j q) [ none ↦ dev.read_block j d | some e ↦ e.block.cache ]

pub view-none :
    {D : Type 0} (dev : BlockDevice D) (q : Queue) (d : D) (j : ℕ)
    → find j q ≡ none
    → view dev q d j ≡ dev.read_block j d
unfolding view
view-none dev q d j h = rw (h, view) refl

pub view-some :
    {D : Type 0} (dev : BlockDevice D) (q : Queue) (d : D) (j : ℕ) (e : Entry)
    → find j q ≡ some e
    → view dev q d j ≡ e.block.cache
unfolding view
view-some dev q d j e h = rw (h, view) refl

-- A cache is of its block, and is what the device holds unless it is marked as modified.
pub record IsClean {D : Type 0} (dev : BlockDevice D) (d : D) (j : ℕ) (e : Entry) : Type 0 where
  pub block_id : e.block.block_id ≡ j
  pub same : e.block.modified ≡ false → e.block.cache ≡ dev.read_block j d

pub record IsValid {D : Type 0} (dev : BlockDevice D) (q : Queue) (d : D) : Type 0 where
  pub distinct : Distinct q
  pub bounded : length q ≤ block_cache_size
  pub clean : (j : ℕ) (e : Entry) → find j q ≡ some e → IsClean dev d j e

-- After the victim is synced the device holds its bytes, and no other block has changed.
synced :
    {D : Type 0} (dev : BlockDevice D) (d : D) (j : ℕ) (e : Entry)
    → IsClean dev d j e
    → (dev.read_block j (sync dev e.block d) ≡ e.block.cache)
      × ((i : ℕ) → (j == i) ≡ false → dev.read_block i (sync dev e.block d) ≡ dev.read_block i d)
unfolding sync
synced dev d j e c = elim (Bool-cases e.block.modified) [
  | inl m ↦
      let self : (j == j) ≡ true = ground arith in
      rw (m, c.block_id)
        (
          dev.read_write j j e.block.cache d ∙ rw self refl,
          λ i h. dev.read_write j i e.block.cache d ∙ rw h refl,
        )
  | inr m ↦ rw m (sym (c.same m), λ i h. refl)
]

pub record Evicts {D : Type 0} (dev : BlockDevice D) (q r : Queue) (d d' : D) : Type 0 where
  pub valid : IsValid dev r d'
  pub same_view : (j : ℕ) → view dev r d' j ≡ view dev q d j
  pub room : length r < block_cache_size
  pub still : (j : ℕ) → find j q ≡ none → find j r ≡ none

-- An eviction with its write-back changes nothing that a caller sees.
pub evict-Evicts :
    {D : Type 0} (dev : BlockDevice D) (q r : Queue) (d : D) (v : Entry)
    → IsValid dev q d
    → evict q ≡ some (v, r)
    → Evicts dev q r d (sync dev v.block d)
evict-Evicts dev q r d v w h = record {
  valid = record {
    distinct = e.distinct;
    bounded = omega (arith, e.shorter, w.bounded);
    clean = clean;
  };
  same_view = same_view;
  room = omega (arith, e.shorter, w.bounded);
  still = still;
}
  where
    e : Evicted v r q
    e = evict_lem q v r w.distinct h

    c : IsClean dev d v.id v
    c = w.clean v.id v e.was

    clean : (j : ℕ) (x : Entry) → find j r ≡ some x → IsClean dev (sync dev v.block d) j x
    clean j x f = elim (Bool-cases (v.id == j)) [
      | inl b ↦
          let i : v.id ≡ j = ground arith in
          let bad : none ≡ some x = sym e.gone ∙ ap (λ k. find k r) i ∙ f in cc
      | inr b ↦
          let old = w.clean j x (sym (e.others j b) ∙ f) in
          record {
            block_id = old.block_id;
            same = λ m. old.same m ∙ sym ((synced dev d v.id v c).1 j b);
          }
    ]

    still : (j : ℕ) → find j q ≡ none → find j r ≡ none
    still j n = elim (Bool-cases (v.id == j)) [
      | inl b ↦
          let i : v.id ≡ j = ground arith in
          let bad : some v ≡ none = sym e.was ∙ ap (λ k. find k q) i ∙ n in cc
      | inr b ↦ e.others j b ∙ n
    ]

    same_view : (j : ℕ) → view dev r (sync dev v.block d) j ≡ view dev q d j
    same_view j = elim (Bool-cases (v.id == j)) [
      | inl b ↦
          let i : v.id ≡ j = ground arith in
          rw (← i) (
            view-none dev r (sync dev v.block d) v.id e.gone
            ∙ (synced dev d v.id v c).0
            ∙ sym (view-some dev q d v.id v e.was))
      | inr b ↦ elim (Option-cases (find j r)) [
        | inl n ↦
            view-none dev r (sync dev v.block d) j n
            ∙ (synced dev d v.id v c).1 j b
            ∙ sym (view-none dev q d j (sym (e.others j b) ∙ n))
        | inr (x, s) ↦
            view-some dev r (sync dev v.block d) j x s
            ∙ sym (view-some dev q d j x (sym (e.others j b) ∙ s))
      ]
    ]
