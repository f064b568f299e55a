-- ===== src/EasyFs/Cache/Modify.antt =====
-- A change through a reference to a cached block.
use r_corev.Prelude.{
  ℕ, suc, ◌+◌, ◌≤◌, ◌≡◌, refl, sym, ap, ◌∙◌, true, false, Option, none, some, [], ◌∷◌, ◌++◌, length,
  take, drop, leb, ltb, ◌<◌, ◌==◌, arith, Bool-cases, Option-cases, inl, inr, ok,
}
use r_corev.EasyFs.Device.{BlockDevice, Block, block_sz}
use r_corev.EasyFs.Cache.{BlockCache, Entry, Queue, find, modify, modify_held, get_ref}
use r_corev.EasyFs.Cache.Evict.{Distinct}
use r_corev.EasyFs.Cache.Coherence.{view, view-none, view-some, IsClean, IsValid}

-- `bytes` in place of the `size` bytes at `offset`.
abbrev pub splice : ℕ → ℕ → Block → Block → Block
splice offset size bytes b = take offset b ++ bytes ++ drop (offset + size) b

abbrev changed : Entry → Block → Entry
changed e b = record e { block = record e.block { cache = b; modified = true } }

record Modified {V : Type 0} (i offset size : ℕ) (f : Block → Block × V) (e : Entry) (q : Queue)
    : Type 0 where
  after : Queue
  result : modify_held i offset size f q ≡ ok ((f (take size (drop offset e.block.cache))).1, after)
  here :
      find i after
      ≡ some (
          changed e
            (splice offset size (f (take size (drop offset e.block.cache))).0 e.block.cache))
  others : (j : ℕ) → (i == j) ≡ false → find j after ≡ find j q
  missing : (j : ℕ) → find j q ≡ none → find j after ≡ none
  distinct : Distinct q → Distinct after
  same_length : length after ≡ length q

modify_cache :
    {V : Type 0} (offset size : ℕ) (f : Block → Block × V) (c : BlockCache)
    → offset + size ≤ block_sz
    → offset < block_sz
    → modify offset size f c
      ≡ ok (
        (f (take size (drop offset c.cache))).1,
        record c {
          cache = splice offset size (f (take size (drop offset c.cache))).0 c.cache;
          modified = true;
        },
      )
unfolding modify get_ref
modify_cache offset size f c h o =
    let fits : leb (offset + size) block_sz ≡ true = ground arith in
    let starts : ltb offset block_sz ≡ true = ground arith in rw (fits, starts) refl

modify_held-Modified :
    {V : Type 0} (i offset size : ℕ) (f : Block → Block × V) (e : Entry) (q : Queue)
    → offset + size ≤ block_sz
    → offset < block_sz
    → find i q ≡ some e
    → Modified i offset size f e q
unfolding modify_held find
modify_held-Modified i offset size f e [] h o s =
    let bad : ◌≡◌ {A = Option Entry} none (some e) = s in cc
modify_held-Modified i offset size f e (x ∷ q) h o s = elim (Bool-cases (x.id == i)) [
  | inl b ↦ let same : some x ≡ some e = rw b at s in let ex : x ≡ e = cc in rw (← ex) (at_head b)
  | inr b ↦ further b (modify_held-Modified i offset size f e q h o (rw b at s))
]
  where
    new_head : Entry
    new_head =
        changed x (splice offset size (f (take size (drop offset x.block.cache))).0 x.block.cache)

    at_head : (x.id == i) ≡ true → Modified i offset size f x (x ∷ q)
    at_head b = record {
      after = new_head ∷ q;
      result = rw (b, modify_cache offset size f x.block h o) refl;
      here = rw b refl;
      others = λ j n.
          let xi : x.id ≡ i = ground arith in let c : (x.id == j) ≡ false = rw xi n in rw c refl;
      missing = λ j n. elim (Bool-cases (x.id == j)) [
        | inl c ↦ let bad : some x ≡ none = rw c at n in cc
        | inr c ↦ rw c (rw c at n)
      ];
      distinct = λ d. d;
      same_length = refl;
    }

    further :
        (x.id == i) ≡ false → Modified i offset size f e q → Modified i offset size f e (x ∷ q)
    further b m = record {
      after = x ∷ m.after;
      result = rw (b, m.result) refl;
      here = rw b m.here;
      others =
          λ j n. elim (Bool-cases (x.id == j)) [ inl c ↦ rw c refl | inr c ↦ rw c (m.others j n) ];
      missing = λ j n. elim (Bool-cases (x.id == j)) [
        | inl c ↦ let bad : some x ≡ none = rw c at n in cc
        | inr c ↦ rw c (m.missing j (rw c at n))
      ];
      distinct = λ d. (m.missing x.id d.0, m.distinct d.1);
      same_length = ap suc m.same_length;
    }

-- In a valid cache, a change of a value that lies within a cached block, at an offset below its end, returns what the closure returns, puts the
-- changed bytes in the place of the old ones for every caller, leaves every other block and the device
-- alone, and keeps the cache valid.
pub modify_held_lem :
    {D V : Type 0} (dev : BlockDevice D) (i offset size : ℕ) (f : Block → Block × V) (e : Entry)
    (q : Queue) (d : D)
    → IsValid dev q d
    → find i q ≡ some e
    → offset + size ≤ block_sz
    → offset < block_sz
    → (q' : Queue) × (modify_held i offset size f q
        ≡ ok ((f (take size (drop offset (view dev q d i)))).1, q'))
      × (view dev q' d i
          ≡ splice offset size (f (take size (drop offset (view dev q d i)))).0 (view dev q d i))
      × ((j : ℕ) → (i == j) ≡ false → view dev q' d j ≡ view dev q d j)
      × IsValid dev q' d
modify_held_lem dev i offset size f e q d v s h o =
    rw (view-some dev q d i e s)
      (m.after, m.result, view-some dev m.after d i _ m.here, other_view, valid)
  where
    m : Modified i offset size f e q
    m = modify_held-Modified i offset size f e q h o s

    new_entry : Entry
    new_entry =
        changed e (splice offset size (f (take size (drop offset e.block.cache))).0 e.block.cache)

    other_view : (j : ℕ) → (i == j) ≡ false → view dev m.after d j ≡ view dev q d j
    other_view j n = elim (Option-cases (find j q)) [
      | inl z ↦ view-none dev m.after d j (m.missing j z) ∙ sym (view-none dev q d j z)
      | inr (x, z) ↦ view-some dev m.after d j x (m.others j n ∙ z) ∙ sym (view-some dev q d j x z)
    ]

    clean : (j : ℕ) (x : Entry) → find j m.after ≡ some x → IsClean dev d j x
    clean j x z = elim (Bool-cases (i == j)) [
      | inl b ↦
          let ij : i ≡ j = ground arith in
          let t : ◌≡◌ {A = Option Entry} (some new_entry) (some x) =
            sym m.here ∙ ap (λ k. find k m.after) ij ∙ z in
          let ex : new_entry ≡ x = cc in
          rw (← ex, ← ij) (record { block_id = (v.clean i e s).block_id; same = λ u. cc })
      | inr b ↦ v.clean j x (sym (m.others j b) ∙ z)
    ]

    valid : IsValid dev m.after d
    valid = record {
      distinct = m.distinct v.distinct;
      bounded = omega (arith, m.same_length, v.bounded);
      clean = clean;
    }
