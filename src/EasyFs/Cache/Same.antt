-- ===== src/EasyFs/Cache/Same.antt =====
-- Changes of the queue that leave the cached blocks alone: references come and go.
use r_corev.Prelude.{
  ℕ, ◌+◌, ◌≡◌, refl, sym, ap, ◌∙◌, Option, none, some, [], ◌∷◌, length, false, ◌==◌, arith,
  Bool-cases, Option-cases, inl, inr,
}
use r_corev.EasyFs.Device.{BlockDevice}
use r_corev.EasyFs.Cache.{BlockCache, Entry, Queue, find, hold}
use r_corev.EasyFs.Cache.Evict.{Distinct}
use r_corev.EasyFs.Cache.Coherence.{view, view-none, view-some, IsValid}

-- The cache of a block, if there is one.
abbrev pub block_of : Option Entry → Option BlockCache
block_of none = none
block_of (some e) = some e.block

abbrev pub SameBlocks : Queue → Queue → Type 0
SameBlocks q q' = (j : ℕ) → block_of (find j q') ≡ block_of (find j q)

pub absent : (q q' : Queue) (j : ℕ) → SameBlocks q q' → find j q ≡ none → find j q' ≡ none
absent q q' j s h = elim (Option-cases (find j q')) [
  | inl n ↦ n
  | inr (x, n) ↦ let bad : some x.block ≡ none = ap block_of (sym n) ∙ s j ∙ ap block_of h in cc
]

pub present :
    (q q' : Queue) (j : ℕ) (e : Entry)
    → SameBlocks q q'
    → find j q' ≡ some e
    → (e' : Entry) × (find j q ≡ some e') × (e'.block ≡ e.block)
present q q' j e s h = elim (Option-cases (find j q)) [
  | inl n ↦ let bad : some e.block ≡ none = ap block_of (sym h) ∙ s j ∙ ap block_of n in cc
  | inr (x, n) ↦
      let b : some e.block ≡ some x.block = ap block_of (sym h) ∙ s j ∙ ap block_of n in (x, n, cc)
]

-- With the same blocks a queue shows the same and is as valid.
pub Same-IsValid :
    {D : Type 0} (dev : BlockDevice D) (q q' : Queue) (d : D)
    → SameBlocks q q'
    → Distinct q'
    → length q' ≡ length q
    → IsValid dev q d
    → IsValid dev q' d × ((j : ℕ) → view dev q' d j ≡ view dev q d j)
Same-IsValid dev q q' d s w l v = (
  record {
    distinct = w;
    bounded = omega (arith, v.bounded);
    clean = λ j e h.
        let (x, n, b) = present q q' j e s h in
        let c = v.clean j x n in
        record {
          block_id = ap (λ (k : BlockCache). k.block_id) (sym b) ∙ c.block_id;
          same = λ m.
              ap (λ (k : BlockCache). k.cache) (sym b)
              ∙ c.same (ap (λ (k : BlockCache). k.modified) b ∙ m);
        };
  },
  λ j. same_view j,
)
  where
    same_view : (j : ℕ) → view dev q' d j ≡ view dev q d j
    same_view j = elim (Option-cases (find j q')) [
      | inl n ↦
          view-none dev q' d j n ∙ sym (view-none dev q d j (absent q' q j (λ i. sym (s i)) n))
      | inr (e, n) ↦
          let (x, m, b) = present q q' j e s n in
          view-some dev q' d j e n
          ∙ ap (λ (k : BlockCache). k.cache) (sym b)
          ∙ sym (view-some dev q d j x m)
    ]

pub hold-Same : (i : ℕ) (q : Queue) → SameBlocks q (hold i q)
unfolding hold find
hold-Same i [] j = refl
hold-Same i (e ∷ q) j = elim (Bool-cases (e.id == i)) [
  | inl b ↦ elim (Bool-cases (e.id == j)) [ inl c ↦ rw (b, c) refl | inr c ↦ rw (b, c) refl ]
  | inr b ↦ elim (Bool-cases (e.id == j)) [
    | inl c ↦ rw (b, c) refl
    | inr c ↦ rw (b, c) (hold-Same i q j)
  ]
]

pub length-hold : (i : ℕ) (q : Queue) → length (hold i q) ≡ length q
unfolding hold
length-hold i [] = refl
length-hold i (e ∷ q) = ground (arith, length-hold i q)

pub hold-Distinct : (i : ℕ) (q : Queue) → Distinct q → Distinct (hold i q)
unfolding hold
hold-Distinct i [] d = tt
hold-Distinct i (e ∷ q) d = elim (Bool-cases (e.id == i)) [
  | inl b ↦ rw b d
  | inr b ↦ rw b (absent q (hold i q) e.id (hold-Same i q) d.0, hold-Distinct i q d.1)
]

-- The block that is asked for is held afterwards.
pub hold-held :
    (i : ℕ) (q : Queue) (e : Entry)
    → find i q ≡ some e
    → find i (hold i q) ≡ some (record e { holders = e.holders + 1 })
unfolding hold find
hold-held i [] e h = let bad : ◌≡◌ {A = Option Entry} none (some e) = h in cc
hold-held i (x ∷ q) e h = elim (Bool-cases (x.id == i)) [
  | inl b ↦
      let s : some x ≡ some e = rw b at h in
      let ex : x ≡ e = cc in
      rw (b, b) (ap (λ (y : Entry). some (record y { holders = y.holders + 1 })) ex)
  | inr b ↦ rw (b, b) (hold-held i q e (rw b at h))
]

pub hold-other : (i j : ℕ) (q : Queue) → (i == j) ≡ false → find j (hold i q) ≡ find j q
unfolding hold find
hold-other i j [] n = refl
hold-other i j (e ∷ q) n = elim (Bool-cases (e.id == i)) [
  | inl b ↦
      let ei : e.id ≡ i = ground arith in let c : (e.id == j) ≡ false = rw ei n in rw (b, c) refl
  | inr b ↦ elim (Bool-cases (e.id == j)) [
    | inl c ↦ rw (b, c) refl
    | inr c ↦ rw (b, c) (hold-other i j q n)
  ]
]
