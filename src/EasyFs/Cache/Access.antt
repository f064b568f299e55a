-- ===== src/EasyFs/Cache/Access.antt =====
-- `get_block_cache` and changes through it.
use r_corev.Prelude.{
  ap, subst, ℕ, ◌+◌, ◌<◌, ◌≡◌, ◌⊎◌, refl, sym, ◌∙◌, true, false, Option, none, some, [], ◌∷◌, ◌++◌,
  length, length-append, ◌==◌, if◌then◌else◌, arith, Bool-cases, Option-cases, inl, inr, ok, panic,
}
use r_corev.EasyFs.Device.{BlockDevice}
use r_corev.EasyFs.Cache.{
  Entry, Queue, block_cache_size, new, sync, find, hold, evict, load_block, get_block_cache,
}
use r_corev.EasyFs.Cache.Evict.{
  Distinct, Evicted, evict_lem, AllHeld, FirstFree, evict-AllHeld, AllHeld-evict, evict-FirstFree,
}
use r_corev.EasyFs.Cache.Coherence.{view, view-none, view-some, IsClean, IsValid, evict-Evicts}
use r_corev.EasyFs.Cache.Same.{
  hold-Same, length-hold, hold-other, hold-Distinct, hold-held, Same-IsValid,
}

find-push_old :
    (j : ℕ) (q : Queue) (x e : Entry) → find j q ≡ some e → find j (q ++ (x ∷ [])) ≡ some e
unfolding find
find-push_old j [] x e h = let bad : ◌≡◌ {A = Option Entry} none (some e) = h in cc
find-push_old j (y ∷ q) x e h = elim (Bool-cases (y.id == j)) [
  | inl b ↦ rw b (rw b at h)
  | inr b ↦ rw b (find-push_old j q x e (rw b at h))
]

find-push_new :
    (j : ℕ) (q : Queue) (x : Entry)
    → find j q ≡ none
    → find j (q ++ (x ∷ [])) ≡ (if x.id == j then some x else none)
unfolding find
find-push_new j [] x h = refl
find-push_new j (y ∷ q) x h = elim (Bool-cases (y.id == j)) [
  | inl b ↦ let bad : some y ≡ none = rw b at h in cc
  | inr b ↦ rw b (find-push_new j q x (rw b at h))
]

push-Distinct : (q : Queue) (x : Entry) → Distinct q → find x.id q ≡ none → Distinct (q ++ (x ∷ []))
unfolding find
push-Distinct [] x d h = (refl, tt)
push-Distinct (y ∷ q) x d h = elim (Bool-cases (y.id == x.id)) [
  | inl b ↦ let bad : some y ≡ none = rw b at h in cc
  | inr b ↦
      let c : (x.id == y.id) ≡ false = ground arith in
      (find-push_new y.id q x d.0 ∙ rw c refl, push-Distinct q x d.1 (rw b at h))
]

-- The cache `e` of block `j` has left the queue, which was full and without block `i`: it was the first
-- one that nobody held.
pub record Dropped (i j : ℕ) (e : Entry) (q q' : Queue) : Type 0 where
  pub missing : find i q ≡ none
  pub full : length q ≡ block_cache_size
  pub gone : find j q' ≡ none
  pub rest : Queue
  pub first : FirstFree e rest q

abbrev pub holders_of : Option Entry → ℕ
holders_of none = 0
holders_of (some e) = e.holders

-- The state after block `i` was asked for: valid, the same to every caller, and `i` is held once more.
-- The other caches stay as they are, with their holders, unless one is dropped; no cache is added.
pub record Got {D : Type 0} (dev : BlockDevice D) (i : ℕ) (q : Queue) (d : D) (q' : Queue) (d' : D)
    : Type 0 where
  pub valid : IsValid dev q' d'
  pub same_view : (j : ℕ) → view dev q' d' j ≡ view dev q d j
  pub entry : Entry
  pub found : find i q' ≡ some entry
  pub held : 0 < entry.holders
  pub counted : entry.holders ≡ holders_of (find i q) + 1
  pub kept :
      (j : ℕ) (e : Entry)
      → (i == j) ≡ false
      → find j q ≡ some e
      → (find j q' ≡ some e) ⊎ Dropped i j e q q'
  pub no_more : (j : ℕ) → (i == j) ≡ false → find j q ≡ none → find j q' ≡ none

Got-load :
    {D : Type 0} (dev : BlockDevice D) (i : ℕ) (q : Queue) (d : D)
    → IsValid dev q d
    → length q < block_cache_size
    → find i q ≡ none
    → Got dev i q d (load_block dev i q d).0 (load_block dev i q d).1
unfolding load_block new
Got-load dev i q d v l h = record {
  valid = record {
    distinct = push-Distinct q fresh v.distinct h;
    bounded = omega (arith, length-append q (fresh ∷ []));
    clean = clean;
  };
  same_view = same_view;
  entry = fresh;
  found = here;
  held = omega arith;
  counted = rw h (omega arith);
  kept = λ j e n f. inl (find-push_old j q fresh e f);
  no_more = λ j n z. find-push_new j q fresh z ∙ rw n refl;
}
  where
    fresh : Entry
    fresh = record {
      id = i;
      block = record { cache = dev.read_block i d; block_id = i; modified = false };
      holders = 1;
    }

    here : find i (q ++ (fresh ∷ [])) ≡ some fresh
    here = let self : (i == i) ≡ true = ground arith in find-push_new i q fresh h ∙ rw self refl

    clean : (j : ℕ) (e : Entry) → find j (q ++ (fresh ∷ [])) ≡ some e → IsClean dev d j e
    clean j e f = elim (Option-cases (find j q)) [
      | inr (x, n) ↦
          let s : some x ≡ some e = sym (find-push_old j q fresh x n) ∙ f in
          let ex : x ≡ e = cc in rw (← ex) (v.clean j x n)
      | inl n ↦ elim (Bool-cases (i == j)) [
        | inl b ↦
            let ij : i ≡ j = ground arith in
            let s : some fresh ≡ some e = sym (find-push_new j q fresh n ∙ rw b refl) ∙ f in
            let ex : fresh ≡ e = cc in
            rw (← ex, ← ij) (record { block_id = refl; same = λ m. refl })
        | inr b ↦
            let bad : ◌≡◌ {A = Option Entry} none (some e) =
              sym (find-push_new j q fresh n ∙ rw b refl) ∙ f in
            cc
      ]
    ]

    same_view : (j : ℕ) → view dev (q ++ (fresh ∷ [])) d j ≡ view dev q d j
    same_view j = elim (Option-cases (find j q)) [
      | inr (x, n) ↦
          view-some dev (q ++ (fresh ∷ [])) d j x (find-push_old j q fresh x n)
          ∙ sym (view-some dev q d j x n)
      | inl n ↦ elim (Bool-cases (i == j)) [
        | inl b ↦
            let ij : i ≡ j = ground arith in
            rw (← ij)
              (view-some dev (q ++ (fresh ∷ [])) d i fresh here ∙ sym (view-none dev q d i h))
        | inr b ↦
            view-none dev (q ++ (fresh ∷ [])) d j (find-push_new j q fresh n ∙ rw b refl)
            ∙ sym (view-none dev q d j n)
      ]
    ]

-- Block `i` is not cached, and there is no room for it.
abbrev pub IsFull : ℕ → Queue → Type 0
IsFull i q = (find i q ≡ none) × (length q ≡ block_cache_size) × AllHeld q

found_kept :
    (i j : ℕ) (q r : Queue) (v e : Entry)
    → find i q ≡ none
    → length q ≡ block_cache_size
    → (i == j) ≡ false
    → Evicted v r q
    → FirstFree v r q
    → find j q ≡ some e
    → (find j r ≡ some e) ⊎ ((find j r ≡ none) × FirstFree e r q)
found_kept i j q r v e n l ij ev ff h = elim (Bool-cases (v.id == j)) [
  | inr b ↦ inl (ev.others j b ∙ h)
  | inl b ↦
      let vj : v.id ≡ j = ground arith in
      let s : some v ≡ some e = sym ev.was ∙ ap (λ k. find k q) vj ∙ h in
      let ve : v ≡ e = cc in
      inr (ap (λ k. find k r) (sym vj) ∙ ev.gone, subst (λ x. FirstFree x r q) ve ff)
]

-- Of a valid cache, `get_block_cache` hands out the block in a valid cache, held once more than before,
-- and every caller sees every block as before, whether the block was cached, read in or took the place
-- of another. Of the other caches, all stay with their holders but at most one: where the block was not
-- cached and the cache was full, the first one that nobody held is dropped. It panics exactly when the
-- block is not cached, the cache is full and all its blocks are held.
pub get_block_cache_lem :
    {D : Type 0} (dev : BlockDevice D) (i : ℕ) (q : Queue) (d : D)
    → IsValid dev q d
    → ((q' : Queue) × (d' : D) × (get_block_cache dev i q d ≡ ok (q', d'))
        × Got dev i q d q' d'
        × ¬ IsFull i q)
      ⊎ ((get_block_cache dev i q d ≡ panic)
          × (find i q ≡ none)
          × (length q ≡ block_cache_size)
          × AllHeld q)
unfolding get_block_cache
get_block_cache_lem dev i q d v = elim (Option-cases (find i q)) [
  | inr (e, n) ↦
      let s =
        Same-IsValid dev q (hold i q) d (hold-Same i q) (hold-Distinct i q v.distinct)
          (length-hold i q) v in
      inl (
        hold i q,
        d,
        rw (n, get_block_cache) refl,
        record {
          valid = s.0;
          same_view = s.1;
          entry = record e { holders = e.holders + 1 };
          found = hold-held i q e n;
          held = omega arith;
          counted = rw n refl;
          kept = λ j x ne f. inl (hold-other i j q ne ∙ f);
          no_more = λ j ne z. hold-other i j q ne ∙ z;
        },
        λ full. let bad : some e ≡ none = sym n ∙ full.0 in cc,
      )
  | inl n ↦ elim (Bool-cases (length q == block_cache_size)) [
    | inr l ↦ inl (
      _,
      _,
      rw (n, l, get_block_cache) refl,
      Got-load dev i q d v (ground (arith, v.bounded)) n,
      λ full. ground (arith, full.1),
    )
    | inl l ↦ elim (Option-cases (evict q)) [
      | inl z ↦ inr (rw (n, l, z, get_block_cache) refl, n, ground arith, evict-AllHeld q z)
      | inr ((x, r), z) ↦
          let ev = evict-Evicts dev q r d x v z in
          let gone = evict_lem q x r v.distinct z in
          let ff = evict-FirstFree q x r z in
          let len : length q ≡ block_cache_size = ground arith in
          let got = Got-load dev i r (sync dev x.block d) ev.valid ev.room (ev.still i n) in
          inl (
            _,
            _,
            rw (n, l, z, get_block_cache) refl,
            record {
              valid = got.valid;
              same_view = λ j. got.same_view j ∙ ev.same_view j;
              entry = got.entry;
              found = got.found;
              held = got.held;
              counted = rw n (got.counted ∙ ap (λ o. holders_of o + 1) (ev.still i n));
              kept = λ j e ne f. elim (found_kept i j q r x e n len ne gone ff f) [
                | inl s ↦ elim (got.kept j e ne s) [
                  | inl t ↦ inl t
                  | inr w ↦ absurd (omega (arith, ev.room, w.full))
                ]
                | inr (g, first) ↦ inr (record {
                  missing = n;
                  full = len;
                  gone = got.no_more j ne g;
                  rest = r;
                  first = first;
                })
              ];
              no_more = λ j ne m. got.no_more j ne (ev.still j m);
            },
            λ full.
                let bad : ◌≡◌ {A = Option (Entry × Queue)} (some (x, r)) none =
                  sym z ∙ AllHeld-evict q full.2 in
                cc,
          )
    ]
  ]
]
