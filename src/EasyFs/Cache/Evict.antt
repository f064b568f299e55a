-- ===== src/EasyFs/Cache/Evict.antt =====
-- Lookups in the queue of caches, and what an eviction leaves of them.
use r_corev.Prelude.{
  ℕ, suc, ◌≡◌, refl, sym, ap, ◌∙◌, true, false, Option, none, some, [], ◌∷◌, ◌++◌, ◌<◌, length,
  ◌==◌, arith, Bool-cases, Option-cases, inl, inr,
}
use r_corev.EasyFs.Cache.{Entry, Queue, find, evict}

-- No two entries are of one block.
abbrev pub Distinct : Queue → Type 0
Distinct [] = Unit {0}
Distinct (e ∷ q) = (find e.id q ≡ none) × Distinct q

pub record Evicted (v : Entry) (r q : Queue) : Type 0 where
  pub was : find v.id q ≡ some v
  pub gone : find v.id r ≡ none
  pub others : (j : ℕ) → (v.id == j) ≡ false → find j r ≡ find j q
  pub distinct : Distinct r
  pub shorter : length q ≡ suc (length r)

find_cons_other : (e : Entry) (q : Queue) (j : ℕ) → (e.id == j) ≡ false → find j (e ∷ q) ≡ find j q
unfolding find
find_cons_other e q j h = rw h refl

find_cons_same : (e : Entry) (q : Queue) → find e.id (e ∷ q) ≡ some e
unfolding find
find_cons_same e q = ground arith

-- The entry found for a block is of the block.
pub find-id : (j : ℕ) (q : Queue) (e : Entry) → find j q ≡ some e → e.id ≡ j
unfolding find
find-id j [] e h = let bad : ◌≡◌ {A = Option Entry} none (some e) = h in cc
find-id j (x ∷ q) e h = elim (Bool-cases (x.id == j)) [
  | inl b ↦
      let s : some x ≡ some e = rw b at h in
      let ex : x ≡ e = cc in
      let ei : x.id ≡ j = ground arith in ap (λ (y : Entry). y.id) (sym ex) ∙ ei
  | inr b ↦ find-id j q e (rw b at h)
]

ids_differ :
    (e v : Entry) (q : Queue) → find e.id q ≡ none → find v.id q ≡ some v → (v.id == e.id) ≡ false
ids_differ e v q n s = elim (Bool-cases (v.id == e.id)) [
  | inl b ↦
      let i : v.id ≡ e.id = ground arith in
      let bad : some v ≡ none = sym s ∙ ap (λ j. find j q) i ∙ n in cc
  | inr b ↦ b
]

Evicted-here : (e : Entry) (q : Queue) → Distinct (e ∷ q) → Evicted e q (e ∷ q)
Evicted-here e q d = record {
  was = find_cons_same e q;
  gone = d.0;
  others = λ j h. sym (find_cons_other e q j h);
  distinct = d.1;
  shorter = refl;
}

Evicted-cons :
    (e v : Entry) (r q : Queue) → Distinct (e ∷ q) → Evicted v r q → Evicted v (e ∷ r) (e ∷ q)
Evicted-cons e v r q d w =
    let ne = ids_differ e v q d.0 w.was in
    let ne' : (e.id == v.id) ≡ false = ground arith in
    record {
      was = find_cons_other e q v.id ne' ∙ w.was;
      gone = find_cons_other e r v.id ne' ∙ w.gone;
      others = others;
      distinct = (w.others e.id ne ∙ d.0, w.distinct);
      shorter = ap suc w.shorter;
    }
  where
    others : (j : ℕ) → (v.id == j) ≡ false → find j (e ∷ r) ≡ find j (e ∷ q)
    others j h = elim (Bool-cases (e.id == j)) [
      | inl b ↦ both_here b
      | inr b ↦ find_cons_other e r j b ∙ w.others j h ∙ sym (find_cons_other e q j b)
    ]
      where
        both_here : (e.id == j) ≡ true → find j (e ∷ r) ≡ find j (e ∷ q)
        both_here b =
            let i : e.id ≡ j = ground arith in
            rw (← i) (find_cons_same e r ∙ sym (find_cons_same e q))

pub evict_lem :
    (q : Queue) (v : Entry) (r : Queue) → Distinct q → evict q ≡ some (v, r) → Evicted v r q
unfolding evict
evict_lem [] v r d h = let bad : ◌≡◌ {A = Option (Entry × Queue)} none (some (v, r)) = h in cc
evict_lem (e ∷ q) v r d h = elim (Bool-cases (e.holders == 0)) [
  | inl b ↦
      let s : ◌≡◌ {A = Option (Entry × Queue)} (some (e, q)) (some (v, r)) = rw b at h in
      let ev : e ≡ v = cc in let er : q ≡ r = cc in rw (← ev, ← er) (Evicted-here e q d)
  | inr b ↦ elim (Option-cases (evict q)) [
    | inl n ↦ let bad : ◌≡◌ {A = Option (Entry × Queue)} none (some (v, r)) = rw (b, n) at h in cc
    | inr ((v', r'), n) ↦
        let s : ◌≡◌ {A = Option (Entry × Queue)} (some (v', e ∷ r')) (some (v, r)) =
          rw (b, n) at h in
        let ev : v' ≡ v = cc in
        let er : e ∷ r' ≡ r = cc in
        rw (← ev, ← er) (Evicted-cons e v' r' q d (evict_lem q v' r' d.1 n))
  ]
]

-- Every entry is held.
abbrev pub AllHeld : Queue → Type 0
AllHeld [] = Unit {0}
AllHeld (e ∷ q) = (0 < e.holders) × AllHeld q

-- The entry `v` is the first one of `q` that nobody holds, and `r` is `q` without it.
pub record FirstFree (v : Entry) (r q : Queue) : Type 0 where
  pub before : Queue
  pub after : Queue
  pub split : q ≡ before ++ (v ∷ after)
  pub rest : r ≡ before ++ after
  pub all_held : AllHeld before
  pub free : v.holders ≡ 0

pub evict-AllHeld : (q : Queue) → evict q ≡ none → AllHeld q
unfolding evict
evict-AllHeld [] h = tt
evict-AllHeld (e ∷ q) h = elim (Bool-cases (e.holders == 0)) [
  | inl b ↦ let bad : ◌≡◌ {A = Option (Entry × Queue)} (some (e, q)) none = rw b at h in cc
  | inr b ↦ elim (Option-cases (evict q)) [
    | inl n ↦ (ground arith, evict-AllHeld q n)
    | inr ((v, r), n) ↦
        let bad : ◌≡◌ {A = Option (Entry × Queue)} (some (v, e ∷ r)) none = rw (b, n) at h in cc
  ]
]

pub AllHeld-evict : (q : Queue) → AllHeld q → evict q ≡ none
unfolding evict
AllHeld-evict [] h = refl
AllHeld-evict (e ∷ q) h =
    let b : (e.holders == 0) ≡ false = ground (arith, h.0) in rw (b, AllHeld-evict q h.1) refl

pub evict-FirstFree : (q : Queue) (v : Entry) (r : Queue) → evict q ≡ some (v, r) → FirstFree v r q
unfolding evict
evict-FirstFree [] v r h = let bad : ◌≡◌ {A = Option (Entry × Queue)} none (some (v, r)) = h in cc
evict-FirstFree (e ∷ q) v r h = elim (Bool-cases (e.holders == 0)) [
  | inl b ↦
      let s : ◌≡◌ {A = Option (Entry × Queue)} (some (e, q)) (some (v, r)) = rw b at h in
      let ev : e ≡ v = cc in
      let er : q ≡ r = cc in
      rw (← ev, ← er)
        (record {
          before = [];
          after = q;
          split = refl;
          rest = refl;
          all_held = tt;
          free = ground arith;
        })
  | inr b ↦ elim (Option-cases (evict q)) [
    | inl n ↦ let bad : ◌≡◌ {A = Option (Entry × Queue)} none (some (v, r)) = rw (b, n) at h in cc
    | inr ((v', r'), n) ↦
        let s : ◌≡◌ {A = Option (Entry × Queue)} (some (v', e ∷ r')) (some (v, r)) =
          rw (b, n) at h in
        let ev : v' ≡ v = cc in
        let er : e ∷ r' ≡ r = cc in
        let f = evict-FirstFree q v' r' n in
        rw (← ev, ← er)
          (record {
            before = e ∷ f.before;
            after = f.after;
            split = ap (◌∷◌ e) f.split;
            rest = ap (◌∷◌ e) f.rest;
            all_held = (ground arith, f.all_held);
            free = f.free;
          })
  ]
]
