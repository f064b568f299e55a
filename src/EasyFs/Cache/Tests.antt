-- ===== src/EasyFs/Cache/Tests.antt =====
-- The cache over a device whose state is the array of its blocks.
use r_corev.Prelude.{
  zero, suc, ◌+◌, ◌++◌, ◌<◌, ℕ, ◌≡◌, ◌⊎◌, refl, true, false, Option, none, some, [], ◌∷◌, length,
  take, drop, ◌==◌, if◌then◌else◌, arith, ok, panic, Bool-cases, inl, inr,
}
use r_corev.EasyFs.Device.{BlockDevice, Block}
use r_corev.EasyFs.Cache.{Entry, Queue, block_cache_size, find, get_block_cache, modify_held}
use r_corev.EasyFs.Cache.Evict.{Distinct, AllHeld}
use r_corev.EasyFs.Cache.Coherence.{view, IsClean, IsValid}
use r_corev.EasyFs.Cache.Access.{Got, IsFull, get_block_cache_lem}
use r_corev.EasyFs.Cache.Modify.{splice, modify_held_lem}

abbrev disk : BlockDevice (ℕ → Block)
disk = record {
  read_block = λ i d. d i;
  write_block = λ i b d j. if i == j then b else d j;
  read_write = λ i j b d. refl;
}

abbrev blocks : ℕ → Block
blocks i = i ∷ 1 ∷ 2 ∷ []

abbrev three : Entry
three = record {
  id = 3;
  block = record { cache = 9 ∷ 8 ∷ 7 ∷ []; block_id = 3; modified = true };
  holders = 1;
}

abbrev loaded : Queue
loaded = three ∷ []

loaded-IsValid : IsValid disk loaded blocks
unfolding find
loaded-IsValid = record { distinct = (refl, tt); bounded = omega arith; clean = clean }
  where
    clean : (j : ℕ) (e : Entry) → find j loaded ≡ some e → IsClean disk blocks j e
    clean j e h = elim (Bool-cases (3 == j)) [
      | inl b ↦
          let s : ◌≡◌ {A = Option Entry} (some three) (some e) = rw b at h in
          let ex : three ≡ e = cc in rw (← ex) (record { block_id = ground arith; same = λ m. cc })
      | inr b ↦ let bad : ◌≡◌ {A = Option Entry} none (some e) = rw b at h in cc
    ]

abbrev cached : ℕ → ℕ → Entry
cached i n = record {
  id = i;
  block = record { cache = blocks i; block_id = i; modified = false };
  holders = n;
}

abbrev cached_from : ℕ → ℕ → Queue
cached_from i zero = []
cached_from i (suc n) = cached i 0 ∷ cached_from (i + 1) n

-- All places are taken, and block 0 is held.
abbrev full : Queue
full = cached 0 1 ∷ cached_from 1 15

abbrev AllClean : Queue → Type 0
AllClean [] = Unit {0}
AllClean (e ∷ q) = IsClean disk blocks e.id e × AllClean q

AllClean-find :
    (q : Queue) (j : ℕ) (e : Entry) → AllClean q → find j q ≡ some e → IsClean disk blocks j e
unfolding find
AllClean-find [] j e c h = let bad : ◌≡◌ {A = Option Entry} none (some e) = h in cc
AllClean-find (x ∷ q) j e c h = elim (Bool-cases (x.id == j)) [
  | inl b ↦
      let s : some x ≡ some e = rw b at h in
      let ex : x ≡ e = cc in let xj : x.id ≡ j = ground arith in rw (← ex, ← xj) c.0
  | inr b ↦ AllClean-find q j e c.1 (rw b at h)
]

cached_from-AllClean : (i n : ℕ) → AllClean (cached_from i n)
cached_from-AllClean i zero = tt
cached_from-AllClean i (suc n) =
    (record { block_id = refl; same = λ m. refl }, cached_from-AllClean (i + 1) n)

below-cached_from : (i n j : ℕ) → j < i → find j (cached_from i n) ≡ none
unfolding find
below-cached_from i zero j h = refl
below-cached_from i (suc n) j h =
    let ne : (i == j) ≡ false = ground arith in rw ne (below-cached_from (i + 1) n j (omega arith))

cached_from-Distinct : (i n : ℕ) → Distinct (cached_from i n)
cached_from-Distinct i zero = tt
cached_from-Distinct i (suc n) =
    (below-cached_from (i + 1) n i (omega arith), cached_from-Distinct (i + 1) n)

full-IsValid : IsValid disk full blocks
full-IsValid = record {
  distinct = (below-cached_from 1 15 0 (omega arith), cached_from-Distinct 1 15);
  bounded = omega arith;
  clean = λ j e h.
      AllClean-find full j e
        (record { block_id = refl; same = λ m. refl }, cached_from-AllClean 1 15) h;
}

get_block_cache_lem_example :
    ((q : Queue) × (d : ℕ → Block) × (get_block_cache disk 20 full blocks ≡ ok (q, d))
      × Got disk 20 full blocks q d
      × ¬ IsFull 20 full)
    ⊎ ((get_block_cache disk 20 full blocks ≡ panic)
        × (find 20 full ≡ none)
        × (length full ≡ block_cache_size)
        × AllHeld full)
get_block_cache_lem_example = get_block_cache_lem disk 20 full blocks full-IsValid

-- Block 0 stays, since it is held; block 1 makes room.
evicts_1 :
    get_block_cache disk 20 full blocks
    ≡ ok (cached 0 1 ∷ cached_from 2 14 ++ (cached 20 1 ∷ []), blocks)
unfolding get_block_cache
evicts_1 = refl

abbrev bump : Block → Block × ℕ
bump b = (0 ∷ [], length b)

modify_held_lem_example :
    (q : Queue) × (modify_held 3 1 1 bump loaded
      ≡ ok (length (take 1 (drop 1 (view disk loaded blocks 3))), q))
    × (view disk q blocks 3 ≡ splice 1 1 (0 ∷ []) (view disk loaded blocks 3))
    × ((j : ℕ) → (3 == j) ≡ false → view disk q blocks j ≡ view disk loaded blocks j)
    × IsValid disk q blocks
unfolding find
modify_held_lem_example =
    modify_held_lem disk 3 1 1 bump _ loaded blocks loaded-IsValid refl (omega arith) (omega arith)
