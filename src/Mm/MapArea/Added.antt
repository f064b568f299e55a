-- ===== src/Mm/MapArea/Added.antt =====
-- What mapping pages of a framed area adds to it: a frame for each page.
use r_corev.Prelude.{
  ℕ, ◌+◌, ◌*◌, ◌^◌, ◌≤◌, ◌<◌, ◌≡◌, ◌≢◌, ◌⊎◌, refl, ap, true, false, Option, none, some, List, [],
  ◌∷◌, ltb, ◌==◌, if◌then◌else◌, count, bit_or, Run, ok, arith, Bool-cases, inl, inr,
}
use r_corev.Config.{page_size}
use r_corev.Mm.Frame.{usable_frames}
use r_corev.Mm.Pte
use r_corev.Mm.PageTable.Tree.{Label, Inv}
use r_corev.Mm.PageTable.Map.{lookup}
use r_corev.Mm.MapArea.{framed, MapArea, Space, Mapped, insert}

-- The frame of a page.
abbrev pub get : ℕ → List (ℕ × ℕ) → Option ℕ
get k [] = none
get k ((k', v') ∷ m) = let rest = get k m in if k == k' then some v' else rest

pub insert-old : (k v : ℕ) (m : List (ℕ × ℕ)) → get k m ≡ none → (insert k v m).0 ≡ none
insert-old k v [] h = refl
insert-old k v ((k', v') ∷ m) h = elim (Bool-cases (k == k')) [
  | inl e ↦ let bad : some v' ≡ none = rw e at h in cc
  | inr e ↦ elim (Bool-cases (ltb k k')) [
    | inl l ↦ rw l refl
    | inr l ↦ rw (l, e) (insert-old k v m (rw e at h))
  ]
]

pub get-insert_self : (k v : ℕ) (m : List (ℕ × ℕ)) → get k (insert k v m).1 ≡ some v
get-insert_self k v [] = let p : (k == k) ≡ true = ground arith in rw p refl
get-insert_self k v ((k', v') ∷ m) =
    let p : (k == k) ≡ true = ground arith in
    elim (Bool-cases (ltb k k')) [
      | inl l ↦ rw (l, p) refl
      | inr l ↦ elim (Bool-cases (k == k')) [
        | inl e ↦ rw (l, e, p) refl
        | inr e ↦ rw (l, e) (rw e (get-insert_self k v m))
      ]
    ]

pub get-insert_ne : (k v w : ℕ) (m : List (ℕ × ℕ)) → w ≢ k → get w (insert k v m).1 ≡ get w m
get-insert_ne k v w [] h = let p : (w == k) ≡ false = ground arith in rw p refl
get-insert_ne k v w ((k', v') ∷ m) h =
    let p : (w == k) ≡ false = ground arith in
    elim (Bool-cases (ltb k k')) [
      | inl l ↦ rw (l, p) refl
      | inr l ↦ elim (Bool-cases (k == k')) [
        | inl e ↦ let q : (w == k') ≡ false = ground arith in rw (l, e, p, q) refl
        | inr e ↦ rw (l, e) (ap (λ x. if w == k' then some v' else x) (get-insert_ne k v w m h))
      ]
    ]

-- What mapping the pages `l`, …, `l + n - 1` of a framed area does.
pub record Added (lo l n : ℕ) (label : Label) (held : List ℕ) (area area' : MapArea) (s s' : Space)
    : Type 0 where
  pub label' : Label
  pub held' : List ℕ
  pub inv : Inv lo s'.pages.kernel s'.pages.table.root_ppn label' held'
  pub left :
      usable_frames s.pages.kernel.allocator ≤ usable_frames s'.pages.kernel.allocator + 3 * n
  pub kind : area'.map_type ≡ framed
  pub perm : area'.map_perm ≡ area.map_perm
  pub bounds : area'.vpn_range ≡ area.vpn_range
  -- Each page has a frame that was not held, that no other page has, and that is cleaned.
  pub page :
      (w : ℕ)
      → l ≤ w
      → w < l + n
      → (f : ℕ) × (get w area'.data_frames ≡ some f)
        × (lookup s'.pages w ≡ some (Pte.new f (bit_or area.map_perm Pte.flag_v)))
        × ((label' f ≡ none) × (0 < count f held'))
        × ((m : ℕ) → label m ≡ none → 0 < count m held → f ≢ m)
        × ((i : ℕ) → i < page_size → s'.bytes f i ≡ 0)
  pub distinct :
      (w x f g : ℕ)
      → l ≤ w
      → w < x
      → x < l + n
      → get w area'.data_frames ≡ some f
      → get x area'.data_frames ≡ some g
      → f ≢ g
  -- The other pages are what they were.
  pub elsewhere :
      (w : ℕ)
      → (w < l) ⊎ (l + n ≤ w)
      → (get w area'.data_frames ≡ get w area.data_frames)
        × (w < 2 ^ 27 → lookup s'.pages w ≡ lookup s.pages w)
  -- Held frames that are no nodes keep their contents.
  pub others :
      (m : ℕ)
      → label m ≡ none
      → 0 < count m held
      → ((i : ℕ) → s'.pages.kernel.mem m i ≡ s.pages.kernel.mem m i)
        × ((i : ℕ) → s'.bytes m i ≡ s.bytes m i)
        × (label' m ≡ none)
        × (0 < count m held')

pub record Succeeds (lo l n : ℕ) (label : Label) (held : List ℕ) (area : MapArea) (s : Space)
    (r : Run Mapped) : Type 0 where
  pub after : Mapped
  pub result : r ≡ ok after
  pub status : after.status ≡ 0
  pub added : Added lo l n label held area after.area s after.space

-- A page outside of a range of one page.
pub apart : {w vpn : ℕ} → (w < vpn) ⊎ (vpn + 1 ≤ w) → w ≢ vpn
apart (inl a) p = omega arith
apart (inr a) p = omega arith
