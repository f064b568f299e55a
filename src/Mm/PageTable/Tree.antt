-- ===== src/Mm/PageTable/Tree.antt =====
-- The page table as a tree: each node has the path of indices that leads to it from the root.
use r_corev.Prelude.{
  ℕ, ◌+◌, ◌^◌, ◌≤◌, ◌<◌, ◌≡◌, ◌≢◌, refl, sym, ap, ◌∙◌, true, false, ◌&&◌, Option, none, some, List,
  [], ◌∷◌, ◌++◌, length, length-append, ◌==◌, if◌then◌else◌, count, arith, Bool-cases, inl, inr,
}
use r_corev.Mm.Frame.Ownership.{Owns}
use r_corev.Mm.Pte
use r_corev.Mm.Pte.Fields.{new_fields, flag_bits}
use r_corev.Mm.PageTable.{Entries, write, clean, Kernel}

-- The valid leaf entry that a walk along the indices ends at.
unfoldable pub resolve : Entries → ℕ → List ℕ → Option ℕ
resolve mem n [] = none
resolve mem n (i ∷ []) = if Pte.is_valid (mem n i) then some (mem n i) else none
resolve mem n (i ∷ j ∷ is) =
    if Pte.is_valid (mem n i) then resolve mem (Pte.ppn (mem n i)) (j ∷ is) else none

abbrev pub Label : Type 0
Label = ℕ → Option (List ℕ)

pub record IsTree (mem : Entries) (root : ℕ) (label : Label) : Type 0 where
  pub root_label : label root ≡ some []
  pub child :
      (n i : ℕ) (p : List ℕ)
      → label n ≡ some p
      → length p < 2
      → Pte.is_valid (mem n i) ≡ true
      → label (Pte.ppn (mem n i)) ≡ some (p ++ (i ∷ []))

-- The nodes of the tree are frames that are held, and frame numbers fit an entry.
pub record Inv (lo : ℕ) (k : Kernel) (root : ℕ) (label : Label) (held : List ℕ) : Type 0 where
  pub tree : IsTree k.mem root label
  pub owns : Owns lo k.allocator held
  pub small : k.allocator.end ≤ 2 ^ 44
  pub nodes_held : (n : ℕ) (p : List ℕ) → label n ≡ some p → 0 < count n held

pub valid_new : (f : ℕ) → f < 2 ^ 44 → Pte.is_valid (Pte.new f Pte.flag_v) ≡ true
unfolding Pte.flags
valid_new f h =
    (flag_bits (Pte.new f Pte.flag_v)).0 ∙ ground (arith, (new_fields f 1 h (omega arith)).1)

pub valid_zero : Pte.is_valid 0 ≡ false
unfolding Pte.is_valid
valid_zero = refl

true_ne_false : true ≢ false
true_ne_false e = cc

abbrev pub grown_mem : Entries → ℕ → ℕ → ℕ → Entries
grown_mem mem f n i = write (clean mem f) n i (Pte.new f Pte.flag_v)

abbrev pub extended_label : Label → ℕ → ℕ → List ℕ → Label
extended_label label f i p m = if m == f then some (p ++ (i ∷ [])) else label m

-- One more node: frame `f` below entry `i` of the node `n`.
module _ (mem : Entries) (root : ℕ) (label : Label) (f n i : ℕ) (p : List ℕ)
    (t : IsTree mem root label) (fresh : label f ≡ none) (small : f < 2 ^ 44)
    (at : label n ≡ some p) (inner : length p < 2) (missing : Pte.is_valid (mem n i) ≡ false) where
  abbrev grown : Entries
  grown = grown_mem mem f n i

  abbrev extended : Label
  extended = extended_label label f i p

  labelled_ne : (m : ℕ) (q : List ℕ) → label m ≡ some q → (m == f) ≡ false
  labelled_ne m q h = elim (Bool-cases (m == f)) [
    | inl e ↦
        let e' : m ≡ f = ground arith in
        let bad : none ≡ some q = sym fresh ∙ ap label (sym e') ∙ h in cc
    | inr e ↦ e
  ]

  pub extends : (m : ℕ) (q : List ℕ) → label m ≡ some q → extended_label label f i p m ≡ some q
  extends m q h = rw (labelled_ne m q h) h

  -- An entry of a node other than the new pointer is as before.
  grown_same :
      (m j : ℕ) (q : List ℕ)
      → label m ≡ some q
      → ((m == n) && (j == i)) ≡ false
      → grown m j ≡ mem m j
  grown_same m j q h d = rw (d, labelled_ne m q h) refl

  grown_fresh : (j : ℕ) → grown f j ≡ 0
  grown_fresh j = ground (arith, labelled_ne n p at)

  grown_here : grown n i ≡ Pte.new f Pte.flag_v
  grown_here = ground arith

  child_new :
      (m j : ℕ) (q : List ℕ)
      → label m ≡ some q
      → length q < 2
      → Pte.is_valid (grown m j) ≡ true
      → extended (Pte.ppn (grown m j)) ≡ some (q ++ (j ∷ []))
  child_new m j q h l v = elim (Bool-cases ((m == n) && (j == i))) [
    | inl e ↦
        let em : m ≡ n = ground arith in
        let ej : j ≡ i = ground arith in
        let eq : some p ≡ some q = sym at ∙ ap label (sym em) ∙ h in
        let eq' : p ≡ q = cc in
        let to_f : Pte.ppn (grown m j) ≡ f = rw e (new_fields f 1 small (omega arith)).0 in
        rw (to_f, ← eq', ej) (ground arith)
    | inr e ↦
        let s = grown_same m j q h e in
        rw s (extends (Pte.ppn (mem m j)) (q ++ (j ∷ [])) (t.child m j q h l (rw s at v)))
  ]

  child_grown :
      (m j : ℕ) (q : List ℕ)
      → extended m ≡ some q
      → length q < 2
      → Pte.is_valid (grown m j) ≡ true
      → extended (Pte.ppn (grown m j)) ≡ some (q ++ (j ∷ []))
  child_grown m j q h l v = elim (Bool-cases (m == f)) [
    | inl e ↦
        let em : m ≡ f = ground arith in
        let z : Pte.is_valid (grown m j) ≡ false = rw (em, grown_fresh j) valid_zero in
        absurd (true_ne_false (sym v ∙ z))
    | inr e ↦ child_new m j q (rw e at h) l v
  ]

  pub grown-IsTree : IsTree (grown_mem mem f n i) root (extended_label label f i p)
  grown-IsTree = record { root_label = extends root [] t.root_label; child = child_grown }

  fresh_resolve : (js : List ℕ) → resolve grown f js ≡ none
  unfolding resolve
  fresh_resolve [] = refl
  fresh_resolve (j ∷ []) = rw (grown_fresh j, valid_zero) refl
  fresh_resolve (j ∷ k ∷ js) = rw (grown_fresh j, valid_zero) refl

  -- Every walk from an old node of the tree ends as before.
  pub grown_resolve :
      (m : ℕ) (q js : List ℕ)
      → label m ≡ some q
      → length q + length js ≡ 3
      → resolve (grown_mem mem f n i) m js ≡ resolve mem m js
  unfolding resolve
  grown_resolve m q [] h l = refl
  grown_resolve m q (j ∷ []) h l = elim (Bool-cases ((m == n) && (j == i))) [
    | inl e ↦ absurd (too_deep e)
    | inr e ↦ rw (grown_same m j q h e) refl
  ]
    where
      too_deep : ((m == n) && (j == i)) ≡ true → ⊥
      too_deep e =
          let em : m ≡ n = ground arith in
          let eq : some p ≡ some q = sym at ∙ ap label (sym em) ∙ h in
          let eq' : p ≡ q = cc in omega (arith, ap length eq')
  grown_resolve m q (j ∷ k ∷ js) h l = elim (Bool-cases ((m == n) && (j == i))) [
    | inl e ↦
        let em : m ≡ n = ground arith in
        let ej : j ≡ i = ground arith in
        rw (em, ej, missing, grown_here, valid_new f small, (new_fields f 1 small (omega arith)).0)
          (fresh_resolve (k ∷ js))
    | inr e ↦ rw (grown_same m j q h e) (elim (Bool-cases (Pte.is_valid (mem m j))) [
      | inl v ↦ rw v (
          grown_resolve (Pte.ppn (mem m j)) (q ++ (j ∷ [])) (k ∷ js)
            (t.child m j q h (omega arith) v) (omega (arith, length-append q (j ∷ []))))
      | inr v ↦ rw v refl
    ])
  ]
