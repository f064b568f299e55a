-- ===== src/Mm/PageTable/Map.antt =====
-- A write to the leaf entry that `find_pte_create` ends at.
use r_corev.Prelude.{
  ℕ, ◌+◌, ◌/◌, ◌%◌, ◌^◌, ◌≤◌, ◌<◌, ◌≡◌, ◌≢◌, refl, sym, ap, ◌∙◌, false, ◌&&◌, Option, none, some,
  List, [], ◌∷◌, ◌++◌, append_assoc, length, length-append, ◌==◌, if◌then◌else◌, count, arith,
  Bool-cases, inl, inr,
}
use r_corev.Mm.Frame.{usable_frames}
use r_corev.Mm.Address.{indexes}
use r_corev.Mm.Address.Pages.{indexes_lem, indexes-injective}
use r_corev.Mm.Pte
use r_corev.Mm.PageTable.{Entries, write, State, Place, set_entry, find_loop, find_pte_create}
use r_corev.Mm.PageTable.Tree.{resolve, Label, IsTree, Inv}
use r_corev.Mm.PageTable.Create.{Created, create_loop_lem, last, front}

front-last : (i : ℕ) (is : List ℕ) → front (i ∷ is) ++ (last (i ∷ is) ∷ []) ≡ i ∷ is
front-last i [] = refl
front-last i (j ∷ is) = ap (◌∷◌ i) (front-last j is)

-- What an entry of a leaf node stands for.
abbrev pub valid_entry : ℕ → Option ℕ
valid_entry bits = if Pte.is_valid bits then some bits else none

resolve_found :
    (mem : Entries) (n k leaf : ℕ) (is : List ℕ)
    → find_loop is n mem ≡ some (leaf, k)
    → resolve mem n is ≡ valid_entry (mem leaf k)
unfolding resolve find_loop
resolve_found mem n k leaf [] e = cc
resolve_found mem n k leaf (i ∷ []) e =
    let en : n ≡ leaf = cc in let ei : i ≡ k = cc in rw (en, ei) refl
resolve_found mem n k leaf (i ∷ j ∷ is) e = elim (Bool-cases (Pte.is_valid (mem n i))) [
  | inl v ↦ rw v (resolve_found mem (Pte.ppn (mem n i)) k leaf (j ∷ is) (rw v at e))
  | inr v ↦ let bad : ◌≡◌ {A = Option Place} none (some (leaf, k)) = rw v at e in cc
]

-- A write to an entry of a leaf node.
module _ (mem : Entries) (root : ℕ) (label : Label) (leaf k bits : ℕ) (path : List ℕ)
    (t : IsTree mem root label) (at : label leaf ≡ some path) (deep : length path ≡ 2) where
  abbrev mem' : Entries
  mem' = write mem leaf k bits

  not_leaf : (m : ℕ) (q : List ℕ) → label m ≡ some q → length q < 2 → (m == leaf) ≡ false
  not_leaf m q h l = elim (Bool-cases (m == leaf)) [
    | inl e ↦
        let em : m ≡ leaf = ground arith in
        let eq : some path ≡ some q = sym at ∙ ap label (sym em) ∙ h in
        let eq' : path ≡ q = cc in absurd (omega (arith, ap length eq'))
    | inr e ↦ e
  ]

  inner_same : (m j : ℕ) (q : List ℕ) → label m ≡ some q → length q < 2 → mem' m j ≡ mem m j
  inner_same m j q h l = rw (not_leaf m q h l) refl

  pub write-IsTree : IsTree (write mem leaf k bits) root label
  write-IsTree = record {
    root_label = t.root_label;
    child = λ m j q h l v. let s = inner_same m j q h l in rw s (t.child m j q h l (rw s at v));
  }

  pub find-write :
      (m : ℕ) (q js : List ℕ)
      → label m ≡ some q
      → length q + length js ≡ 3
      → find_loop js m (write mem leaf k bits) ≡ find_loop js m mem
  unfolding find_loop
  find-write m q [] h l = refl
  find-write m q (j ∷ []) h l = refl
  find-write m q (i ∷ j ∷ js) h l =
      rw (inner_same m i q h (omega arith)) (elim (Bool-cases (Pte.is_valid (mem m i))) [
        | inl v ↦ rw v (
            find-write (Pte.ppn (mem m i)) (q ++ (i ∷ [])) (j ∷ js)
              (t.child m i q h (omega arith) v) (omega (arith, length-append q (i ∷ []))))
        | inr v ↦ rw v refl
      ])

  pub resolve-write_ne :
      (m : ℕ) (q js : List ℕ)
      → label m ≡ some q
      → length q + length js ≡ 3
      → q ++ js ≢ path ++ (k ∷ [])
      → resolve (write mem leaf k bits) m js ≡ resolve mem m js
  unfolding resolve
  resolve-write_ne m q [] h l d = refl
  resolve-write_ne m q (j ∷ []) h l d = elim (Bool-cases ((m == leaf) && (j == k))) [
    | inl e ↦
        let em : m ≡ leaf = ground arith in
        let ej : j ≡ k = ground arith in
        let eq : some path ≡ some q = sym at ∙ ap label (sym em) ∙ h in
        let eq' : path ≡ q = cc in absurd (d (rw (eq', ej) refl))
    | inr e ↦ rw e refl
  ]
  resolve-write_ne m q (i ∷ j ∷ js) h l d =
      rw (inner_same m i q h (omega arith)) (elim (Bool-cases (Pte.is_valid (mem m i))) [
        | inl v ↦ rw v (
            resolve-write_ne (Pte.ppn (mem m i)) (q ++ (i ∷ [])) (j ∷ js)
              (t.child m i q h (omega arith) v) (omega (arith, length-append q (i ∷ [])))
              (λ e. d (sym (append_assoc q (i ∷ []) (j ∷ js)) ∙ e)))
        | inr v ↦ rw v refl
      ])

-- The valid entry of a page.
abbrev pub lookup : State → ℕ → Option ℕ
lookup s vpn = resolve s.kernel.mem s.table.root_ppn (indexes vpn)

-- What a state keeps of another, but for the entry of page `vpn`.
pub record Updated (lo vpn : ℕ) (entry : Option ℕ) (s s' : State) (label : Label) (held : List ℕ)
    : Type 0 where
  pub here : lookup s' vpn ≡ entry
  pub elsewhere : (w : ℕ) → w < 2 ^ 27 → w ≢ vpn → lookup s' w ≡ lookup s w
  pub label' : Label
  pub held' : List ℕ
  pub inv : Inv lo s'.kernel s'.table.root_ppn label' held'
  -- At most two frames were taken.
  pub left : usable_frames s.kernel.allocator ≤ usable_frames s'.kernel.allocator + 2
  -- Held frames that are no nodes stay so, with their contents.
  pub others :
      (n i : ℕ)
      → label n ≡ none
      → 0 < count n held
      → (s'.kernel.mem n i ≡ s.kernel.mem n i) × (label' n ≡ none) × (0 < count n held')

pub length-indexes : (vpn : ℕ) → length {A = ℕ} [] + length (indexes vpn) ≡ 3
length-indexes vpn = rw (indexes_lem vpn) refl

indexes_ends : (vpn : ℕ) → front (indexes vpn) ++ (last (indexes vpn) ∷ []) ≡ indexes vpn
indexes_ends vpn = rw (indexes_lem vpn) refl

length-front : (vpn : ℕ) → length (front (indexes vpn)) ≡ 2
length-front vpn = rw (indexes_lem vpn) refl

module _ (lo vpn : ℕ) (s : State) (label : Label) (held : List ℕ)
    (v : Inv lo s.kernel s.table.root_ppn label held) (small : vpn < 2 ^ 27) where
  abbrev pub Walked : Type 0
  Walked =
      Created lo label held s s.table.root_ppn (indexes vpn) (front (indexes vpn))
        (find_pte_create vpn s)

  pub walk_lem : 2 ≤ usable_frames s.kernel.allocator → Walked
  unfolding find_pte_create
  walk_lem u = rw (indexes_lem vpn) (
      create_loop_lem lo s.table.root_ppn (vpn / 512 / 512 % 512)
        ((vpn / 512 % 512) ∷ (vpn % 512) ∷ []) label held [] s v v.tree.root_label refl u)

  -- The entry found belongs to the page.
  pub lookup_walked :
      (c : Walked) → lookup s vpn ≡ valid_entry (c.after.kernel.mem c.leaf (last (indexes vpn)))
  lookup_walked c =
      sym (c.grown.same s.table.root_ppn [] (indexes vpn) v.tree.root_label (length-indexes vpn))
      ∙ resolve_found c.after.kernel.mem s.table.root_ppn (last (indexes vpn)) c.leaf (indexes vpn)
          c.found

  abbrev updated_mem : Walked → ℕ → Entries
  updated_mem c bits = write c.after.kernel.mem c.leaf (last (indexes vpn)) bits

  pub stored :
      (c : Walked) (bits : ℕ)
      → Updated lo vpn
          (valid_entry bits)
          s
          (set_entry (c.leaf, last (indexes vpn)) bits c.after)
          label
          held
  stored c bits = record {
    here = rw c.grown.root (
        resolve_found (updated_mem c bits) s.table.root_ppn (last (indexes vpn)) c.leaf
          (indexes vpn)
          (find-write c.after.kernel.mem s.table.root_ppn c.label' c.leaf (last (indexes vpn)) bits
              (front (indexes vpn)) tree c.leaf_label (length-front vpn) s.table.root_ppn []
              (indexes vpn) root_label (length-indexes vpn)
            ∙ c.found)
        ∙ ap valid_entry at_leaf);
    elsewhere = elsewhere;
    label' = c.label';
    held' = c.held';
    inv = record {
      tree =
          write-IsTree c.after.kernel.mem c.after.table.root_ppn c.label' c.leaf
            (last (indexes vpn)) bits (front (indexes vpn)) c.grown.inv.tree c.leaf_label
            (length-front vpn);
      owns = c.grown.inv.owns;
      small = c.grown.inv.small;
      nodes_held = c.grown.inv.nodes_held;
    };
    left = omega (arith, c.left, ap length (indexes_lem vpn));
    others = others;
  }
    where
      tree : IsTree c.after.kernel.mem s.table.root_ppn c.label'
      tree = rw (sym c.grown.root) c.grown.inv.tree

      root_label : c.label' s.table.root_ppn ≡ some []
      root_label = c.grown.extends s.table.root_ppn [] v.tree.root_label

      at_leaf : (updated_mem c bits) c.leaf (last (indexes vpn)) ≡ bits
      at_leaf = ground arith

      elsewhere :
          (w : ℕ)
          → w < 2 ^ 27
          → w ≢ vpn
          → resolve (updated_mem c bits) c.after.table.root_ppn (indexes w) ≡ lookup s w
      elsewhere w b d = rw c.grown.root (
          resolve-write_ne c.after.kernel.mem s.table.root_ppn c.label' c.leaf (last (indexes vpn))
            bits (front (indexes vpn)) tree c.leaf_label (length-front vpn) s.table.root_ppn []
            (indexes w) root_label (length-indexes w)
            (λ e. d (indexes-injective w vpn b small (e ∙ indexes_ends vpn)))
          ∙ c.grown.same s.table.root_ppn [] (indexes w) v.tree.root_label (length-indexes w))

      others :
          (n i : ℕ)
          → label n ≡ none
          → 0 < count n held
          → ((updated_mem c bits) n i ≡ s.kernel.mem n i)
            × (c.label' n ≡ none)
            × (0 < count n c.held')
      others n i h u =
          let st = c.grown.still n h u in
          let e : (n == c.leaf) ≡ false = elim (Bool-cases (n == c.leaf)) [
            | inl e ↦
                let en : n ≡ c.leaf = ground arith in
                let bad : none ≡ some (front (indexes vpn)) =
                  sym st.0 ∙ ap c.label' en ∙ c.leaf_label in
                cc
            | inr e ↦ e
          ] in
          (rw e (c.grown.others n i h u), st.0, st.1)
