-- ===== src/Mm/PageTable/Create.antt =====
-- `find_pte_create`: the nodes that it adds, and what it leaves alone.
use r_corev.Prelude.{
  ℕ, ◌+◌, ◌^◌, ◌≤◌, ◌<◌, ◌≡◌, refl, sym, ap, ◌∙◌, true, false, ◌&&◌, Option, none, some, List, [],
  ◌∷◌, ◌++◌, append_assoc, append-nil, length, length-append, ◌==◌, count, arith, Bool-cases,
  Option-cases, inl, inr, Run, ok,
}
use r_corev.Mm.Frame
use r_corev.Mm.Frame.{StackFrameAllocator, usable_frames}
use r_corev.Mm.Frame.Ownership.{Owns, Allocated, alloc-Owns, usable_frames-Owns}
use r_corev.Mm.Pte
use r_corev.Mm.PageTable.{State, Place, ensure, create_loop, find_loop}
use r_corev.Mm.PageTable.Tree
use r_corev.Mm.PageTable.Tree.{resolve, Label, IsTree, Inv, valid_new, grown_mem, extended_label}

-- What the state `s'` keeps of `s`, whose invariant holds for the labels and the held frames given.
pub record Grown (lo : ℕ) (label : Label) (held : List ℕ) (s s' : State) (label' : Label)
    (held' : List ℕ) : Type 0 where
  pub inv : Inv lo s'.kernel s'.table.root_ppn label' held'
  pub root : s'.table.root_ppn ≡ s.table.root_ppn
  pub extends : (m : ℕ) (q : List ℕ) → label m ≡ some q → label' m ≡ some q
  pub same :
      (m : ℕ) (q js : List ℕ)
      → label m ≡ some q
      → length q + length js ≡ 3
      → resolve s'.kernel.mem m js ≡ resolve s.kernel.mem m js
  pub kept :
      (m j : ℕ) (q : List ℕ)
      → label m ≡ some q
      → Pte.is_valid (s.kernel.mem m j) ≡ true
      → s'.kernel.mem m j ≡ s.kernel.mem m j
  pub others : (m j : ℕ) → label m ≡ none → 0 < count m held → s'.kernel.mem m j ≡ s.kernel.mem m j
  pub still : (m : ℕ) → label m ≡ none → 0 < count m held → (label' m ≡ none) × (0 < count m held')

pub Grown-refl :
    {lo : ℕ} {label : Label} {held : List ℕ} {s : State}
    → Inv lo s.kernel s.table.root_ppn label held
    → Grown lo label held s s label held
Grown-refl v = record {
  inv = v;
  root = refl;
  extends = λ m q h. h;
  same = λ m q js h l. refl;
  kept = λ m j q h e. refl;
  others = λ m j h c. refl;
  still = λ m h c. (h, c);
}

Grown-trans :
    {lo : ℕ} {l1 l2 l3 : Label} {h1 h2 h3 : List ℕ} {s1 s2 s3 : State}
    → Grown lo l1 h1 s1 s2 l2 h2
    → Grown lo l2 h2 s2 s3 l3 h3
    → Grown lo l1 h1 s1 s3 l3 h3
Grown-trans p q = record {
  inv = q.inv;
  root = q.root ∙ p.root;
  extends = λ m r h. q.extends m r (p.extends m r h);
  same = λ m r js h l. q.same m r js (p.extends m r h) l ∙ p.same m r js h l;
  kept = λ m j r h e. let k = p.kept m j r h e in q.kept m j r (p.extends m r h) (rw k e) ∙ k;
  others = λ m j h c. q.others m j (p.still m h c).0 (p.still m h c).1 ∙ p.others m j h c;
  still = λ m h c. q.still m (p.still m h c).0 (p.still m h c).1;
}

record Ensured (lo n i : ℕ) (label : Label) (held : List ℕ) (s : State) : Type 0 where
  after : State
  result : ensure n i s ≡ ok after
  label' : Label
  held' : List ℕ
  grown : Grown lo label held s after label' held'
  valid : Pte.is_valid (after.kernel.mem n i) ≡ true
  left : usable_frames s.kernel.allocator ≤ usable_frames after.kernel.allocator + 1

pub none_of :
    (label : Label) (held : List ℕ) (f : ℕ)
    → ((n : ℕ) (p : List ℕ) → label n ≡ some p → 0 < count n held)
    → count f held ≡ 0
    → label f ≡ none
none_of label held f h z = elim (Option-cases (label f)) [
  | inl e ↦ e
  | inr (p, e) ↦ absurd (omega (arith, h f p e))
]

usable-next :
    (lo : ℕ) (a a' : StackFrameAllocator) (held : List ℕ) (f : ℕ)
    → Owns lo a held
    → Owns lo a' (f ∷ held)
    → a'.end ≡ a.end
    → usable_frames a ≤ usable_frames a' + 1
usable-next lo a a' held f v w e =
    omega (arith, usable_frames-Owns lo a held v, usable_frames-Owns lo a' (f ∷ held) w)

module _ (lo n i : ℕ) (label : Label) (held : List ℕ) (p : List ℕ) (s : State)
    (v : Inv lo s.kernel s.table.root_ppn label held) (at : label n ≡ some p)
    (inner : length p < 2) where
  abbrev pointed : ℕ → StackFrameAllocator → State
  pointed f a = record {
    kernel = record { allocator = a; mem = grown_mem s.kernel.mem f n i };
    table = record { root_ppn = s.table.root_ppn; frames = f ∷ s.table.frames };
  }

  -- The missing node, given the frame that the allocator hands out.
  grow :
      (r : Option ℕ × StackFrameAllocator)
      → Frame.alloc s.kernel.allocator ≡ r
      → Allocated lo s.kernel.allocator held r
      → 0 < usable_frames s.kernel.allocator
      → Pte.is_valid (s.kernel.mem n i) ≡ false
      → Ensured lo n i label held s
  unfolding ensure count
  grow (none, a) e g u m =
      absurd (omega (arith, usable_frames-Owns lo s.kernel.allocator held v.owns, g.1))
  grow (some f, a) e g u missing = record {
    after = pointed f a;
    result = rw (missing, e) refl;
    label' = extended_label label f i p;
    held' = f ∷ held;
    grown = record {
      inv = record {
        tree =
            Tree.grown-IsTree s.kernel.mem s.table.root_ppn label f n i p v.tree fresh small at
              inner missing;
        owns = g.3;
        small = omega (arith, g.4, v.small);
        nodes_held = nodes_held;
      };
      root = refl;
      extends =
          Tree.extends s.kernel.mem s.table.root_ppn label f n i p v.tree fresh small at inner
            missing;
      same =
          Tree.grown_resolve s.kernel.mem s.table.root_ppn label f n i p v.tree fresh small at inner
            missing;
      kept = kept;
      others = others;
      still = still;
    };
    valid = valid;
    left = usable-next lo s.kernel.allocator a held f v.owns g.3 g.4;
  }
    where
      small : f < 2 ^ 44
      small = omega (arith, g.1, v.small)

      fresh : label f ≡ none
      fresh = none_of label held f v.nodes_held g.2

      nodes_held :
          (m : ℕ) (q : List ℕ) → extended_label label f i p m ≡ some q → 0 < count m (f ∷ held)
      nodes_held m q h = elim (Bool-cases (m == f)) [
        | inl e ↦ ground arith
        | inr e ↦ ground (arith, v.nodes_held m q (rw e at h))
      ]

      other : (m : ℕ) → 0 < count m held → (m == f) ≡ false
      other m c = elim (Bool-cases (m == f)) [
        | inl e ↦
            let em : m ≡ f = ground arith in absurd (omega (arith, ap (λ k. count k held) em, g.2))
        | inr e ↦ e
      ]

      kept :
          (m j : ℕ) (q : List ℕ)
          → label m ≡ some q
          → Pte.is_valid (s.kernel.mem m j) ≡ true
          → grown_mem s.kernel.mem f n i m j ≡ s.kernel.mem m j
      kept m j q h e = rw (elsewhere, other m (v.nodes_held m q h)) refl
        where
          elsewhere : ((m == n) && (j == i)) ≡ false
          elsewhere = elim (Bool-cases ((m == n) && (j == i))) [
            | inl d ↦
                let em : m ≡ n = ground arith in
                let ej : j ≡ i = ground arith in
                let bad : true ≡ false = sym e ∙ rw (em, ej) missing in cc
            | inr d ↦ d
          ]

      outside : (m : ℕ) → label m ≡ none → (m == n) ≡ false
      outside m h = elim (Bool-cases (m == n)) [
        | inl e ↦
            let em : m ≡ n = ground arith in
            let bad : none ≡ some p = sym h ∙ ap label em ∙ at in cc
        | inr e ↦ e
      ]

      others :
          (m j : ℕ)
          → label m ≡ none
          → 0 < count m held
          → grown_mem s.kernel.mem f n i m j ≡ s.kernel.mem m j
      others m j h c = rw (outside m h, other m c) refl

      still :
          (m : ℕ)
          → label m ≡ none
          → 0 < count m held
          → (extended_label label f i p m ≡ none) × (0 < count m (f ∷ held))
      still m h c = (rw (other m c) h, ground arith)

      valid : Pte.is_valid (grown_mem s.kernel.mem f n i n i) ≡ true
      valid = ground (arith, valid_new f small)

  ensure_lem : 0 < usable_frames s.kernel.allocator → Ensured lo n i label held s
  unfolding ensure
  ensure_lem u = elim (Bool-cases (Pte.is_valid (s.kernel.mem n i))) [
    | inl e ↦ record {
      after = s;
      result = rw e refl;
      label' = label;
      held' = held;
      grown = Grown-refl v;
      valid = e;
      left = omega arith;
    }
    | inr e ↦
        grow (Frame.alloc s.kernel.allocator) refl (alloc-Owns lo s.kernel.allocator held v.owns) u
          e
  ]

abbrev pub last : List ℕ → ℕ
last [] = 0
last (i ∷ []) = i
last (i ∷ j ∷ is) = last (j ∷ is)

abbrev pub front : List ℕ → List ℕ
front [] = []
front (i ∷ []) = []
front (i ∷ j ∷ is) = i ∷ front (j ∷ is)

-- The walk ends at the entry `last is` of a node whose path is `path`.
pub record Created (lo : ℕ) (label : Label) (held : List ℕ) (s : State) (n : ℕ) (is path : List ℕ)
    (r : Run (Option Place × State)) : Type 0 where
  pub after : State
  pub leaf : ℕ
  pub result : r ≡ ok (some (leaf, last is), after)
  pub label' : Label
  pub held' : List ℕ
  pub grown : Grown lo label held s after label' held'
  pub leaf_label : label' leaf ≡ some path
  pub found : find_loop is n after.kernel.mem ≡ some (leaf, last is)
  pub left : usable_frames s.kernel.allocator + 1 ≤ usable_frames after.kernel.allocator + length is

Created-next :
    {lo : ℕ} {label : Label} {held : List ℕ} {s u : State} {l1 : Label} {h1 : List ℕ} {n i j : ℕ}
    {is p path path' : List ℕ} {r : Run (Option Place × State)}
    → Grown lo label held s u l1 h1
    → path ≡ path'
    → l1 n ≡ some p
    → Pte.is_valid (u.kernel.mem n i) ≡ true
    → usable_frames s.kernel.allocator ≤ usable_frames u.kernel.allocator + 1
    → Created lo l1 h1 u (Pte.ppn (u.kernel.mem n i)) (j ∷ is) path r
    → Created lo label held s n (i ∷ j ∷ is) path' r
unfolding find_loop
Created-next {n} {i} {p} g e at valid less c = record {
  after = c.after;
  leaf = c.leaf;
  result = c.result;
  label' = c.label';
  held' = c.held';
  grown = Grown-trans g c.grown;
  leaf_label = c.leaf_label ∙ ap some e;
  found = rw (c.grown.kept n i p at valid, valid) c.found;
  left = omega (arith, c.left);
}

-- With a usable frame for each node that may be missing, the walk creates them and ends at the leaf.
pub create_loop_lem :
    (lo n i : ℕ) (is : List ℕ) (label : Label) (held p : List ℕ) (s : State)
    → Inv lo s.kernel s.table.root_ppn label held
    → label n ≡ some p
    → length p + length (i ∷ is) ≡ 3
    → length is ≤ usable_frames s.kernel.allocator
    → Created lo label held s n (i ∷ is) (p ++ front (i ∷ is)) (create_loop (i ∷ is) n s)
unfolding create_loop find_loop
create_loop_lem lo n i [] label held p s v at l u = record {
  after = s;
  leaf = n;
  result = refl;
  label' = label;
  held' = held;
  grown = Grown-refl v;
  leaf_label = at ∙ ap some (sym (append-nil p));
  found = refl;
  left = omega arith;
}
create_loop_lem lo n i (j ∷ is) label held p s v at l u =
    let e = ensure_lem lo n i label held p s v at (omega arith) (omega arith) in
    let c = e.grown.inv.tree.child n i p (e.grown.extends n p at) (omega arith) e.valid in
    rw e.result (
      Created-next e.grown (append_assoc p (i ∷ []) (front (j ∷ is))) (e.grown.extends n p at)
        e.valid e.left
        (create_loop_lem lo (Pte.ppn (e.after.kernel.mem n i)) j is e.label' e.held' (p ++ (i ∷ []))
          e.after e.grown.inv c (omega (arith, length-append p (i ∷ []))) (omega (arith, e.left))))
