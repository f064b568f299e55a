-- ===== src/Mm/MapArea/Frames.antt =====
-- A data frame is taken: the page table and the frames that are held do not change.
use r_corev.Prelude.{
  ℕ, ◌+◌, ◌^◌, ◌<◌, ◌≡◌, ◌≢◌, refl, sym, ap, ◌∙◌, true, false, Option, none, some, List, [], ◌∷◌,
  ◌++◌, length, length-append, ltb, ◌==◌, count, arith, Bool-cases, inl, inr,
}
use r_corev.Config.{page_size}
use r_corev.Mm.Address.{indexes}
use r_corev.Mm.Frame
use r_corev.Mm.Frame.{StackFrameAllocator, usable_frames}
use r_corev.Mm.Frame.Ownership.{Allocated, alloc-Owns, usable_frames-Owns}
use r_corev.Mm.Pte
use r_corev.Mm.PageTable.{Entries, clean}
use r_corev.Mm.PageTable.Tree.{resolve, Label, IsTree, Inv}
use r_corev.Mm.PageTable.Create.{none_of}
use r_corev.Mm.PageTable.Map.{lookup, length-indexes}
use r_corev.Mm.MapArea.{Space, with_frame, frame_alloc}

-- A frame that is no node of the tree is cleaned.
module _ (mem : Entries) (root : ℕ) (label : Label) (f : ℕ) (t : IsTree mem root label)
    (unlabelled : label f ≡ none) where
  node_ne : (m : ℕ) (q : List ℕ) → label m ≡ some q → (m == f) ≡ false
  node_ne m q h = elim (Bool-cases (m == f)) [
    | inl e ↦
        let em : m ≡ f = ground arith in
        let bad : none ≡ some q = sym unlabelled ∙ ap label (sym em) ∙ h in cc
    | inr e ↦ e
  ]

  node_same : (m j : ℕ) (q : List ℕ) → label m ≡ some q → clean mem f m j ≡ mem m j
  node_same m j q h = rw (node_ne m q h) refl

  pub clean-IsTree : IsTree (clean mem f) root label
  clean-IsTree = record {
    root_label = t.root_label;
    child = λ m j q h l v. let s = node_same m j q h in rw s (t.child m j q h l (rw s at v));
  }

  pub resolve-clean :
      (m : ℕ) (q js : List ℕ)
      → label m ≡ some q
      → length q + length js ≡ 3
      → resolve (clean mem f) m js ≡ resolve mem m js
  unfolding resolve
  resolve-clean m q [] h l = refl
  resolve-clean m q (j ∷ []) h l = rw (node_same m j q h) refl
  resolve-clean m q (i ∷ j ∷ js) h l =
      rw (node_same m i q h) (elim (Bool-cases (Pte.is_valid (mem m i))) [
        | inl v ↦ rw v (
            resolve-clean (Pte.ppn (mem m i)) (q ++ (i ∷ [])) (j ∷ js)
              (t.child m i q h (omega arith) v) (omega (arith, length-append q (i ∷ []))))
        | inr v ↦ rw v refl
      ])

-- The frame that `frame_alloc` gives to a space.
pub record Given (lo : ℕ) (s : Space) (label : Label) (held : List ℕ) : Type 0 where
  pub frame : ℕ
  pub after : Space
  pub result : frame_alloc s ≡ (some frame, after)
  pub inv : Inv lo after.pages.kernel after.pages.table.root_ppn label (frame ∷ held)
  pub fresh : count frame held ≡ 0
  pub unlabelled : label frame ≡ none
  pub small : frame < 2 ^ 44
  pub same : (w : ℕ) → lookup after.pages w ≡ lookup s.pages w
  pub left : usable_frames s.pages.kernel.allocator ≡ usable_frames after.pages.kernel.allocator + 1
  pub others :
      (m i : ℕ)
      → m ≢ frame
      → (after.pages.kernel.mem m i ≡ s.pages.kernel.mem m i) × (after.bytes m i ≡ s.bytes m i)
  pub zero : (i : ℕ) → i < page_size → after.bytes frame i ≡ 0

module _ (lo : ℕ) (s : Space) (label : Label) (held : List ℕ)
    (v : Inv lo s.pages.kernel s.pages.table.root_ppn label held) where
  given :
      (r : Option ℕ × StackFrameAllocator)
      → Frame.alloc s.pages.kernel.allocator ≡ r
      → Allocated lo s.pages.kernel.allocator held r
      → 0 < usable_frames s.pages.kernel.allocator
      → Given lo s label held
  unfolding frame_alloc count Frame.clean
  given (none, a) e g u =
      absurd (omega (arith, usable_frames-Owns lo s.pages.kernel.allocator held v.owns, g.1))
  given (some f, a) e (low, high, free, owns, end) u =
      let unlabelled = none_of label held f v.nodes_held free in
      record {
        frame = f;
        after = record {
          pages = record s.pages {
            kernel = record { allocator = a; mem = clean s.pages.kernel.mem f };
          };
          bytes = Frame.clean s.bytes f;
        };
        result = ap (with_frame s) e;
        inv = record {
          tree = clean-IsTree s.pages.kernel.mem s.pages.table.root_ppn label f v.tree unlabelled;
          owns = owns;
          small = omega (arith, v.small, end);
          nodes_held = λ n p h. omega (arith, v.nodes_held n p h);
        };
        fresh = free;
        unlabelled = unlabelled;
        small = omega (arith, v.small);
        same = λ w.
            resolve-clean s.pages.kernel.mem s.pages.table.root_ppn label f v.tree unlabelled
              s.pages.table.root_ppn [] (indexes w) v.tree.root_label (length-indexes w);
        left = omega (
          arith,
          usable_frames-Owns lo s.pages.kernel.allocator held v.owns,
          usable_frames-Owns lo a (f ∷ held) owns,
        );
        others = λ m i ne. let d : (m == f) ≡ false = ground arith in (rw d refl, rw d refl);
        zero = λ i l.
            let p : (f == f) ≡ true = ground arith in
            let q : ltb i page_size ≡ true = ground arith in rw (p, q) refl;
      }

  pub frame_alloc_space : 0 < usable_frames s.pages.kernel.allocator → Given lo s label held
  frame_alloc_space u =
      given (Frame.alloc s.pages.kernel.allocator) refl
        (alloc-Owns lo s.pages.kernel.allocator held v.owns) u
