-- ===== src/Mm/MemorySet/Areas.antt =====
-- `push` of a framed area with data: the data are in the pages of the area, and zeros behind them.
use r_corev.Prelude.{
  ℕ, ◌+◌, ◌*◌, ◌^◌, ◌≤◌, ◌<◌, ◌≡◌, refl, sym, ap, ◌∙◌, false, Bool, Option, none, some, List, [],
  ◌∷◌, ◌++◌, length, get_or, ◌⊎◌, inside, ap₂, ltb, ◌==◌, if◌then◌else◌, bit_or, Run, ok, arith,
  Bool-cases, inl, inr, count,
}
use r_corev.Config.{page_size, usize_mod, minus_one}
use r_corev.Mm.Address.{SimpleRange}
use r_corev.Mm.Frame.{usable_frames}
use r_corev.Mm.Pte
use r_corev.Mm.Pte.Fields.{new_valid}
use r_corev.Mm.PageTable.{State}
use r_corev.Mm.PageTable.Tree.{Label, Inv}
use r_corev.Mm.PageTable.Map.{lookup}
use r_corev.Mm.PageTable.Translation.{translate-lookup}
use r_corev.Mm.MapArea.{framed, MapArea, Space, is_framed, copy_data}
use r_corev.Mm.MapArea.Added.{get, Added}
use r_corev.Mm.MapArea.Mapping.{map_area_lem}
use r_corev.Mm.MapArea.Copying.{Copied, copy_data_lem}
use r_corev.Mm.MapArea.Exhausted.{map_exhausted}
use r_corev.Mm.MemorySet.{MemorySet, push, copy_given}

-- Without a usable frame, pushing a framed area of at least one page without data returns -1 and changes
-- no page, but the area is in the set.
pub push_exhausted :
    (area : MapArea) (m : MemorySet)
    → area.map_type ≡ framed
    → area.vpn_range.l < area.vpn_range.r
    → m.space.pages.kernel.allocator.current ≤ m.space.pages.kernel.allocator.end
    → usable_frames m.space.pages.kernel.allocator ≡ 0
    → push area none m ≡ ok (minus_one, record m { areas = m.areas ++ (area ∷ []) })
unfolding push copy_given
push_exhausted area m k l h u = rw (map_exhausted area m.space k l h u) refl

held_small :
    (lo f root : ℕ) (s : State) (label : Label) (held : List ℕ)
    → Inv lo s.kernel root label held
    → 0 < count f held
    → f < 2 ^ 44
unfolding inside
held_small lo f root s label held v h = ground (arith, v.owns.once f, v.owns.high, v.small)

-- What pushing data leaves.
pub record Pushed (n : ℕ) (area : MapArea) (data_ : List ℕ) (m : MemorySet)
    (r : Run (ℕ × MemorySet)) : Type 0 where
  pub after : MemorySet
  pub area' : MapArea
  pub result : r ≡ ok (0, after)
  pub areas : after.areas ≡ m.areas ++ (area' ∷ [])
  pub page :
      (q : ℕ)
      → q < n
      → (f : ℕ) × (get (area.vpn_range.l + q) area'.data_frames ≡ some f)
        × (lookup after.space.pages (area.vpn_range.l + q)
            ≡ some (Pte.new f (bit_or area.map_perm Pte.flag_v)))
        × ((i : ℕ)
            → i < page_size
            → after.space.bytes f i ≡ (
                if ltb (q * page_size + i) (length data_)
                then get_or data_ (q * page_size + i) 0
                else 0))
  pub elsewhere :
      (w : ℕ)
      → (w < area.vpn_range.l) ⊎ (area.vpn_range.r ≤ w)
      → w < 2 ^ 27
      → lookup after.space.pages w ≡ lookup m.space.pages w

abbrev value : Option ℕ → ℕ
value none = 0
value (some x) = x

-- The frame of the page `q` of an area.
abbrev frame : MapArea → ℕ → ℕ
frame area q = value (get (area.vpn_range.l + q) area.data_frames)

abbrev entry : MapArea → ℕ → ℕ
entry area q = Pte.new (frame area q) (bit_or area.map_perm Pte.flag_v)

module _ (lo n : ℕ) (label : Label) (held : List ℕ) (area area' : MapArea) (s s' : Space)
    (a : Added lo area.vpn_range.l n label held area area' s s') where
  abbrev place : ℕ → ℕ
  place q = area.vpn_range.l + q

  page_facts :
      (q : ℕ)
      → q < n
      → (get (place q) area'.data_frames ≡ some (frame area' q))
        × (lookup s'.pages (place q) ≡ some (entry area' q))
        × (0 < count (frame area' q) a.held')
        × ((i : ℕ) → i < page_size → s'.bytes (frame area' q) i ≡ 0)
  page_facts q h =
      let (f, at, maps, mine, new, clean) = a.page (place q) (omega arith) (omega arith) in
      let l : area'.vpn_range.l ≡ area.vpn_range.l = ap (λ (g : SimpleRange). g.l) a.bounds in
      let same : frame area' q ≡ f =
        ap (λ x. value (get (x + q) area'.data_frames)) l ∙ ap value at in
      (
        at ∙ ap some (sym same),
        maps ∙ ap₂ (λ x y. some (Pte.new x (bit_or y Pte.flag_v))) (sym same) (sym a.perm),
        omega (arith, mine.1, ap (λ x. count x a.held') same),
        (λ i l. ap (λ x. s'.bytes x i) same ∙ clean i l),
      )

  frames_distinct : (i j : ℕ) → i < n → j < n → frame area' i ≡ frame area' j → i ≡ j
  frames_distinct i j hi hj e = elim (Bool-cases (ltb i j)) [
    | inl t ↦ absurd (
        a.distinct (place i) (place j) (frame area' i) (frame area' j) (omega arith) (ground arith)
          (omega arith) (page_facts i hi).0 (page_facts j hj).0 e)
    | inr t ↦ elim (Bool-cases (ltb j i)) [
      | inl u ↦ absurd (
          a.distinct (place j) (place i) (frame area' j) (frame area' i) (omega arith)
            (ground arith) (omega arith) (page_facts j hj).0 (page_facts i hi).0 (sym e))
      | inr u ↦ ground arith
    ]
  ]

  copied_lem :
      (data_ : List ℕ)
      → area.map_perm < 2 ^ 8
      → area.vpn_range.l + n < usize_mod
      → 0 < n
      → length data_ ≤ n * page_size
      → Copied (frame area') n 0 data_ s' (copy_data data_ area' s')
  copied_lem data_ hp fits hn hl =
      let l : area'.vpn_range.l ≡ area.vpn_range.l = ap (λ (g : SimpleRange). g.l) a.bounds in
      copy_data_lem n (entry area') (frame area') data_ area' s' (ap is_framed a.kind) (omega arith)
        (λ k h.
          (new_valid (frame area' k) area'.map_perm
            (held_small lo (frame area' k) s'.pages.table.root_ppn s'.pages a.label' a.held' a.inv
              (page_facts k h).2)
            (omega (arith, a.perm))).1)
        frames_distinct
        (λ q h.
          let same : area'.vpn_range.l + q ≡ place q = omega arith in
          translate-lookup (area'.vpn_range.l + q) (entry area' q) s'.pages
            (ap (lookup s'.pages) same ∙ (page_facts q h).1))
        hn hl

-- Pushing a framed area of `n > 0` new pages with data of at most `n` pages succeeds in a well-formed space with
-- `3 * n` usable frames, no page being mapped: the area is added, its pages are mapped to frames with its permissions, byte `i` of the
-- page `q` is the byte `q * 4096 + i` of the data or 0 behind them, and the other pages are as before.
pub push_lem :
    (lo n : ℕ) (label : Label) (held : List ℕ) (area : MapArea) (data_ : List ℕ) (m : MemorySet)
    → Inv lo m.space.pages.kernel m.space.pages.table.root_ppn label held
    → area.map_type ≡ framed
    → area.map_perm < 2 ^ 8
    → area.vpn_range.l + n ≡ area.vpn_range.r
    → area.vpn_range.r ≤ 2 ^ 27
    → 0 < n
    → 3 * n ≤ usable_frames m.space.pages.kernel.allocator
    → length data_ ≤ n * page_size
    → ((w : ℕ)
        → area.vpn_range.l ≤ w
        → w < area.vpn_range.r
        → (lookup m.space.pages w ≡ none) × (get w area.data_frames ≡ none))
    → Pushed n area data_ m (push area (some data_) m)
unfolding push copy_given
push_lem lo n label held area data_ m v k hp e hr hn u hl free =
    let c = map_area_lem lo n label held area m.space v k hp e hr u free in
    let a = c.added in
    let area' = c.after.area in
    let s' = c.after.space in
    let d = copied_lem lo n label held area area' m.space s' a data_ hp (omega arith) hn hl in
    let ok_ : (c.after.status == minus_one) ≡ false = ground (arith, c.status) in
    let after : MemorySet = record { space = d.after; areas = m.areas ++ (area' ∷ []) } in
    record {
      after = after;
      area' = area';
      result =
          rw (c.result, d.result) (ap (λ (b : Bool). ok (if b then minus_one else 0, after)) ok_);
      areas = refl;
      page = λ q h.
          let f = page_facts lo n label held area area' m.space s' a q h in
          (
            frame area' q,
            f.0,
            ap (λ x. lookup x (area.vpn_range.l + q)) d.pages
                ∙ f.1
                ∙ ap (λ x. some (Pte.new (frame area' q) (bit_or x Pte.flag_v))) a.perm,
            (λ i l.
                d.bytes q i h l
                ∙ ap₂ (λ (b : Bool) y. if b then get_or data_ (q * page_size + i) 0 else y)
                    (ground arith) (f.3 i l)),
          );
      elsewhere = λ w out small.
          ap (λ x. lookup x w) d.pages
          ∙ (a.elsewhere w (elim out [ inl x ↦ inl x | inr x ↦ inr (omega arith) ])).1 small;
    }
