-- ===== src/Mm/PageTable/Operations.antt =====
-- `map`, `unmap` and `translate`: the page table is a finite map from pages to entries.
use r_corev.Prelude.{
  ℕ, ◌+◌, ◌/◌, ◌%◌, ◌^◌, ◌≤◌, ◌<◌, ◌≡◌, refl, sym, ap, ◌∙◌, true, false, Option, none, some, List,
  [], ◌∷◌, ◌++◌, length, length-append, append_assoc, append-nil, bit_or, arith, Bool-cases, inl,
  inr, Run, ok, panic,
}
use r_corev.Mm.Frame.{usable_frames}
use r_corev.Mm.Address.{indexes}
use r_corev.Mm.Address.Pages.{indexes_lem}
use r_corev.Mm.Pte
use r_corev.Mm.Pte.Fields.{new_valid, empty_invalid}
use r_corev.Mm.PageTable.{
  State, Place, create_loop, find_loop, find_pte_create, map, unmap, ensure, set_entry,
}
use r_corev.Mm.PageTable.Tree.{resolve, Label, Inv, IsTree}
use r_corev.Mm.PageTable.Create.{Grown-refl, last, front}
use r_corev.Mm.PageTable.Map.{valid_entry, lookup, Updated, Walked, walk_lem, lookup_walked, stored}

record Present (label : Label) (s : State) (n : ℕ) (is path : List ℕ)
    (r : Run (Option Place × State)) : Type 0 where
  leaf : ℕ
  result : r ≡ ok (some (leaf, last is), s)
  leaf_label : label leaf ≡ some path
  found : find_loop is n s.kernel.mem ≡ some (leaf, last is)

Present-next :
    {label : Label} {s : State} {n i j : ℕ} {is path path' : List ℕ}
    → path ≡ path'
    → Pte.is_valid (s.kernel.mem n i) ≡ true
    → Present label s
        (Pte.ppn (s.kernel.mem n i))
        (j ∷ is)
        path
        (create_loop (j ∷ is) (Pte.ppn (s.kernel.mem n i)) s)
    → Present label s n (i ∷ j ∷ is) path' (create_loop (i ∷ j ∷ is) n s)
unfolding find_loop create_loop ensure
Present-next e v c = record {
  leaf = c.leaf;
  result = rw v c.result;
  leaf_label = c.leaf_label ∙ ap some e;
  found = rw v c.found;
}

-- Where every node on the way exists, the walk creates nothing.
Present-loop :
    (n i : ℕ) (is : List ℕ) (label : Label) (p : List ℕ) (s : State) (b : ℕ)
    → IsTree s.kernel.mem s.table.root_ppn label
    → label n ≡ some p
    → length p + length (i ∷ is) ≡ 3
    → resolve s.kernel.mem n (i ∷ is) ≡ some b
    → Present label s n (i ∷ is) (p ++ front (i ∷ is)) (create_loop (i ∷ is) n s)
unfolding create_loop find_loop resolve
Present-loop n i [] label p s b t at l e = record {
  leaf = n;
  result = refl;
  leaf_label = at ∙ ap some (sym (append-nil p));
  found = refl;
}
Present-loop n i (j ∷ is) label p s b t at l e =
    elim (Bool-cases (Pte.is_valid (s.kernel.mem n i))) [
      | inl w ↦ Present-next (append_assoc p (i ∷ []) (front (j ∷ is))) w (
          Present-loop (Pte.ppn (s.kernel.mem n i)) j is label (p ++ (i ∷ [])) s b t
            (t.child n i p at (omega arith) w) (omega (arith, length-append p (i ∷ [])))
            (rw w at e))
      | inr w ↦ let bad : ◌≡◌ {A = Option ℕ} none (some b) = rw w at e in cc
    ]

present_lem :
    (lo vpn b : ℕ) (s : State) (label : Label) (held : List ℕ)
    (v : Inv lo s.kernel s.table.root_ppn label held) (small : vpn < 2 ^ 27)
    → lookup s vpn ≡ some b
    → (c : Walked lo vpn s label held v small) × (c.after ≡ s)
unfolding find_pte_create
present_lem lo vpn b s label held v small e = (
  record {
    after = s;
    leaf = p.leaf;
    result = p.result;
    label' = label;
    held' = held;
    grown = Grown-refl v;
    leaf_label = p.leaf_label;
    found = p.found;
    left = omega (arith, ap length (indexes_lem vpn));
  },
  refl,
)
  where
    p : Present label s s.table.root_ppn (indexes vpn) (front (indexes vpn)) (find_pte_create vpn s)
    p = rw (indexes_lem vpn) (
        Present-loop s.table.root_ppn (vpn / 512 / 512 % 512) ((vpn / 512 % 512) ∷ (vpn % 512) ∷ [])
          label [] s b v.tree v.tree.root_label refl (rw (indexes_lem vpn) at e))

valid_of : (bits : ℕ) → valid_entry bits ≡ none → Pte.is_valid bits ≡ false
valid_of bits e = elim (Bool-cases (Pte.is_valid bits)) [
  | inl v ↦ let bad : some bits ≡ none = rw v at e in cc
  | inr v ↦ v
]

some_of : (bits b : ℕ) → valid_entry bits ≡ some b → Pte.is_valid bits ≡ true
some_of bits b e = elim (Bool-cases (Pte.is_valid bits)) [
  | inl v ↦ v
  | inr v ↦ let bad : ◌≡◌ {A = Option ℕ} none (some b) = rw v at e in cc
]

-- The operation succeeds in a state that differs in the entry of one page.
pub record Sets (lo vpn : ℕ) (bits : Option ℕ) (s : State) (label : Label) (held : List ℕ)
    (r : Run State) : Type 0 where
  pub after : State
  pub result : r ≡ ok after
  pub updated : Updated lo vpn bits s after label held

-- In a well-formed table with two usable frames, mapping a page that is not mapped succeeds, for page
-- numbers of 27 bits, frame numbers of 44 and flags of 8: the page then has the entry of the frame number with its flags and `V`, every other page has the entry it
-- had, the table is well-formed, and held frames that are no nodes keep their contents.
pub map_lem :
    (lo vpn ppn flags : ℕ) (s : State) (label : Label) (held : List ℕ)
    → Inv lo s.kernel s.table.root_ppn label held
    → vpn < 2 ^ 27
    → ppn < 2 ^ 44
    → flags < 2 ^ 8
    → 2 ≤ usable_frames s.kernel.allocator
    → lookup s vpn ≡ none
    → Sets lo vpn (some (Pte.new ppn (bit_or flags Pte.flag_v))) s label held (map vpn ppn flags s)
unfolding map
map_lem lo vpn ppn flags s label held v small hp hf u e =
    let c = walk_lem lo vpn s label held v small u in
    let bits = Pte.new ppn (bit_or flags Pte.flag_v) in
    let free =
      valid_of (c.after.kernel.mem c.leaf (last (indexes vpn)))
        (sym (lookup_walked lo vpn s label held v small c) ∙ e) in
    let st = stored lo vpn s label held v small c bits in
    let valid : valid_entry bits ≡ some bits = rw (new_valid ppn flags hp hf).0 refl in
    record {
      after = set_entry (c.leaf, last (indexes vpn)) bits c.after;
      result = rw (c.result, free) refl;
      updated = rw valid at st;
    }

-- In a well-formed table, mapping a page (of 27 bits) that is mapped stops the kernel.
pub map_mapped :
    (lo vpn ppn flags b : ℕ) (s : State) (label : Label) (held : List ℕ)
    → Inv lo s.kernel s.table.root_ppn label held
    → vpn < 2 ^ 27
    → lookup s vpn ≡ some b
    → map vpn ppn flags s ≡ panic
unfolding map
map_mapped lo vpn ppn flags b s label held v small e =
    let c = (present_lem lo vpn b s label held v small e).0 in
    let taken =
      some_of (c.after.kernel.mem c.leaf (last (indexes vpn))) b
        (sym (lookup_walked lo vpn s label held v small c) ∙ e) in
    rw (c.result, taken) refl

-- In a well-formed table, unmapping a mapped page (of 27 bits) succeeds and leaves the allocator as it
-- was: the page then has no entry, every
-- other page has the entry it had, the table is well-formed, and held frames that are no nodes keep
-- their contents.
pub unmap_lem :
    (lo vpn b : ℕ) (s : State) (label : Label) (held : List ℕ)
    → Inv lo s.kernel s.table.root_ppn label held
    → vpn < 2 ^ 27
    → lookup s vpn ≡ some b
    → (r : Sets lo vpn none s label held (unmap vpn s)) × (r.after.kernel.allocator
        ≡ s.kernel.allocator)
unfolding unmap
unmap_lem lo vpn b s label held v small e =
    let (c, same) = present_lem lo vpn b s label held v small e in
    let taken =
      some_of (c.after.kernel.mem c.leaf (last (indexes vpn))) b
        (sym (lookup_walked lo vpn s label held v small c) ∙ e) in
    let st = stored lo vpn s label held v small c Pte.empty in
    let gone : valid_entry Pte.empty ≡ none = rw empty_invalid refl in
    (
      record {
        after = set_entry (c.leaf, last (indexes vpn)) Pte.empty c.after;
        result = rw (c.result, taken) refl;
        updated = rw gone at st;
      },
      ap (λ (x : State). x.kernel.allocator) same,
    )

-- In a well-formed table with two usable frames, unmapping a page (of 27 bits) that is not mapped stops
-- the kernel.
pub unmap_unmapped :
    (lo vpn : ℕ) (s : State) (label : Label) (held : List ℕ)
    → Inv lo s.kernel s.table.root_ppn label held
    → vpn < 2 ^ 27
    → 2 ≤ usable_frames s.kernel.allocator
    → lookup s vpn ≡ none
    → unmap vpn s ≡ panic
unfolding unmap
unmap_unmapped lo vpn s label held v small u e =
    let c = walk_lem lo vpn s label held v small u in
    let free =
      valid_of (c.after.kernel.mem c.leaf (last (indexes vpn)))
        (sym (lookup_walked lo vpn s label held v small c) ∙ e) in
    rw (c.result, free) refl
