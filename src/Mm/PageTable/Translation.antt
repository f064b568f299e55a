-- ===== src/Mm/PageTable/Translation.antt =====
-- `translate` and `translate_va`: what a lookup returns.
use r_corev.Prelude.{
  ℕ, ◌+◌, ◌*◌, ◌%◌, ◌^◌, ◌≤◌, ◌<◌, ◌≡◌, refl, ap, ◌∙◌, Option, none, some, List, [], ◌∷◌, bit_or,
  arith, Bool-cases, inl, inr, ok,
}
use r_corev.Config.{page_size, usize_mod}
use r_corev.Mm.Frame.{usable_frames}
use r_corev.Mm.Address.{indexes, floor, page_offset, addr_of}
use r_corev.Mm.Address.Pages.{page_offset_lem}
use r_corev.Mm.Pte
use r_corev.Mm.Pte.Fields.{new_valid}
use r_corev.Mm.PageTable.{
  Entries, State, PageTable, find_loop, find_pte, map, translate, translate_va,
}
use r_corev.Mm.PageTable.Tree.{resolve, Label, Inv}
use r_corev.Mm.PageTable.Map.{lookup}
use r_corev.Mm.PageTable.Operations.{map_lem}

find_resolve :
    (mem : Entries) (n b : ℕ) (is : List ℕ)
    → resolve mem n is ≡ some b
    → (leaf : ℕ) × (k : ℕ) × (find_loop is n mem ≡ some (leaf, k)) × (mem leaf k ≡ b)
unfolding resolve find_loop
find_resolve mem n b [] e = let bad : ◌≡◌ {A = Option ℕ} none (some b) = e in cc
find_resolve mem n b (i ∷ []) e = elim (Bool-cases (Pte.is_valid (mem n i))) [
  | inl v ↦ let e' : some (mem n i) ≡ some b = rw v at e in (n, i, refl, cc)
  | inr v ↦ let bad : ◌≡◌ {A = Option ℕ} none (some b) = rw v at e in cc
]
find_resolve mem n b (i ∷ j ∷ is) e = elim (Bool-cases (Pte.is_valid (mem n i))) [
  | inl v ↦ rw v (find_resolve mem (Pte.ppn (mem n i)) b (j ∷ is) (rw v at e))
  | inr v ↦ let bad : ◌≡◌ {A = Option ℕ} none (some b) = rw v at e in cc
]

translate_at :
    (vpn b leaf k : ℕ) (mem : Entries) (t : PageTable)
    → find_loop (indexes vpn) t.root_ppn mem ≡ some (leaf, k)
    → mem leaf k ≡ b
    → translate vpn mem t ≡ some b
unfolding translate find_pte
translate_at vpn b leaf k mem t f m = rw (f, translate) (ap some m)

translate_va_at :
    (va b leaf k : ℕ) (mem : Entries) (t : PageTable)
    → find_loop (indexes (floor va)) t.root_ppn mem ≡ some (leaf, k)
    → mem leaf k ≡ b
    → translate_va va mem t ≡ some ((addr_of (Pte.ppn b) + page_offset va) % usize_mod)
unfolding translate_va find_pte
translate_va_at va b leaf k mem t f m =
    rw (f, translate_va)
      (ap (λ (x : ℕ). some ((addr_of (Pte.ppn x) + page_offset va) % usize_mod)) m)

-- A page that is mapped translates to its entry, and an address in it to the frame of the entry with
-- the offset of the address.
pub translate_lem :
    (va b : ℕ) (s : State)
    → lookup s (floor va) ≡ some b
    → (translate (floor va) s.kernel.mem s.table ≡ some b)
      × (translate_va va s.kernel.mem s.table
          ≡ some ((addr_of (Pte.ppn b) + va % page_size) % usize_mod))
translate_lem va b s e =
    let (leaf, k, f, m) = find_resolve s.kernel.mem s.table.root_ppn b (indexes (floor va)) e in
    (
      translate_at (floor va) b leaf k s.kernel.mem s.table f m,
      translate_va_at va b leaf k s.kernel.mem s.table f m
          ∙ ap (λ (x : ℕ). some ((addr_of (Pte.ppn b) + x) % usize_mod)) (page_offset_lem va),
    )

pub translate-lookup :
    (vpn b : ℕ) (s : State) → lookup s vpn ≡ some b → translate vpn s.kernel.mem s.table ≡ some b
translate-lookup vpn b s e =
    let (leaf, k, f, m) = find_resolve s.kernel.mem s.table.root_ppn b (indexes vpn) e in
    translate_at vpn b leaf k s.kernel.mem s.table f m

-- After a page that was not mapped is mapped to a frame in a well-formed table with two usable frames
-- (pages of 27 bits, frames of 44, flags of 8), every address of the page translates to the frame's address with the same offset.
pub map-translate_va :
    (lo vpn ppn flags offset : ℕ) (s : State) (label : Label) (held : List ℕ)
    → Inv lo s.kernel s.table.root_ppn label held
    → vpn < 2 ^ 27
    → ppn < 2 ^ 44
    → flags < 2 ^ 8
    → offset < page_size
    → 2 ≤ usable_frames s.kernel.allocator
    → lookup s vpn ≡ none
    → (s' : State) × (map vpn ppn flags s ≡ ok s')
      × (translate_va (vpn * page_size + offset) s'.kernel.mem s'.table
          ≡ some (ppn * page_size + offset))
unfolding floor addr_of
map-translate_va lo vpn ppn flags offset s label held v small hp hf ho u e =
    let m = map_lem lo vpn ppn flags s label held v small hp hf u e in
    let page : floor (vpn * page_size + offset) ≡ vpn = omega arith in
    let bits = Pte.new ppn (bit_or flags Pte.flag_v) in
    let t =
      translate_lem (vpn * page_size + offset) bits m.after
        (ap (lookup m.after) page ∙ m.updated.here) in
    let sum : (addr_of (Pte.ppn bits) + (vpn * page_size + offset) % page_size) % usize_mod
        ≡ ppn * page_size + offset =
      omega (arith, (new_valid ppn flags hp hf).1) in
    (m.after, m.result, t.1 ∙ ap some sum)
