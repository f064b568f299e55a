-- ===== src/Mm/PageTable/Fresh.antt =====
-- `PageTable::new`, `token` and `from_token`.
use r_corev.Prelude.{
  ℕ, ◌+◌, ◌*◌, ◌/◌, ◌%◌, ◌^◌, ◌≤◌, ◌<◌, ◌≡◌, refl, sym, ap, ◌∙◌, true, false, Option, none, some,
  List, [], ◌∷◌, ◌++◌, length, ◌==◌, if◌then◌else◌, and_mask, or_field, count, arith, Bool-cases,
  inl, inr, ok,
}
use r_corev.Mm.Frame
use r_corev.Mm.Frame.{StackFrameAllocator, usable_frames}
use r_corev.Mm.Frame.Ownership.{Owns, Allocated, alloc-Owns, usable_frames-Owns}
use r_corev.Mm.Address.{indexes}
use r_corev.Mm.Address.Pages.{indexes_lem}
use r_corev.Mm.Pte
use r_corev.Mm.PageTable.{
  Entries, clean, Kernel, PageTable, State, take_frame, new, token, from_token,
}
use r_corev.Mm.PageTable.Tree.{resolve, Label, Inv, valid_zero}
use r_corev.Mm.PageTable.Map.{lookup}

abbrev pub root_label : ℕ → Label
root_label root n = if n == root then some [] else none

-- A new table, made by a kernel that holds the frames `held`.
pub record Fresh (lo : ℕ) (k : Kernel) (held : List ℕ) : Type 0 where
  pub state : State
  pub result : new k ≡ ok state
  pub inv :
      Inv lo state.kernel state.table.root_ppn
        (root_label state.table.root_ppn)
        (state.table.root_ppn ∷ held)
  pub unmapped : (vpn : ℕ) → lookup state vpn ≡ none
  pub kept : (n i : ℕ) → 0 < count n held → state.kernel.mem n i ≡ k.mem n i

-- A clean root whose frame is held.
pub fresh_Inv :
    (lo f : ℕ) (a : StackFrameAllocator) (held : List ℕ) (mem : Entries)
    → Owns lo a (f ∷ held)
    → a.end ≤ 2 ^ 44
    → Inv lo (record { allocator = a; mem = clean mem f }) f (root_label f) (f ∷ held)
unfolding count
fresh_Inv lo f a held mem v small = record {
  tree = record { root_label = ground arith; child = child };
  owns = v;
  small = small;
  nodes_held = nodes_held;
}
  where
    child :
        (n i : ℕ) (p : List ℕ)
        → root_label f n ≡ some p
        → length p < 2
        → Pte.is_valid (clean mem f n i) ≡ true
        → root_label f (Pte.ppn (clean mem f n i)) ≡ some (p ++ (i ∷ []))
    child n i p h l w = elim (Bool-cases (n == f)) [
      | inl e ↦
          let z : Pte.is_valid (clean mem f n i) ≡ false = rw e valid_zero in
          let bad : true ≡ false = sym w ∙ z in cc
      | inr e ↦ let bad : ◌≡◌ {A = Option (List ℕ)} none (some p) = rw e at h in cc
    ]

    nodes_held : (n : ℕ) (p : List ℕ) → root_label f n ≡ some p → 0 < count n (f ∷ held)
    nodes_held n p h = elim (Bool-cases (n == f)) [
      | inl e ↦ ground arith
      | inr e ↦ let bad : ◌≡◌ {A = Option (List ℕ)} none (some p) = rw e at h in cc
    ]

module _ (lo : ℕ) (k : Kernel) (held : List ℕ) (v : Owns lo k.allocator held)
    (small : k.allocator.end ≤ 2 ^ 44) where
  clean_lookup : (mem : Entries) (f vpn : ℕ) → resolve (clean mem f) f (indexes vpn) ≡ none
  unfolding resolve
  clean_lookup mem f vpn =
      let z : (i : ℕ) → clean mem f f i ≡ 0 = λ i. ground arith in
      rw (indexes_lem vpn, z (vpn / 512 / 512 % 512), valid_zero) refl

  Fresh-from :
      (r : Option ℕ × StackFrameAllocator)
      → Frame.alloc k.allocator ≡ r
      → Allocated lo k.allocator held r
      → 0 < usable_frames k.allocator
      → Fresh lo k held
  unfolding new take_frame count
  Fresh-from (none, a) e g u = absurd (omega (arith, usable_frames-Owns lo k.allocator held v, g.1))
  Fresh-from (some f, a) e g u = record {
    state = record {
      kernel = record { allocator = a; mem = clean k.mem f };
      table = record { root_ppn = f; frames = f ∷ [] };
    };
    result = rw e refl;
    inv = fresh_Inv lo f a held k.mem g.3 (omega (arith, g.4));
    unmapped = clean_lookup k.mem f;
    kept = kept;
  }
    where
      kept : (n i : ℕ) → 0 < count n held → clean k.mem f n i ≡ k.mem n i
      kept n i c = elim (Bool-cases (n == f)) [
        | inl e ↦
            let en : n ≡ f = ground arith in absurd (omega (arith, ap (λ x. count x held) en, g.2))
        | inr e ↦ rw e refl
      ]

  -- Where all frames are accounted for and have numbers of at most 44 bits, with one usable frame a new
  -- table is made: it is well-formed, maps no page, and the frames that
  -- were held keep their contents.
  pub new_lem : 0 < usable_frames k.allocator → Fresh lo k held
  new_lem u = Fresh-from (Frame.alloc k.allocator) refl (alloc-Owns lo k.allocator held v) u

-- The token of a table leads back to its root, a frame number of 44 bits.
pub from_token-token :
    (t : PageTable) → t.root_ppn < 2 ^ 44 → (from_token (token t)).root_ppn ≡ t.root_ppn
unfolding from_token token
from_token-token t h =
    rw (or_field 60 8 t.root_ppn (omega arith))
      (and_mask 44 (8 * 2 ^ 60 + t.root_ppn) ∙ omega arith)
