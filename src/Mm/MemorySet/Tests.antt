-- ===== src/Mm/MemorySet/Tests.antt =====
-- Address spaces of a few pages.
use r_corev.Prelude.{
  ℕ, ◌+◌, ◌*◌, ◌<◌, ◌≤◌, ◌≡◌, ◌==◌, if◌then◌else◌, refl, none, some, List, [], ◌∷◌, ok, arith, suc,
  zero,
}
use r_corev.Config.{minus_one}
use r_corev.Mm.Address
use r_corev.Mm.Address.Pages.{range}
use r_corev.Mm.Frame.{usable_frames}
use r_corev.Mm.Pte
use r_corev.Mm.PageTable
use r_corev.Mm.PageTable.{Entries, PageTable}
use r_corev.Mm.PageTable.Sample.{boot, boot-Inv, boot_unmapped, zeros}
use r_corev.Mm.PageTable.Fresh.{root_label}
use r_corev.Mm.MapArea.{MapArea, Space, framed}
use r_corev.Mm.MemorySet.{MemorySet, push, copy_pages}
use r_corev.Mm.MemorySet.Areas.{Pushed, push_lem, push_exhausted}
use r_corev.Mm.MemorySet.Fork.{CopiedPages, copy_pages_lem}

abbrev two_pages : MapArea
two_pages = record {
  vpn_range = record { l = 5; r = 7 };
  data_frames = [];
  map_type = framed;
  map_perm = 30;
}

abbrev boot_set : MemorySet
boot_set = record { space = record { pages = boot; bytes = zeros }; areas = [] }

abbrev five_bytes : List ℕ
five_bytes = 1 ∷ 2 ∷ 3 ∷ 4 ∷ 5 ∷ []

enough : 3 * 2 ≤ usable_frames boot.kernel.allocator
unfolding usable_frames
enough = omega arith

push_lem_example :
    Pushed 2 two_pages five_bytes boot_set (push two_pages (some five_bytes) boot_set)
push_lem_example =
    push_lem 16 2 (root_label 16) (16 ∷ []) two_pages five_bytes boot_set boot-Inv refl
      (omega arith) refl (omega arith) (omega arith) enough (omega arith)
      (λ w a b. (boot_unmapped w, refl))

abbrev full_set : MemorySet
full_set = record {
  space = record {
    pages = record {
      kernel = record { allocator = record { current = 32; end = 32; recycled = [] }; mem = zeros };
      table = record { root_ppn = 16; frames = [] };
    };
    bytes = zeros;
  };
  areas = [];
}

none_usable : usable_frames full_set.space.pages.kernel.allocator ≡ 0
unfolding usable_frames
none_usable = refl

push_exhausted_example :
    push two_pages none full_set ≡ ok (minus_one, record full_set { areas = two_pages ∷ [] })
push_exhausted_example =
    push_exhausted two_pages full_set refl (omega arith) (omega arith) none_usable

-- Page 0 of the table with the root 16 is in frame 30, and that of the root 20 in frame 31.
abbrev two_tables : Entries
two_tables n i =
    if i == 0
    then if n == 16
      then 17 * 1024 + 1
      else if n == 17
      then 18 * 1024 + 1
      else if n == 18
      then 30 * 1024 + 15
      else if n == 20
      then 21 * 1024 + 1
      else if n == 21
      then 22 * 1024 + 1
      else if n == 22
      then 31 * 1024 + 15
      else 0
    else 0

abbrev child : Space
child = record {
  pages = record {
    kernel = record {
      allocator = record { current = 32; end = 32; recycled = [] };
      mem = two_tables;
    };
    table = record { root_ppn = 20; frames = [] };
  };
  bytes = λ p i. p;
}

abbrev parent : PageTable
parent = record { root_ppn = 16; frames = [] }

parent_page :
    (q : ℕ) → q < 1 → PageTable.translate (0 + q) two_tables parent ≡ some (30 * 1024 + 15)
unfolding PageTable.translate PageTable.find_pte PageTable.find_loop Address.indexes Pte.is_valid
    Pte.ppn
parent_page zero h = refl
parent_page (suc q) h = absurd (omega arith)

child_page :
    (q : ℕ)
    → q < 1
    → PageTable.translate (0 + q) two_tables child.pages.table ≡ some (31 * 1024 + 15)
unfolding PageTable.translate PageTable.find_pte PageTable.find_loop Address.indexes Pte.is_valid
    Pte.ppn
child_page zero h = refl
child_page (suc q) h = absurd (omega arith)

parent_ppn : Pte.ppn (30 * 1024 + 15) ≡ 30
unfolding Pte.ppn
parent_ppn = refl

child_ppn : Pte.ppn (31 * 1024 + 15) ≡ 31
unfolding Pte.ppn
child_ppn = refl

copy_pages_lem_example :
    CopiedPages (λ q. 30) (λ q. 31) 0 1 child (copy_pages parent (range 0 1) child)
copy_pages_lem_example =
    copy_pages_lem parent 0 1 (λ q. 30 * 1024 + 15) (λ q. 31 * 1024 + 15) (λ q. 30) (λ q. 31) child
      (λ q h. parent_ppn) (λ q h. child_ppn) (λ i j a b e. omega arith)
      (λ i j a b e. omega (arith, e)) parent_page child_page
