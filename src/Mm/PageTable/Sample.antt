-- ===== src/Mm/PageTable/Sample.antt =====
-- A page table on a kernel with the sixteen frames from 16 on, the first of which is the root.
use r_corev.Prelude.{if◌then◌else◌, ◌&&◌, ◌==◌, ◌*◌, ◌+◌, ℕ, ◌≡◌, refl, none, [], ◌∷◌, arith}
use r_corev.Mm.Frame
use r_corev.Mm.Frame.{usable_frames}
use r_corev.Mm.Frame.Ownership.{Owns, init-Owns, alloc-Owns}
use r_corev.Mm.Address.Pages.{indexes_lem}
use r_corev.Mm.Pte
use r_corev.Mm.PageTable.{Entries, Kernel, State, clean}
use r_corev.Mm.PageTable.Tree.{resolve, Inv}
use r_corev.Mm.PageTable.Map.{lookup}
use r_corev.Mm.PageTable.Fresh.{root_label, fresh_Inv}

abbrev pub zeros : Entries
zeros n i = 0

abbrev pub start : Kernel
start = record { allocator = record { current = 16; end = 32; recycled = [] }; mem = zeros }

abbrev pub boot : State
boot = record {
  kernel = record {
    allocator = record { current = 17; end = 32; recycled = [] };
    mem = clean zeros 16;
  };
  table = record { root_ppn = 16; frames = 16 ∷ [] };
}

pub start-Owns : Owns 16 start.allocator []
unfolding Frame.init Frame.new
start-Owns = init-Owns 16 32 (omega arith)

pub boot-Inv : Inv 16 boot.kernel 16 (root_label 16) (16 ∷ [])
unfolding Frame.alloc
boot-Inv =
    fresh_Inv 16 16 boot.kernel.allocator [] zeros (alloc-Owns 16 start.allocator [] start-Owns).3
      (omega arith)

pub boot_unmapped : (vpn : ℕ) → lookup boot vpn ≡ none
unfolding resolve Pte.is_valid
boot_unmapped vpn = rw (indexes_lem vpn) refl

-- The table with the root 16 in which page 5 alone is mapped, to frame 80, for a user to read and write.
abbrev pub entries : Entries
entries n i =
    if (n == 16) && (i == 0)
    then 17 * 1024 + 1
    else (if (n == 17) && (i == 0)
        then 18 * 1024 + 1
        else (if (n == 18) && (i == 5) then 80 * 1024 + 23 else 0))
