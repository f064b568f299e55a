-- ===== src/Mm/PageTable/Tests.antt =====
-- `PageTable` on a kernel with the sixteen frames from 16 on, the first of which is the root.
use r_corev.Prelude.{◌+◌, ◌*◌, ◌≤◌, ◌≡◌, none, some, [], ◌∷◌, bit_or, arith, ok}
use r_corev.Config.{page_size}
use r_corev.Mm.Frame.{usable_frames}
use r_corev.Mm.Pte
use r_corev.Mm.PageTable.{State, map, unmap, translate_va}
use r_corev.Mm.PageTable.Fresh.{root_label}
use r_corev.Mm.PageTable.Sample.{boot, boot-Inv, boot_unmapped}
use r_corev.Mm.PageTable.Operations.{Sets, map_lem, unmap_lem}
use r_corev.Mm.PageTable.Translation.{map-translate_va}

boot_usable : 2 ≤ usable_frames boot.kernel.allocator
unfolding usable_frames
boot_usable = omega arith

map_lem_example :
    Sets 16 5 (some (Pte.new 80 (bit_or 6 1))) boot (root_label 16) (16 ∷ []) (map 5 80 6 boot)
map_lem_example =
    map_lem 16 5 80 6 boot (root_label 16) (16 ∷ []) boot-Inv (omega arith) (omega arith)
      (omega arith) boot_usable (boot_unmapped 5)

map-translate_va_example :
    (s' : State) × (map 5 80 6 boot ≡ ok s')
    × (translate_va (5 * page_size + 7) s'.kernel.mem s'.table ≡ some (80 * page_size + 7))
map-translate_va_example =
    map-translate_va 16 5 80 6 7 boot (root_label 16) (16 ∷ []) boot-Inv (omega arith) (omega arith)
      (omega arith) (omega arith) boot_usable (boot_unmapped 5)

-- The state after page 5 is mapped.
abbrev mapped :
    Sets 16 5 (some (Pte.new 80 (bit_or 6 1))) boot (root_label 16) (16 ∷ []) (map 5 80 6 boot)
mapped =
    map_lem 16 5 80 6 boot (root_label 16) (16 ∷ []) boot-Inv (omega arith) (omega arith)
      (omega arith) boot_usable (boot_unmapped 5)

unmap_lem_example :
    (r : Sets 16 5 none mapped.after mapped.updated.label' mapped.updated.held'
      (unmap 5 mapped.after))
    × (r.after.kernel.allocator ≡ mapped.after.kernel.allocator)
unmap_lem_example =
    unmap_lem 16 5 (Pte.new 80 (bit_or 6 1)) mapped.after mapped.updated.label' mapped.updated.held'
      mapped.updated.inv (omega arith) mapped.updated.here
