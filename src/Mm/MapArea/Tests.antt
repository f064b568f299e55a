-- ===== src/Mm/MapArea/Tests.antt =====
-- An area of two pages.
use r_corev.Prelude.{◌*◌, ◌≤◌, refl, [], ◌∷◌, arith}
use r_corev.Mm.Frame.{usable_frames}
use r_corev.Mm.PageTable.Sample.{boot, boot-Inv, boot_unmapped, zeros}
use r_corev.Mm.PageTable.Fresh.{root_label}
use r_corev.Mm.MapArea.{MapArea, Space, framed, map}
use r_corev.Mm.MapArea.Added.{Succeeds}
use r_corev.Mm.MapArea.Mapping.{map_area_lem}

abbrev two_pages : MapArea
two_pages = record {
  vpn_range = record { l = 5; r = 7 };
  data_frames = [];
  map_type = framed;
  map_perm = 30;
}

abbrev boot_space : Space
boot_space = record { pages = boot; bytes = zeros }

enough : 3 * 2 ≤ usable_frames boot.kernel.allocator
unfolding usable_frames
enough = omega arith

map_area_lem_example :
    Succeeds 16 5 2 (root_label 16) (16 ∷ []) two_pages boot_space (map two_pages boot_space)
map_area_lem_example =
    map_area_lem 16 2 (root_label 16) (16 ∷ []) two_pages boot_space boot-Inv refl (omega arith)
      refl (omega arith) enough (λ w a b. (boot_unmapped w, refl))
