-- ===== src/Task/Mmap/Tests.antt =====
-- Page 5 is mapped and page 6 is not.
use r_corev.Prelude.{◌*◌, ok, [], ◌∷◌, ◌≡◌, refl, arith}
use r_corev.Config.{page_size, minus_one}
use r_corev.Mm.Address.{floor, ceil}
use r_corev.Mm.PageTable.Sample.{boot, zeros}
use r_corev.Mm.MapArea
use r_corev.Mm.MapArea.{framed}
use r_corev.Mm.MemorySet
use r_corev.Mm.MemorySet.{MemorySet}
use r_corev.Task.Mmap.{map_virtual_pages, unmap_virtual_pages, port_to_permission}
use r_corev.Task.Mmap.Refused.{map_virtual_pages_taken, unmap_virtual_pages_hole}

abbrev page_5 : MemorySet
page_5 = record {
  space = record { pages = boot; bytes = zeros };
  areas =
      record {
        vpn_range = record { l = 5; r = 6 };
        data_frames = (5, 20) ∷ [];
        map_type = framed;
        map_perm = 22;
      }
      ∷ [];
}

map_virtual_pages_taken_example :
    map_virtual_pages (4 * page_size) (2 * page_size) 3 10 page_5 ≡ ok (minus_one, page_5)
unfolding MemorySet.have_mapped MapArea.have_mapped floor ceil
map_virtual_pages_taken_example =
    map_virtual_pages_taken (4 * page_size) (2 * page_size) 3 10 5 page_5 (ground arith)
      (omega arith) (omega arith) (omega arith) refl

unmap_virtual_pages_hole_example :
    unmap_virtual_pages (5 * page_size) (2 * page_size) page_5 ≡ ok (minus_one, page_5)
unfolding MemorySet.have_mapped MapArea.have_mapped floor ceil
unmap_virtual_pages_hole_example =
    unmap_virtual_pages_hole (5 * page_size) (2 * page_size) 6 page_5 (ground arith) (omega arith)
      (omega arith) (omega arith) refl

read_write : port_to_permission 3 ≡ 22
unfolding port_to_permission
read_write = refl
