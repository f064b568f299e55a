-- ===== src/Mm/MemorySet.antt =====
-- `MemorySet` of os/src/mm/memory_set.rs: the page table and the areas of an address space, with the
-- machine that they stand on. The addresses that the linker gives and the parser of ELF files are
-- parameters.
pub mod Areas
pub mod Fork
mod Tests
use r_corev.Prelude.{
  ℕ, zero, suc, ◌+◌, ◌-◌, ◌*◌, ◌/◌, ◌%◌, Bool, true, false, Option, none, some, List, [], ◌∷◌, ◌++◌,
  take, drop, length, leb, ◌==◌, if◌then◌else◌, bit_or, Run, ok, panic, ◌>>=◌, ◌>>◌, assert, unwrap,
}
use r_corev.Config.{
  usize_mod, page_size, memory_end, trampoline, trap_context, user_stack_size, mmio, minus_one,
}
use r_corev.Mm.Address
use r_corev.Mm.Address.{SimpleRange, page_of, addr_of}
use r_corev.Mm.Address.Pages.{range}
use r_corev.Mm.Frame
use r_corev.Mm.Frame.{Memory}
use r_corev.Mm.Pte
use r_corev.Mm.PageTable
use r_corev.Mm.PageTable.{Kernel, PageTable}
use r_corev.Mm.MapArea
use r_corev.Mm.MapArea.{
  MapType, identical, framed, MapArea, Space, vpns, perm_r, perm_w, perm_x, perm_u, drop_frame,
  write_frame,
}

pub record MemorySet : Type 0 where
  pub space : Space
  pub areas : List MapArea

unfoldable pub new_bare : Kernel → Memory → Run MemorySet
new_bare k bytes =
    PageTable.new k >>= λ p. ok (record { space = record { pages = p; bytes = bytes }; areas = [] })

unfoldable pub token : MemorySet → ℕ
token m = PageTable.token m.space.pages.table

abbrev any_mapped : ℕ → List MapArea → Bool
any_mapped vpn [] = false
any_mapped vpn (area ∷ rest) =
    let others = any_mapped vpn rest in if MapArea.have_mapped vpn area then true else others

unfoldable pub have_mapped : ℕ → MemorySet → Bool
have_mapped vpn m = any_mapped vpn m.areas

abbrev pub sum_frames : List MapArea → ℕ → ℕ
sum_frames [] frames = frames
sum_frames (area ∷ rest) frames =
    sum_frames rest ((frames + (area.vpn_range.r - area.vpn_range.l)) % usize_mod)

unfoldable pub frames_used : MemorySet → ℕ
frames_used m = sum_frames m.areas 0

-- The copy of the data, if there is any.
unfoldable pub copy_given : Option (List ℕ) → MapArea → Space → Run Space
copy_given none area s = ok s
copy_given (some data_) area s = MapArea.copy_data data_ area s

-- The area is kept even if not all of it could be mapped.
unfoldable pub push : MapArea → Option (List ℕ) → MemorySet → Run (ℕ × MemorySet)
unfolding copy_given
push map_area data_ m = do
  r ← MapArea.map map_area m.space
  s ← copy_given data_ r.area r.space
  ok (
    if r.status == minus_one then minus_one else 0,
    record { space = s; areas = m.areas ++ (r.area ∷ []) },
  )

unfoldable pub insert_framed_area : ℕ → ℕ → ℕ → MemorySet → Run MemorySet
unfolding push
insert_framed_area start_va end_va permission m = do
  area ← MapArea.new start_va end_va framed permission
  (_, m') ← push area none m
  ok m'

-- An area is dropped, with the trackers that it still holds.
unfoldable pub drop_frames : List (ℕ × ℕ) → Space → Run Space
drop_frames [] s = ok s
drop_frames ((vpn, ppn) ∷ rest) s = drop_frame ppn s >>= λ s'. drop_frames rest s'

-- The first area that starts at a page is unmapped and removed.
unfoldable pub remove_first : ℕ → List MapArea → Space → Run (List MapArea × Space)
unfolding drop_frames
remove_first start_vpn [] s = ok ([], s)
remove_first start_vpn (area ∷ rest) s = elim (area.vpn_range.l == start_vpn) [
  | true ↦ MapArea.unmap area s >>= λ r. drop_frames r.0.data_frames r.1 >>= λ s'. ok (rest, s')
  | false ↦ remove_first start_vpn rest s >>= λ r. ok (area ∷ r.0, r.1)
]

unfoldable pub remove_area_with_start_vpn : ℕ → MemorySet → Run MemorySet
unfolding remove_first
remove_area_with_start_vpn start_vpn m =
    remove_first start_vpn m.areas m.space >>= λ r. ok (record { space = r.1; areas = r.0 })

unfoldable pub unmap_in : ℕ → MapArea → Space → Run (MapArea × Space)
unmap_in vpn area s = elim (MapArea.have_mapped vpn area) [
  | true ↦ MapArea.unmap_one vpn area s
  | false ↦ ok (area, s)
]

-- One page is unmapped in each area that has it.
unfoldable pub unmap_page : ℕ → List MapArea → Space → Run (List MapArea × Space)
unfolding unmap_in
unmap_page vpn [] s = ok ([], s)
unmap_page vpn (area ∷ rest) s =
    unmap_in vpn area s >>= λ r. unmap_page vpn rest r.1 >>= λ q. ok (r.0 ∷ q.0, q.1)

unfoldable pub unmap_pages : List ℕ → List MapArea → Space → Run (List MapArea × Space)
unfolding unmap_page
unmap_pages [] areas s = ok (areas, s)
unmap_pages (vpn ∷ rest) areas s = unmap_page vpn areas s >>= λ r. unmap_pages rest r.0 r.1

unfoldable pub unmap : SimpleRange → MemorySet → Run MemorySet
unfolding unmap_pages
unmap g m = unmap_pages (vpns g) m.areas m.space >>= λ r. ok (record { space = r.1; areas = r.0 })

unfoldable pub map_trampoline : ℕ → MemorySet → Run MemorySet
map_trampoline strampoline m = do
  vpn ← page_of trampoline
  ppn ← page_of strampoline
  p ← PageTable.map vpn ppn (bit_or perm_r perm_x) m.space.pages
  ok (record m { space = record m.space { pages = p } })

-- What the linker script defines.
pub record Symbols : Type 0 where
  pub stext : ℕ
  pub etext : ℕ
  pub srodata : ℕ
  pub erodata : ℕ
  pub sdata : ℕ
  pub edata : ℕ
  pub sbss_with_stack : ℕ
  pub ebss : ℕ
  pub ekernel : ℕ
  pub strampoline : ℕ

unfoldable pub push_new : ℕ → ℕ → MapType → ℕ → MemorySet → Run MemorySet
unfolding push
push_new start_va end_va map_type perm m = do
  area ← MapArea.new start_va end_va map_type perm
  (_, m') ← push area none m
  ok m'

unfoldable pub push_mmio : List (ℕ × ℕ) → MemorySet → Run MemorySet
unfolding push_new
push_mmio [] m = ok m
push_mmio ((start, size) ∷ rest) m = do
  m' ← push_new start ((start + size) % usize_mod) identical (bit_or perm_r perm_w) m
  push_mmio rest m'

unfoldable pub new_kernel : Symbols → Kernel → Memory → Run MemorySet
unfolding new_bare map_trampoline push_new push_mmio
new_kernel y k bytes = do
  m0 ← new_bare k bytes
  m1 ← map_trampoline y.strampoline m0
  m2 ← push_new y.stext y.etext identical (bit_or perm_r perm_x) m1
  m3 ← push_new y.srodata y.erodata identical perm_r m2
  m4 ← push_new y.sdata y.edata identical (bit_or perm_r perm_w) m3
  m5 ← push_new y.sbss_with_stack y.ebss identical (bit_or perm_r perm_w) m4
  m6 ← push_new y.ekernel memory_end identical (bit_or perm_r perm_w) m5
  push_mmio mmio m6

-- What the parser finds in an ELF file.
pub record ProgramHeader : Type 0 where
  pub load : Bool
  pub virtual_addr : ℕ
  pub mem_size : ℕ
  pub offset : ℕ
  pub file_size : ℕ
  pub is_read : Bool
  pub is_write : Bool
  pub is_execute : Bool

pub record ElfFile : Type 0 where
  pub magic : List ℕ
  pub headers : List ProgramHeader
  pub entry_point : ℕ

unfoldable pub segment_perm : ProgramHeader → ℕ
segment_perm ph =
    let u = if ph.is_read then bit_or perm_u perm_r else perm_u in
    if ph.is_execute then bit_or u perm_x else if ph.is_write then bit_or u perm_w else u

-- The bytes of a segment; a slice out of range panics.
unfoldable pub segment : List ℕ → ProgramHeader → Run (List ℕ)
segment input ph =
    let end = (ph.offset + ph.file_size) % usize_mod in
    assert (leb ph.offset end)
    >> (assert (leb end (length input)) >> ok (take (end - ph.offset) (drop ph.offset input)))

-- The loop over the program headers; `max_end_vpn` is the end of the last segment.
unfoldable pub load : List ℕ → List ProgramHeader → ℕ → MemorySet → Run (ℕ × MemorySet)
unfolding segment segment_perm push
load input [] max_end_vpn m = ok (max_end_vpn, m)
load input (ph ∷ rest) max_end_vpn m = elim ph.load [
  | false ↦ load input rest max_end_vpn m
  | true ↦
      MapArea.new ph.virtual_addr ((ph.virtual_addr + ph.mem_size) % usize_mod) framed
        (segment_perm ph)
      >>= λ area. segment input ph >>= λ bytes.
          push area (some bytes) m >>= λ r. load input rest area.vpn_range.r r.1
]

abbrev pub elf_magic : List ℕ
elf_magic = 0x7f ∷ 0x45 ∷ 0x4c ∷ 0x46 ∷ []

-- The magic bytes are compared with those of an ELF file.
abbrev pub equal : List ℕ → List ℕ → Bool
equal [] [] = true
equal [] (y ∷ ys) = false
equal (x ∷ xs) [] = false
equal (x ∷ xs) (y ∷ ys) = let rest = equal xs ys in if x == y then rest else false

-- The user stack, behind a guard page, and the page of the trap context.
unfoldable pub push_stack : ℕ → MemorySet → Run (ℕ × MemorySet)
unfolding push_new
push_stack max_end_vpn m = do
  let user_stack_bottom = (addr_of max_end_vpn + page_size) % usize_mod
  let user_stack_top = (user_stack_bottom + user_stack_size) % usize_mod
  m' ← push_new user_stack_bottom user_stack_top framed (bit_or (bit_or perm_r perm_w) perm_u) m
  m'' ← push_new trap_context trampoline framed (bit_or perm_r perm_w) m'
  ok (user_stack_top, m'')

unfoldable pub from_elf :
    (List ℕ → Option ElfFile) → ℕ → List ℕ → Kernel → Memory → Run (MemorySet × ℕ × ℕ)
unfolding new_bare map_trampoline load push_stack
from_elf parse strampoline elf_data k bytes = do
  m0 ← new_bare k bytes
  m1 ← map_trampoline strampoline m0
  elf ← unwrap (parse elf_data)
  assert (equal elf.magic elf_magic)
  (max_end_vpn, m2) ← load elf_data elf.headers 0 m1
  (user_stack_top, m3) ← push_stack max_end_vpn m2
  ok (m3, user_stack_top, elf.entry_point)

-- The bytes of a page of the parent are copied to the page of the child.
unfoldable pub copy_page : PageTable → ℕ → Space → Run Space
copy_page parent vpn s = unwrap (PageTable.translate vpn s.pages.kernel.mem parent) >>= λ src.
    unwrap (PageTable.translate vpn s.pages.kernel.mem s.pages.table) >>= λ dst.
    ok (record s {
      bytes = λ p i. if p == Pte.ppn dst then s.bytes (Pte.ppn src) i else s.bytes p i;
    })

unfoldable pub copy_pages : PageTable → List ℕ → Space → Run Space
unfolding copy_page
copy_pages parent [] s = ok s
copy_pages parent (vpn ∷ rest) s = copy_page parent vpn s >>= λ s'. copy_pages parent rest s'

-- The loop over the areas of the parent, and whether it came to its end.
unfoldable pub copy_areas : PageTable → List MapArea → MemorySet → Run (Bool × MemorySet)
unfolding push copy_pages
copy_areas parent [] m = ok (true, m)
copy_areas parent (area ∷ rest) m = MapArea.from_another area >>= λ new_area.
    push new_area none m >>= λ r. elim (r.0 == minus_one) [
      | true ↦ ok (false, r.1)
      | false ↦ copy_pages parent (vpns area.vpn_range) r.1.space >>= λ s.
          copy_areas parent rest (record r.1 { space = s })
    ]

unfoldable pub recycle_areas : List MapArea → Space → Run Space
unfolding drop_frames
recycle_areas [] s = ok s
recycle_areas (area ∷ rest) s = drop_frames area.data_frames s >>= λ s'. recycle_areas rest s'

unfoldable pub recycle_data_pages : MemorySet → Run MemorySet
unfolding recycle_areas
recycle_data_pages m = recycle_areas m.areas m.space >>= λ s. ok (record { space = s; areas = [] })

-- The trackers of the page table's nodes are dropped in the order of the vector, whose last element
-- `frames` has first.
unfoldable pub drop_nodes : List ℕ → Space → Run Space
drop_nodes [] s = ok s
drop_nodes (f ∷ rest) s = drop_nodes rest s >>= λ s'. drop_frame f s'

-- A memory set is dropped: its fields in the order of their declaration.
unfoldable pub drop_set : MemorySet → Run Space
unfolding drop_nodes recycle_areas
drop_set m = drop_nodes m.space.pages.table.frames m.space >>= λ s. recycle_areas m.areas s

-- The copy of the memory set of a user, which is dropped when there are not enough frames.
unfoldable pub from_existed_user : ℕ → MemorySet → Run (Option MemorySet × Space)
unfolding new_bare map_trampoline copy_areas drop_set
from_existed_user strampoline user_space = do
  let parent = user_space.space.pages.table
  m0 ← new_bare user_space.space.pages.kernel user_space.space.bytes
  m1 ← map_trampoline strampoline m0
  (succ, m2) ← copy_areas parent user_space.areas m1
  elim succ [ true ↦ ok (some m2, m2.space) | false ↦ drop_set m2 >>= λ s. ok (none, s) ]

unfoldable pub translate : ℕ → MemorySet → Option ℕ
translate vpn m = PageTable.translate vpn m.space.pages.kernel.mem m.space.pages.table
