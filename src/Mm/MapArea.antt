-- ===== src/Mm/MapArea.antt =====
-- `MapArea` of os/src/mm/memory_set.rs. A space is a page table with the kernel's state and the bytes
-- of the frames that are not its nodes. A `BTreeMap` is the list of its pairs in the order of the keys.
-- When a tracker is dropped, its frame is given back.
pub mod Frames
pub mod Added
pub mod Mapping
pub mod Copying
pub mod Exhausted
mod Tests
use r_corev.Prelude.{
  ℕ, zero, suc, ◌+◌, ◌-◌, ◌*◌, ◌/◌, ◌%◌, Bool, true, false, ◌&&◌, Option, none, some, List, [], ◌∷◌,
  length, take, drop, get_or, leb, ltb, ◌==◌, min, if◌then◌else◌, Run, ok, panic, ◌>>=◌, ◌>>◌,
  assert, unwrap,
}
use r_corev.Config.{usize_mod, page_size, minus_one}
use r_corev.Mm.Address
use r_corev.Mm.Address.{SimpleRange, floor, ceil}
use r_corev.Mm.Address.Pages.{range}
use r_corev.Mm.Frame
use r_corev.Mm.Frame.{Memory, StackFrameAllocator}
use r_corev.Mm.Pte
use r_corev.Mm.PageTable
use r_corev.Mm.PageTable.{State}

pub data MapType : Type 0 where
  identical framed : MapType

-- The bits of `MapPermission`.
abbrev pub perm_r : ℕ
perm_r = 2

abbrev pub perm_w : ℕ
perm_w = 4

abbrev pub perm_x : ℕ
perm_x = 8

abbrev pub perm_u : ℕ
perm_u = 16

pub record MapArea : Type 0 where
  pub vpn_range : SimpleRange
  pub data_frames : List (ℕ × ℕ)
  pub map_type : MapType
  pub map_perm : ℕ

pub record Space : Type 0 where
  pub pages : State
  pub bytes : Memory

-- `BTreeMap::insert` gives back the value that was there.
abbrev pub insert : ℕ → ℕ → List (ℕ × ℕ) → Option ℕ × List (ℕ × ℕ)
insert k v [] = (none, (k, v) ∷ [])
insert k v ((k', v') ∷ m) =
    let (old, m') = insert k v m in
    if ltb k k'
    then (none, (k, v) ∷ (k', v') ∷ m)
    else if k == k'
    then (some v', (k, v) ∷ m)
    else (old, (k', v') ∷ m')

abbrev pub remove : ℕ → List (ℕ × ℕ) → Option ℕ × List (ℕ × ℕ)
remove k [] = (none, [])
remove k ((k', v') ∷ m) =
    let (old, m') = remove k m in if k == k' then (some v', m) else (old, (k', v') ∷ m')

abbrev pub contains_key : ℕ → List (ℕ × ℕ) → Bool
contains_key k [] = false
contains_key k ((k', v') ∷ m) = let rest = contains_key k m in if k == k' then true else rest

unfoldable pub new : ℕ → ℕ → MapType → ℕ → Run MapArea
new start_va end_va map_type map_perm = Address.new (floor start_va) (ceil end_va) >>= λ vpn_range.
    ok
      (record { vpn_range = vpn_range; data_frames = []; map_type = map_type; map_perm = map_perm })

unfoldable pub from_another : MapArea → Run MapArea
from_another another = Address.new another.vpn_range.l another.vpn_range.r >>= λ vpn_range.
    ok (record another { vpn_range = vpn_range; data_frames = [] })

-- The frame that the allocator hands out comes cleaned.
abbrev pub with_frame : Space → Option ℕ × StackFrameAllocator → Option ℕ × Space
with_frame s (none, a) = (none, s)
with_frame s (some ppn, a) = (
  some ppn,
  record {
    pages = record s.pages {
      kernel = record { allocator = a; mem = PageTable.clean s.pages.kernel.mem ppn };
    };
    bytes = Frame.clean s.bytes ppn;
  },
)

unfoldable pub frame_alloc : Space → Option ℕ × Space
frame_alloc s = with_frame s (Frame.alloc s.pages.kernel.allocator)

-- A tracker is dropped.
unfoldable pub drop_frame : ℕ → Space → Run Space
drop_frame ppn s = Frame.dealloc s.pages.kernel.allocator ppn >>= λ a.
    ok (record s { pages = record s.pages { kernel = record s.pages.kernel { allocator = a } } })

unfoldable pub drop_old : Option ℕ → Space → Run Space
unfolding drop_frame
drop_old none s = ok s
drop_old (some ppn) s = drop_frame ppn s

-- What an operation returns, with the area and the space it leaves.
pub record Mapped : Type 0 where
  pub status : ℕ
  pub area : MapArea
  pub space : Space

-- The entry of a page; all bits of a `MapPermission` are flags of an entry.
unfoldable pub map_page : ℕ → ℕ → MapArea → Space → Run Mapped
map_page vpn ppn area s = PageTable.map vpn ppn area.map_perm s.pages >>= λ p.
    ok (record { status = 0; area = area; space = record s { pages = p } })

-- The frame is recorded for the page, then the page is mapped to it; `frame_alloc` may give none.
unfoldable pub map_framed : ℕ → MapArea → Option ℕ × Space → Run Mapped
unfolding drop_old map_page
map_framed vpn area (none, s) = ok (record { status = minus_one; area = area; space = s })
map_framed vpn area (some ppn, s) =
    let (old, frames) = insert vpn ppn area.data_frames in
    drop_old old s >>= λ s'. map_page vpn ppn (record area { data_frames = frames }) s'

unfoldable pub map_one : ℕ → MapArea → Space → Run Mapped
unfolding frame_alloc map_framed
map_one vpn area s = elim area.map_type [
  | identical ↦ map_page vpn vpn area s
  | framed ↦ map_framed vpn area (frame_alloc s)
]

-- What `unmap_one` does with the frame of the page.
unfoldable pub release : ℕ → MapArea → Space → Run (MapArea × Space)
unfolding drop_old
release vpn area s = elim area.map_type [
  | identical ↦ ok (area, s)
  | framed ↦
      let (old, frames) = remove vpn area.data_frames in
      drop_old old s >>= λ s1. ok (record area { data_frames = frames }, s1)
]

unfoldable pub unmap_one : ℕ → MapArea → Space → Run (MapArea × Space)
unfolding release
unmap_one vpn area s = do
  (area', s1) ← release vpn area s
  p ← PageTable.unmap vpn s1.pages
  ok (area', record s1 { pages = p })

-- The pages that `for vpn in self.vpn_range` visits.
abbrev pub vpns : SimpleRange → List ℕ
vpns g = range g.l (g.r - g.l)

unfoldable pub map_loop : List ℕ → MapArea → Space → Run Mapped
unfolding map_one
map_loop [] area s = ok (record { status = 0; area = area; space = s })
map_loop (vpn ∷ rest) area s = map_one vpn area s >>= λ r. elim (r.status == minus_one) [
  | true ↦ ok r
  | false ↦ map_loop rest r.area r.space
]

unfoldable pub map : MapArea → Space → Run Mapped
unfolding map_loop
map area s = map_loop (vpns area.vpn_range) area s

unfoldable pub unmap_loop : List ℕ → MapArea → Space → Run (MapArea × Space)
unfolding unmap_one
unmap_loop [] area s = ok (area, s)
unmap_loop (vpn ∷ rest) area s = unmap_one vpn area s >>= λ r. unmap_loop rest r.0 r.1

unfoldable pub unmap : MapArea → Space → Run (MapArea × Space)
unfolding unmap_loop
unmap area s = unmap_loop (vpns area.vpn_range) area s

unfoldable pub have_mapped : ℕ → MapArea → Bool
have_mapped vpn area = contains_key vpn area.data_frames

abbrev pub is_framed : MapType → Bool
is_framed identical = false
is_framed framed = true

-- The bytes from the start of a frame on become those of `src`.
abbrev pub write_frame : Memory → ℕ → List ℕ → Memory
write_frame bytes ppn src p i =
    if (p == ppn) && ltb i (length src) then get_or src i 0 else bytes p i

-- The loop of `copy_data`: without fuel it stops, which the fuel that is given excludes.
unfoldable pub copy_loop : ℕ → ℕ → ℕ → List ℕ → Space → Run Space
copy_loop zero start vpn data_ s = panic
copy_loop (suc fuel) start vpn data_ s =
    assert (leb start (length data_))
    >> (let src = take (min (length data_) (start + page_size) - start) (drop start data_) in
        unwrap (PageTable.translate vpn s.pages.kernel.mem s.pages.table) >>= λ pte.
        (let s' = record s { bytes = write_frame s.bytes (Pte.ppn pte) src } in
          elim (leb (length data_) (start + page_size)) [
            | true ↦ ok s'
            | false ↦ copy_loop fuel (start + page_size) ((vpn + 1) % usize_mod) data_ s'
          ]))

unfoldable pub copy_data : List ℕ → MapArea → Space → Run Space
unfolding copy_loop
copy_data data_ area s =
    assert (is_framed area.map_type) >> copy_loop (length data_ + 1) 0 area.vpn_range.l data_ s
