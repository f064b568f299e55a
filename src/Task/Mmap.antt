-- ===== src/Task/Mmap.antt =====
-- `map_virtual_pages` and `unmap_virtual_pages` of os/src/task/mod.rs, which `sys_mmap` and
-- `sys_munmap` call, on the memory set of the running task.
pub mod Refused
mod Tests
use r_corev.Prelude.{
  ℕ, ◌+◌, ◌-◌, ◌*◌, ◌/◌, ◌%◌, ◌^◌, Bool, true, false, not, List, [], ◌∷◌, none, bit_and, bit_or,
  leb, ltb, ◌==◌, ◌&&◌, ◌||◌, if◌then◌else◌, Run, ok, ◌>>=◌,
}
use r_corev.Config.{usize_mod, page_size, minus_one}
use r_corev.Mm.Address
use r_corev.Mm.Address.{SimpleRange, floor, ceil, addr_of}
use r_corev.Mm.Frame.{usable_frames}
use r_corev.Mm.MapArea
use r_corev.Mm.MapArea.{MapArea, framed, vpns, perm_r, perm_w, perm_x, perm_u}
use r_corev.Mm.MemorySet
use r_corev.Mm.MemorySet.{MemorySet, have_mapped}

unfoldable pub port_to_permission : ℕ → ℕ
port_to_permission port =
    let r = if bit_and port 1 == 0 then perm_u else bit_or perm_u perm_r in
    let w = if bit_and port 2 == 0 then r else bit_or r perm_w in
    if bit_and port 4 == 0 then w else bit_or w perm_x

unfoldable pub any_mapped : List ℕ → MemorySet → Bool
any_mapped [] m = false
any_mapped (vpn ∷ rest) m = have_mapped vpn m || any_mapped rest m

-- The size of the range in bytes; addresses wrap around.
abbrev pub size : SimpleRange → ℕ
size g = (usize_mod + addr_of g.r - addr_of g.l) % usize_mod

-- A page that an area has stops the call.
unfoldable pub map_area : MapArea → MemorySet → Run (ℕ × MemorySet)
unfolding any_mapped
map_area area m =
    if any_mapped (vpns area.vpn_range) m
    then ok (minus_one, m)
    else MemorySet.push area none m >>= λ r.
        ok (if leb (2 ^ 63) r.0 then minus_one else size area.vpn_range, r.1)

abbrev pub misaligned : ℕ → ℕ → Bool
misaligned addr len = not (bit_and addr (page_size - 1) == 0) || ltb 0x4000_0000 len

-- Bits above the lowest three, or none of these.
abbrev pub bad_port : ℕ → Bool
bad_port port = not (bit_and port (usize_mod - 1 - 7) == 0) || bit_and port 7 == 0

abbrev pub too_few : ℕ → ℕ → MemorySet → Bool
too_few len init_frames m =
    ltb (usable_frames m.space.pages.kernel.allocator)
      ((len / 4096 + 100 + init_frames) % usize_mod)

-- `init_frames` is what `INITPROC.frames_used()` returns.
unfoldable pub map_virtual_pages : ℕ → ℕ → ℕ → ℕ → MemorySet → Run (ℕ × MemorySet)
unfolding map_area
map_virtual_pages addr len port init_frames m =
    if misaligned addr len || bad_port port
    then ok (minus_one, m)
    else (if len == 0
        then ok (0, m)
        else (if too_few len init_frames m
            then ok (minus_one, m)
            else MapArea.new addr ((addr + len) % usize_mod) framed (port_to_permission port)
              >>= λ area. map_area area m))

unfoldable pub all_mapped : List ℕ → MemorySet → Bool
all_mapped [] m = true
all_mapped (vpn ∷ rest) m = have_mapped vpn m && all_mapped rest m

-- A page that no area has stops the call.
unfoldable pub unmap_range : SimpleRange → MemorySet → Run (ℕ × MemorySet)
unfolding all_mapped
unmap_range g m =
    if all_mapped (vpns g) m
    then (MemorySet.unmap g m >>= λ m'. ok (size g, m'))
    else ok (minus_one, m)

unfoldable pub unmap_virtual_pages : ℕ → ℕ → MemorySet → Run (ℕ × MemorySet)
unfolding unmap_range
unmap_virtual_pages addr len m =
    if misaligned addr len
    then ok (minus_one, m)
    else (if len == 0
        then ok (0, m)
        else Address.new (floor addr) (ceil ((addr + len) % usize_mod)) >>= λ g. unmap_range g m)
