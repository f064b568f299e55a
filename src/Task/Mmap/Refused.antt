-- ===== src/Task/Mmap/Refused.antt =====
-- Calls that are refused change nothing (os/src/task/mod.rs).
use r_corev.Prelude.{
  ℕ, zero, suc, ◌+◌, ◌-◌, ◌%◌, ◌≤◌, ◌<◌, Bool, true, false, ◌&&◌, ◌||◌, ◌==◌, leb, if◌then◌else◌,
  Run, ok, ◌≡◌, ◌≢◌, refl, arith, le→leb, ◌⊎◌, inl, inr,
}
use r_corev.Config.{usize_mod, page_size, minus_one}
use r_corev.Mm.Address
use r_corev.Mm.Address.{floor, ceil}
use r_corev.Mm.Address.Pages.{range}
use r_corev.Mm.MapArea
use r_corev.Mm.MemorySet.{MemorySet, have_mapped}
use r_corev.Task.Mmap.{
  any_mapped, map_area, map_virtual_pages, all_mapped, unmap_range, unmap_virtual_pages, misaligned,
  bad_port, too_few,
}

head_or_later : (lo vpn : ℕ) → lo ≤ vpn → (lo ≡ vpn) ⊎ (lo + 1 ≤ vpn)
head_or_later lo vpn a = ground arith

or_true : (a : Bool) {b : Bool} → b ≡ true → (a || b) ≡ true
or_true true e = refl
or_true false e = e

and_false : (a : Bool) {b : Bool} → b ≡ false → (a && b) ≡ false
and_false true e = e
and_false false e = refl

any_range :
    (n lo vpn : ℕ) (m : MemorySet)
    → lo ≤ vpn
    → vpn < lo + n
    → have_mapped vpn m ≡ true
    → any_mapped (range lo n) m ≡ true
unfolding any_mapped
any_range zero lo vpn m a b h = ground arith
any_range (suc n) lo vpn m a b h = elim (head_or_later lo vpn a) [
  | inl e ↦ rw e (rw h refl)
  | inr l ↦
      let r : any_mapped (range (lo + 1) n) m ≡ true =
        any_range n (lo + 1) vpn m l (omega arith) h in
      or_true (have_mapped lo m) r
]

all_range :
    (n lo vpn : ℕ) (m : MemorySet)
    → lo ≤ vpn
    → vpn < lo + n
    → have_mapped vpn m ≡ false
    → all_mapped (range lo n) m ≡ false
unfolding all_mapped
all_range zero lo vpn m a b h = ground arith
all_range (suc n) lo vpn m a b h = elim (head_or_later lo vpn a) [
  | inl e ↦ rw e (rw h refl)
  | inr l ↦
      let r : all_mapped (range (lo + 1) n) m ≡ false =
        all_range n (lo + 1) vpn m l (omega arith) h in
      and_false (have_mapped lo m) r
]

-- Whichever guard stops the call, the value is -1.
refused :
    (b z t : Bool) (m : MemorySet) (x : Run (ℕ × MemorySet))
    → z ≡ false
    → x ≡ ok (minus_one, m)
    → (if b
        then ok (minus_one, m)
        else (if z then ok (0, m) else (if t then ok (minus_one, m) else x)))
      ≡ ok (minus_one, m)
refused true z t m x e h = refl
refused false true t m x e h = cc
refused false false true m x e h = refl
refused false false false m x e h = h

range_ordered :
    (addr len : ℕ)
    → addr + len + page_size ≤ usize_mod
    → floor addr ≤ ceil ((addr + len) % usize_mod)
unfolding floor ceil
range_ordered addr len h = omega arith

nonzero : (len : ℕ) → len ≢ 0 → (len == 0) ≡ false
nonzero len n = ground arith

-- A mapping of a range that is not empty and does not reach the last page of the address space, in
-- which some page is mapped already, returns -1 and changes nothing, whatever the other arguments.
pub map_virtual_pages_taken :
    (addr len port init_frames vpn : ℕ) (m : MemorySet)
    → len ≢ 0
    → addr + len + page_size ≤ usize_mod
    → floor addr ≤ vpn
    → vpn < ceil ((addr + len) % usize_mod)
    → have_mapped vpn m ≡ true
    → map_virtual_pages addr len port init_frames m ≡ ok (minus_one, m)
unfolding map_virtual_pages map_area MapArea.new Address.new
map_virtual_pages_taken addr len port init_frames vpn m n w a b h =
    let o : leb (floor addr) (ceil ((addr + len) % usize_mod)) ≡ true =
      le→leb _ _ (range_ordered addr len w) in
    let r : any_mapped (range (floor addr) (ceil ((addr + len) % usize_mod) - floor addr)) m
        ≡ true =
      any_range _ (floor addr) vpn m a (omega arith) h in
    refused (misaligned addr len || bad_port port) (len == 0) (too_few len init_frames m) m _
      (nonzero len n) (rw o (rw r refl))

-- An unmapping of a range that is not empty and does not reach the last page of the address space, in
-- which some page is not mapped, returns -1 and changes nothing.
pub unmap_virtual_pages_hole :
    (addr len vpn : ℕ) (m : MemorySet)
    → len ≢ 0
    → addr + len + page_size ≤ usize_mod
    → floor addr ≤ vpn
    → vpn < ceil ((addr + len) % usize_mod)
    → have_mapped vpn m ≡ false
    → unmap_virtual_pages addr len m ≡ ok (minus_one, m)
unfolding unmap_virtual_pages unmap_range Address.new
unmap_virtual_pages_hole addr len vpn m n w a b h =
    let o : leb (floor addr) (ceil ((addr + len) % usize_mod)) ≡ true =
      le→leb _ _ (range_ordered addr len w) in
    let r : all_mapped (range (floor addr) (ceil ((addr + len) % usize_mod) - floor addr)) m
        ≡ false =
      all_range _ (floor addr) vpn m a (omega arith) h in
    refused (misaligned addr len) (len == 0) false m _ (nonzero len n) (rw o (rw r refl))
