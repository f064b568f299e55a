-- ===== src/Mm/MapArea/Exhausted.antt =====
-- Mapping without a usable frame.
use r_corev.Prelude.{
  ℕ, suc, ◌-◌, ◌≤◌, ◌<◌, ◌≡◌, refl, ap, ◌∙◌, true, none, List, [], ◌∷◌, ◌==◌, ok, arith,
}
use r_corev.Config.{minus_one}
use r_corev.Mm.Frame
use r_corev.Mm.Frame.{StackFrameAllocator, usable_frames}
use r_corev.Mm.MapArea.{
  identical, framed, MapArea, Space, with_frame, frame_alloc, map_page, map_framed, map_one,
  map_loop, map,
}

alloc_parts :
    (current end : ℕ) (recycled : List ℕ)
    → current ≤ end
    → usable_frames (record { current = current; end = end; recycled = recycled }) ≡ 0
    → Frame.alloc (record { current = current; end = end; recycled = recycled })
      ≡ (none, record { current = current; end = end; recycled = recycled })
unfolding Frame.alloc usable_frames
alloc_parts current end [] h u = let same : (current == end) ≡ true = ground arith in rw same refl
alloc_parts current end (p ∷ rest) h u = absurd (omega arith)

alloc_exhausted :
    (a : StackFrameAllocator) → a.current ≤ a.end → usable_frames a ≡ 0 → Frame.alloc a ≡ (none, a)
alloc_exhausted a h u = alloc_parts a.current a.end a.recycled h u

map_one_exhausted :
    (vpn : ℕ) (area : MapArea) (s : Space)
    → area.map_type ≡ framed
    → s.pages.kernel.allocator.current ≤ s.pages.kernel.allocator.end
    → usable_frames s.pages.kernel.allocator ≡ 0
    → map_one vpn area s ≡ ok (record { status = minus_one; area = area; space = s })
unfolding map_one map_framed frame_alloc
map_one_exhausted vpn area s k h u =
    ap
      (λ t. elim t [
        | identical ↦ map_page vpn vpn area s
        | framed ↦ map_framed vpn area (frame_alloc s)
      ])
      k
    ∙ ap (λ r. map_framed vpn area (with_frame s r)) (alloc_exhausted s.pages.kernel.allocator h u)

-- Without a usable frame, mapping a framed area of at least one page returns -1 and changes nothing.
pub map_exhausted :
    (area : MapArea) (s : Space)
    → area.map_type ≡ framed
    → area.vpn_range.l < area.vpn_range.r
    → s.pages.kernel.allocator.current ≤ s.pages.kernel.allocator.end
    → usable_frames s.pages.kernel.allocator ≡ 0
    → map area s ≡ ok (record { status = minus_one; area = area; space = s })
unfolding map map_loop
map_exhausted area s k l h u =
    let n = area.vpn_range.r - area.vpn_range.l - 1 in
    let size : area.vpn_range.r - area.vpn_range.l ≡ suc n = omega arith in
    rw (size, map_one_exhausted area.vpn_range.l area s k h u) refl
