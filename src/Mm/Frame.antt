-- ===== src/Mm/Frame.antt =====
-- os/src/mm/frame_allocator.rs: physical page frames. The head of the list `recycled` is the back
-- of the vector. Physical memory gives the byte at an offset of a frame.
pub mod Ownership
mod Tests
use r_corev.Prelude.{
  ℕ, ◌+◌, ◌-◌, ◌≡◌, refl, Bool, true, false, ◌||◌, Option, none, some, List, [], ◌∷◌, length, leb,
  ltb, ◌==◌, if◌then◌else◌, find_eq, Run, ok, panic,
}
use r_corev.Config.{page_size}

pub record StackFrameAllocator : Type 0 where
  pub current : ℕ
  pub end : ℕ
  pub recycled : List ℕ

unfoldable pub new : StackFrameAllocator
new = record { current = 0; end = 0; recycled = [] }

unfoldable pub init : StackFrameAllocator → ℕ → ℕ → StackFrameAllocator
init a l r = record a { current = l; end = r }

unfoldable pub usable_frames : StackFrameAllocator → ℕ
usable_frames a = a.end - a.current + length a.recycled

unfoldable pub alloc : StackFrameAllocator → Option ℕ × StackFrameAllocator
alloc a = elim a.recycled [
  | ppn ∷ rest ↦ (some ppn, record a { recycled = rest })
  | [] ↦
      if a.current == a.end
      then (none, a)
      else (some (a.current + 1 - 1), record a { current = a.current + 1 })
]

abbrev pub is_some {ℓ} : {A : Type ℓ} → Option A → Bool
is_some none = false
is_some (some _) = true

unfoldable pub dealloc : StackFrameAllocator → ℕ → Run StackFrameAllocator
dealloc a ppn =
    if leb a.current ppn || is_some (find_eq ppn a.recycled)
    then panic
    else ok (record a { recycled = ppn ∷ a.recycled })

abbrev pub Memory : Type 0
Memory = ℕ → ℕ → ℕ

-- `FrameTracker::new`: the bytes of the frame are set to 0.
unfoldable pub clean : Memory → ℕ → Memory
clean mem ppn p i = if p == ppn then (if ltb i page_size then 0 else mem p i) else mem p i

-- `frame_alloc`: the tracker is the number of its frame.
unfoldable pub frame_alloc : StackFrameAllocator → Memory → Option ℕ × StackFrameAllocator × Memory
unfolding alloc clean
frame_alloc a mem = let (found, a') = alloc a in (found, a', cleaned found)
  where
    cleaned : Option ℕ → Memory
    cleaned none = mem
    cleaned (some ppn) = clean mem ppn
