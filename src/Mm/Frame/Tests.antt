-- ===== src/Mm/Frame/Tests.antt =====
-- The allocator of frames on the frames 16 to 19.
use r_corev.Prelude.{◌+◌, ◌≡◌, [], ◌∷◌, length, arith, ok}
use r_corev.Mm.Frame.{StackFrameAllocator, Memory, new, init, alloc, usable_frames}
use r_corev.Mm.Frame.Ownership.{Owns, init-Owns, alloc-Owns, allocs, drops, State, run, run-Owns}

abbrev start : StackFrameAllocator
start = record { current = 16; end = 20; recycled = [] }

abbrev one_out : StackFrameAllocator
one_out = record { current = 17; end = 20; recycled = [] }

start-Owns : Owns 16 start []
unfolding init new
start-Owns = init-Owns 16 20 (omega arith)

one_out-Owns : Owns 16 one_out (16 ∷ [])
unfolding alloc
one_out-Owns = (alloc-Owns 16 start [] start-Owns).3

abbrev ones : Memory
ones p i = 1

abbrev busy : State
busy = record { allocator = one_out; memory = ones; held = 16 ∷ [] }

run-Owns_example :
    (s' : State) × (run (allocs ∷ drops 1 ∷ allocs ∷ []) busy ≡ ok s')
    × Owns 16 s'.allocator s'.held
    × (usable_frames s'.allocator + length s'.held ≡ 4)
run-Owns_example = run-Owns 16 (allocs ∷ drops 1 ∷ allocs ∷ []) busy one_out-Owns
