-- ===== src/Task/Pid/Tests.antt =====
-- Identifiers and stacks of two processes.
use r_corev.Prelude.{ℕ, ◌+◌, ◌≤◌, ◌≡◌, [], ◌∷◌, count, arith, ok}
use r_corev.Config.{page_size, trampoline, kernel_stack_size}
use r_corev.Task.Pid.{new, kernel_stack_position}
use r_corev.Task.Pid.Live.{starts, ends, State, run, live_distinct}
use r_corev.Task.Pid.Stacks.{stacks_apart}

live_distinct_example :
    (s : State) × (run
        (starts ∷ starts ∷ ends 0 ∷ starts ∷ [])
        (record { allocator = new; live = [] })
      ≡ ok s)
    × ((p : ℕ) → count p s.live ≤ 1)
live_distinct_example = live_distinct (starts ∷ starts ∷ ends 0 ∷ starts ∷ []) (omega arith)

stacks_apart_example :
    ((kernel_stack_position 1).1 ≤ trampoline)
    × ((kernel_stack_position 1).0 + kernel_stack_size ≡ (kernel_stack_position 1).1)
    × ((kernel_stack_position 2).0 + kernel_stack_size ≡ (kernel_stack_position 2).1)
    × ((kernel_stack_position 2).1 + page_size ≤ (kernel_stack_position 1).0)
stacks_apart_example = stacks_apart 1 2 (omega arith) (omega arith)
