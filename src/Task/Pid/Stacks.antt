-- ===== src/Task/Pid/Stacks.antt =====
-- Kernel stacks do not overlap.
use r_corev.Prelude.{ℕ, ◌+◌, ◌-◌, ◌*◌, ◌^◌, ◌≤◌, ◌<◌, ◌≡◌, arith}
use r_corev.Config.{page_size, trampoline, kernel_stack_size}
use r_corev.Task.Pid.{kernel_stack_position}

-- Up to this many stacks fit below the trampoline.
abbrev pub max_stacks : ℕ
max_stacks = 2 ^ 50

position :
    (p : ℕ)
    → p < max_stacks
    → (kernel_stack_position p).1 ≡ trampoline - p * (kernel_stack_size + page_size)
      × (kernel_stack_position p).0 + kernel_stack_size ≡ (kernel_stack_position p).1
unfolding kernel_stack_position
position p h = (omega arith, omega arith)

-- Of two different processes with identifiers below 2 ^ 50 the kernel stacks lie in order below the trampoline: the one of the
-- larger identifier is lower, both have the full size, and a page that belongs to no stack is between
-- them.
pub stacks_apart :
    (p q : ℕ)
    → p < q
    → q < max_stacks
    → ((kernel_stack_position p).1 ≤ trampoline)
      × ((kernel_stack_position p).0 + kernel_stack_size ≡ (kernel_stack_position p).1)
      × ((kernel_stack_position q).0 + kernel_stack_size ≡ (kernel_stack_position q).1)
      × ((kernel_stack_position q).1 + page_size ≤ (kernel_stack_position p).0)
stacks_apart p q l h =
    let (tp, bp) = position p (omega arith) in
    let (tq, bq) = position q h in (omega (arith, tp), bp, bq, omega (arith, tp, tq, bp))
