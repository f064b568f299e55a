-- ===== src/Task/Pid.antt =====
-- os/src/task/pid.rs: process identifiers, and where kernel stacks lie. The head of the list
-- `recycled` is the back of the vector. A `PidHandle` is its number; it is given back when dropped.
pub mod Live
pub mod Stacks
mod Tests
use r_corev.Prelude.{
  ℕ, ◌+◌, ◌-◌, ◌*◌, ◌%◌, Bool, true, false, not, Option, none, some, List, [], ◌∷◌, ltb, ◌==◌,
  if◌then◌else◌, find_eq, Run, ok, panic, ◌>>=◌, ◌>>◌, assert,
}
use r_corev.Config.{usize_mod, page_size, trampoline, kernel_stack_size}

pub record PidAllocator : Type 0 where
  pub current : ℕ
  pub recycled : List ℕ

unfoldable pub new : PidAllocator
new = record { current = 0; recycled = [] }

-- `current += 1` and `current - 1` in 64 bits.
unfoldable pub alloc : PidAllocator → ℕ × PidAllocator
alloc a = elim a.recycled [
  | pid ∷ rest ↦ (pid, record a { recycled = rest })
  | [] ↦
      let current = (a.current + 1) % usize_mod in
      ((current + usize_mod - 1) % usize_mod, record a { current = current })
]

abbrev pub is_none {ℓ} : {A : Type ℓ} → Option A → Bool
is_none none = true
is_none (some _) = false

unfoldable pub dealloc : ℕ → PidAllocator → Run PidAllocator
dealloc pid a = do
  assert (ltb pid a.current)
  assert (is_none (find_eq pid a.recycled))
  ok (record a { recycled = pid ∷ a.recycled })

-- The addresses of the bottom and the top, in 64 bits.
unfoldable pub kernel_stack_position : ℕ → ℕ × ℕ
kernel_stack_position app_id =
    let top =
      (trampoline + usize_mod - app_id * (kernel_stack_size + page_size) % usize_mod) % usize_mod in
    ((top + usize_mod - kernel_stack_size) % usize_mod, top)
