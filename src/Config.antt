-- ===== src/Config.antt =====
-- os/src/config.rs. `usize` has 64 bits.
use r_corev.Prelude.{List, [], ◌∷◌, ℕ, ◌-◌, ◌+◌, ◌^◌, ◌*◌}

abbrev pub usize_mod : ℕ
usize_mod = 2 ^ 64

abbrev pub kernel_stack_size : ℕ
kernel_stack_size = 4096 * 2

abbrev pub memory_end : ℕ
memory_end = 0x80c0_0000

abbrev pub page_size : ℕ
page_size = 0x1000

abbrev pub page_size_bits : ℕ
page_size_bits = 0xc

abbrev pub trampoline : ℕ
trampoline = usize_mod - 1 - page_size + 1

abbrev pub trap_context : ℕ
trap_context = trampoline - page_size

abbrev pub big_stride : ℕ
big_stride = 0x7FFF_FFFF

abbrev pub task_init_priority : ℕ
task_init_priority = 16

abbrev pub user_stack_size : ℕ
user_stack_size = 4096

abbrev pub mmio : List (ℕ × ℕ)
mmio = (0x1000_0000, 0x1_0000) ∷ []

-- The `isize` number −1.
abbrev pub minus_one : ℕ
minus_one = usize_mod - 1
