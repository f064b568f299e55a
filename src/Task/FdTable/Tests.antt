-- ===== src/Task/FdTable/Tests.antt =====
-- A table with descriptor 1 free.
use r_corev.Prelude.{◌+◌, ◌-◌, ◌*◌, ok, panic, ℕ, ◌<◌, ◌≡◌, ◌≢◌, refl, none, some, [], ◌∷◌}
use r_corev.Config.{page_size}
use r_corev.Mm.Frame.{Memory}
use r_corev.Mm.Address
use r_corev.Mm.Pte
use r_corev.Mm.PageTable
use r_corev.Mm.PageTable.Sample.{entries}
use r_corev.Mm.Access
use r_corev.Task.FdTable.{write_fds, FdTable, entry, alloc_fd, find_free, sys_dup, sys_pipe}
use r_corev.Task.FdTable.Calls.{Sets, sys_dup_lem}

abbrev table : FdTable ℕ
table = some 10 ∷ none ∷ some 12 ∷ []

sys_dup_lem_example :
    (fd : ℕ) × (t : FdTable ℕ) × (sys_dup 2 table ≡ (fd, t))
    × (entry table fd ≡ none)
    × ((i : ℕ) → i < fd → entry table i ≢ none)
    × Sets fd (some 12) table t
sys_dup_lem_example = sys_dup_lem 2 12 table refl

abbrev zeros : Memory
zeros f i = 0

-- The descriptors 1 and 3 get the ends, and their numbers are at bytes 8 and 16 of frame 80.
pipe_gives_1_and_3 :
    sys_pipe 16 (5 * page_size + 8) entries (20, 21) table zeros
    ≡ ok (
      0,
      some 10 ∷ some 20 ∷ some 12 ∷ some 21 ∷ [],
      Access.store 8 (80 * page_size + 16) 3 (Access.store 8 (80 * page_size + 8) 1 zeros),
    )
unfolding sys_pipe write_fds alloc_fd find_free Access.virtual_addr_writable
    Access.translated_refmut Access.translated_virtual_ptr PageTable.from_token
    PageTable.translate_pte PageTable.translate PageTable.find_pte PageTable.find_loop
    Address.indexes Address.floor Pte.is_valid Pte.has_flag Pte.flags Pte.ppn Pte.readable
    Pte.writable PageTable.translate_va Address.page_offset Address.addr_of
pipe_gives_1_and_3 = refl

-- An array that begins in the last eight bytes of the page stops the kernel.
pipe_across_pages : sys_pipe 16 (6 * page_size - 8) entries (20, 21) table zeros ≡ panic
unfolding sys_pipe write_fds alloc_fd find_free Access.virtual_addr_writable
    Access.translated_refmut Access.translated_virtual_ptr PageTable.from_token
    PageTable.translate_pte PageTable.translate PageTable.find_pte PageTable.find_loop
    Address.indexes Address.floor Pte.is_valid Pte.has_flag Pte.flags Pte.ppn Pte.readable
    Pte.writable PageTable.translate_va Address.page_offset Address.addr_of
pipe_across_pages = refl
