-- ===== src/Mm/Access.antt =====
-- Access to the memory of a user program, os/src/mm/page_table.rs: the tests of an address before
-- the kernel uses it, and the physical address behind a pointer.
use r_corev.Prelude.{
  ◌-◌, ◌*◌, ◌/◌, ◌^◌, ltb, ◌==◌, ◌>>◌, assert, ℕ, ◌+◌, ◌%◌, Bool, false, not, Option, none, some,
  leb, ◌&&◌, if◌then◌else◌, Run, ok, ◌>>=◌, unwrap,
}
use r_corev.Config.{usize_mod, page_size, trap_context}
use r_corev.Mm.Frame.{Memory}
use r_corev.Mm.Pte
use r_corev.Mm.PageTable
use r_corev.Mm.PageTable.{Entries}

unfoldable pub virtual_addr_printable : ℕ → ℕ → Entries → Run (Bool × ℕ)
virtual_addr_printable token va mem =
    let t = PageTable.from_token token in
    elim (PageTable.translate_pte va mem t) [
      | none ↦ ok (false, 0)
      | some pte ↦ unwrap (PageTable.translate_va va mem t) >>= λ pa.
          ok (Pte.is_valid pte && (Pte.readable pte && not (Pte.executable pte)), pa)
    ]

abbrev valid_writable : Option ℕ → Bool
valid_writable none = false
valid_writable (some pte) = Pte.is_valid pte && Pte.readable pte && Pte.writable pte

unfoldable pub virtual_addr_writable : ℕ → ℕ → Entries → Bool
virtual_addr_writable token va mem =
    if leb trap_context va
    then false
    else valid_writable (PageTable.translate_pte va mem (PageTable.from_token token))

-- The sum wraps around as the release build does it.
unfoldable pub virtual_addr_range_printable : ℕ → ℕ → ℕ → Entries → Run (Bool × ℕ × ℕ)
unfolding virtual_addr_printable
virtual_addr_range_printable token ptr len mem = do
  (start_printable, start_pa) ← virtual_addr_printable token ptr mem
  (end_printable, end_pa) ← virtual_addr_printable token ((ptr + len) % usize_mod) mem
  ok (start_printable && end_printable, start_pa, end_pa)

unfoldable pub virtual_addr_range_writable : ℕ → ℕ → ℕ → Entries → Bool
virtual_addr_range_writable token ptr len mem =
    virtual_addr_writable token ptr mem && virtual_addr_writable token ((ptr + len) % usize_mod) mem

-- The physical address of a pointer.
unfoldable pub translated_virtual_ptr : ℕ → ℕ → Entries → Run ℕ
translated_virtual_ptr token v_ptr mem =
    unwrap (PageTable.translate_va v_ptr mem (PageTable.from_token token))

-- `translated_refmut`: the address that a reference to the user's value has; a page that is not mapped
-- and address 0, which no reference has, panic.
unfoldable pub translated_refmut : ℕ → ℕ → Entries → Run ℕ
unfolding translated_virtual_ptr
translated_refmut token ptr mem = do
  pa ← translated_virtual_ptr token ptr mem
  assert (not (pa == 0))
  ok pa

-- The `size` bytes of a number are put at a physical address, lowest byte first.
abbrev pub store : ℕ → ℕ → ℕ → Memory → Memory
store size pa value mem f i =
    let a = f * page_size + i in
    if leb pa a && (ltb a (pa + size) && ltb i page_size)
    then value / 2 ^ (8 * (a - pa)) % 256
    else mem f i
