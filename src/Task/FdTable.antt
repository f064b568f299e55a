-- ===== src/Task/FdTable.antt =====
-- The table of file descriptors: `alloc_fd` of os/src/task/task.rs and the calls of
-- os/src/syscall/fs.rs that change the table. `F` are the files; an `isize` is its two's complement
-- of 64 bits.
pub mod Alloc
pub mod Calls
mod Tests
use r_corev.Config.{minus_one}
use r_corev.Prelude.{
  ◌%◌, not, Run, ok, ◌>>=◌, ℕ, ◌+◌, ◌-◌, Bool, true, false, Option, none, some, List, [], ◌∷◌, ◌++◌,
  length, get_or, set, leb, if◌then◌else◌,
}
use r_corev.Config.{usize_mod}
use r_corev.Mm.Frame.{Memory}
use r_corev.Mm.PageTable.{Entries}
use r_corev.Mm.Access

abbrev pub FdTable : Type 0 → Type 0
FdTable F = List (Option F)

abbrev pub is_none {ℓ} : {A : Type ℓ} → Option A → Bool
is_none none = true
is_none (some _) = false

-- `(fd..).find(|fd| fd_table[fd].is_none())`
unfoldable pub find_free : {F : Type 0} → ℕ → FdTable F → Option ℕ
find_free fd [] = none
find_free fd (x ∷ xs) = let rest = find_free (fd + 1) xs in if is_none x then some fd else rest

unfoldable pub alloc_fd : {F : Type 0} → FdTable F → ℕ × FdTable F
unfolding find_free
alloc_fd t = elim (find_free 0 t) [
  | some fd ↦ (fd, t)
  | none ↦ (length (t ++ (none ∷ [])) - 1, t ++ (none ∷ []))
]

-- The entry of `fd`, free when the table is shorter.
abbrev pub entry : {F : Type 0} → FdTable F → ℕ → Option F
entry t fd = get_or t fd none

unfoldable pub sys_close : {F : Type 0} → ℕ → FdTable F → ℕ × FdTable F
sys_close fd t =
    if leb (length t) fd
    then (minus_one, t)
    else if is_none (entry t fd)
    then (minus_one, t)
    else (0, set t fd none)

unfoldable pub sys_dup : {F : Type 0} → ℕ → FdTable F → ℕ × FdTable F
unfolding alloc_fd
sys_dup fd t =
    if leb (length t) fd
    then (minus_one, t)
    else if is_none (entry t fd)
    then (minus_one, t)
    else let (new_fd, t') = alloc_fd t in (new_fd, set t' new_fd (entry t' fd))

-- The two descriptors are put into the user's array of two `usize`; only its first address was tested.
unfoldable pub write_fds : ℕ → ℕ → ℕ → ℕ → Entries → Memory → Run Memory
write_fds token pipe read_fd write_fd mem bytes = do
  pa0 ← Access.translated_refmut token pipe mem
  pa1 ← Access.translated_refmut token ((pipe + 8) % usize_mod) mem
  ok (Access.store 8 pa1 write_fd (Access.store 8 pa0 read_fd bytes))

-- `pipe` is the address of the array, and the pair the ends of the new pipe.
unfoldable pub sys_pipe :
    {F : Type 0} → ℕ → ℕ → Entries → F × F → FdTable F → Memory → Run (ℕ × FdTable F × Memory)
unfolding alloc_fd write_fds
sys_pipe token pipe mem (pipe_read, pipe_write) t bytes =
    let (read_fd, t1) = alloc_fd t in
    let t2 = set t1 read_fd (some pipe_read) in
    let (write_fd, t3) = alloc_fd t2 in
    if not (Access.virtual_addr_writable token pipe mem)
    then ok (minus_one, t, bytes)
    else (write_fds token pipe read_fd write_fd mem bytes >>= λ bytes'.
        ok (0, set t3 write_fd (some pipe_write), bytes'))

-- A successful `sys_openat`, once the file is open.
unfoldable pub install : {F : Type 0} → F → FdTable F → ℕ × FdTable F
unfolding alloc_fd
install inode t = let (fd, t') = alloc_fd t in (fd, set t' fd (some inode))
