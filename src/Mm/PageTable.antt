-- ===== src/Mm/PageTable.antt =====
-- `PageTable` of os/src/mm/page_table.rs: a tree of page frames of three levels. `Entries` is the
-- physical memory seen through `PhysPageNum::get_pte_array`: the entry at an index of a frame. The
-- kernel's state is the global frame allocator and that memory.
pub mod Tree
pub mod Create
pub mod Fresh
pub mod Map
pub mod Operations
pub mod Translation
pub mod Sample
mod Tests
use r_corev.Prelude.{
  ℕ, ◌+◌, ◌*◌, ◌/◌, ◌%◌, ◌^◌, Bool, not, Option, none, some, List, [], ◌∷◌, bit_and, bit_or, ◌-◌,
  ◌==◌, ◌&&◌, leb, if◌then◌else◌, Run, ok, panic, ◌>>=◌, ◌>>◌, assert, unwrap,
}
use r_corev.Config.{trap_context, usize_mod}
use r_corev.Mm.Frame
use r_corev.Mm.Frame.{StackFrameAllocator}
use r_corev.Mm.Pte
use r_corev.Mm.Address.{floor, page_offset, indexes, addr_of}

abbrev pub Entries : Type 0
Entries = ℕ → ℕ → ℕ

-- `*pte = bits` for the entry `i` of frame `n`.
abbrev pub write : Entries → ℕ → ℕ → ℕ → Entries
write mem n i bits m j = if (m == n) && (j == i) then bits else mem m j

-- A frame of zeros: all entries are 0.
abbrev pub clean : Entries → ℕ → Entries
clean mem n m j = if m == n then 0 else mem m j

pub record Kernel : Type 0 where
  pub allocator : StackFrameAllocator
  pub mem : Entries

-- `frames` has the last element of the vector first.
pub record PageTable : Type 0 where
  pub root_ppn : ℕ
  pub frames : List ℕ

pub record State : Type 0 where
  pub kernel : Kernel
  pub table : PageTable

-- `frame_alloc().unwrap()`: the frame comes cleaned.
unfoldable pub take_frame : Kernel → Run (ℕ × Kernel)
take_frame k =
    let (found, a) = Frame.alloc k.allocator in
    unwrap found >>= λ f. ok (f, record { allocator = a; mem = clean k.mem f })

unfoldable pub new : Kernel → Run State
unfolding take_frame
new k = do
  (f, k') ← take_frame k
  ok (record { kernel = k'; table = record { root_ppn = f; frames = f ∷ [] } })

unfoldable pub from_token : ℕ → PageTable
from_token satp = record { root_ppn = bit_and satp (2 ^ 44 - 1); frames = [] }

-- An entry is named by its frame and its index.
abbrev pub Place : Type 0
Place = ℕ × ℕ

-- A missing node is created: a new frame, and the entry that points to it.
unfoldable pub ensure : ℕ → ℕ → State → Run State
unfolding take_frame
ensure n i s = if Pte.is_valid (s.kernel.mem n i) then ok s else do
  (f, k) ← take_frame s.kernel
  ok (record {
    kernel = record k { mem = write k.mem n i (Pte.new f Pte.flag_v) };
    table = record s.table { frames = f ∷ s.table.frames };
  })

-- The loop over the indices; the last one is not followed.
unfoldable pub create_loop : List ℕ → ℕ → State → Run (Option Place × State)
create_loop [] n s = ok (none, s)
create_loop (i ∷ []) n s = ok (some (n, i), s)
create_loop (i ∷ j ∷ is) n s = do
  s' ← ensure n i s
  create_loop (j ∷ is) (Pte.ppn (s'.kernel.mem n i)) s'

unfoldable pub find_pte_create : ℕ → State → Run (Option Place × State)
unfolding create_loop
find_pte_create vpn s = create_loop (indexes vpn) s.table.root_ppn s

unfoldable pub find_loop : List ℕ → ℕ → Entries → Option Place
find_loop [] n mem = none
find_loop (i ∷ []) n mem = some (n, i)
find_loop (i ∷ j ∷ is) n mem =
    if Pte.is_valid (mem n i) then find_loop (j ∷ is) (Pte.ppn (mem n i)) mem else none

unfoldable pub find_pte : ℕ → Entries → PageTable → Option Place
unfolding find_loop
find_pte vpn mem t = find_loop (indexes vpn) t.root_ppn mem

abbrev pub set_entry : Place → ℕ → State → State
set_entry (n, i) bits s = record s {
  kernel = record s.kernel { mem = write s.kernel.mem n i bits };
}

abbrev pub entry : Place → Entries → ℕ
entry (n, i) mem = mem n i

unfoldable pub map : ℕ → ℕ → ℕ → State → Run State
map vpn ppn flags s = do
  (found, s') ← find_pte_create vpn s
  pte ← unwrap found
  assert (not (Pte.is_valid (entry pte s'.kernel.mem)))
  ok (set_entry pte (Pte.new ppn (bit_or flags Pte.flag_v)) s')

unfoldable pub unmap : ℕ → State → Run State
unmap vpn s = do
  (found, s') ← find_pte_create vpn s
  pte ← unwrap found
  assert (Pte.is_valid (entry pte s'.kernel.mem))
  ok (set_entry pte Pte.empty s')

unfoldable pub translate : ℕ → Entries → PageTable → Option ℕ
translate vpn mem t = elim (find_pte vpn mem t) [ none ↦ none | some pte ↦ some (entry pte mem) ]

unfoldable pub translate_va : ℕ → Entries → PageTable → Option ℕ
translate_va va mem t = elim (find_pte (floor va) mem t) [
  | none ↦ none
  | some pte ↦ some ((addr_of (Pte.ppn (entry pte mem)) + page_offset va) % usize_mod)
]

unfoldable pub translate_pte : ℕ → Entries → PageTable → Option ℕ
unfolding translate
translate_pte va mem t = translate (floor va) mem t

unfoldable pub token : PageTable → ℕ
token t = bit_or (8 * 2 ^ 60) t.root_ppn
