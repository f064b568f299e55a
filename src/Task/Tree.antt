-- ===== src/Task/Tree.antt =====
-- The processes of os/src/task and their tree: `suspend_current_and_run_next` and
-- `exit_current_and_run_next` of mod.rs up to the switch of contexts, one round of `Processor::run`,
-- and `sys_waitpid` of os/src/syscall/process.rs. A control block is named by a number, which stands
-- for its `Arc`; `live` are the blocks that were not dropped.
pub mod Exit
pub mod Waitpid
pub mod RoundRobin
mod Tests
use r_corev.Prelude.{
  ℕ, zero, suc, ◌+◌, ◌-◌, ◌*◌, ◌/◌, ◌%◌, ◌^◌, Bool, true, false, not, Option, none, some, List, [],
  ◌∷◌, ◌++◌, leb, ltb, ◌==◌, ◌&&◌, ◌||◌, if◌then◌else◌, Run, ok, panic, ◌>>=◌, ◌>>◌, assert, unwrap,
  count, remove_at,
}
use r_corev.Config.{usize_mod, big_stride, minus_one, page_size}
use r_corev.Mm.Frame.{Memory}
use r_corev.Mm.PageTable
use r_corev.Mm.PageTable.{Kernel, PageTable}
use r_corev.Mm.MapArea.{MapArea}
use r_corev.Mm.MemorySet
use r_corev.Mm.MemorySet.{MemorySet}
use r_corev.Mm.Access

pub data TaskStatus : Type 0 where
  ready : TaskStatus
  running : TaskStatus
  zombie : TaskStatus

-- The memory set is its page table and its areas; the machine below it is shared.
pub record Tcb : Type 0 where
  pub pid : ℕ
  pub task_status : TaskStatus
  pub task_stride : ℕ
  pub task_priority : ℕ
  pub table : PageTable
  pub areas : List MapArea
  pub parent : Option ℕ
  pub children : List ℕ
  pub exit_code : ℕ

pub record System : Type 0 where
  pub initproc : ℕ
  pub tcbs : ℕ → Tcb
  pub live : List ℕ
  pub ready_queue : List ℕ
  pub current : Option ℕ
  pub kernel : Kernel
  pub bytes : Memory

-- A change of one block under its lock.
abbrev pub put : ℕ → (Tcb → Tcb) → (ℕ → Tcb) → ℕ → Tcb
put task f tcbs x = if x == task then f (tcbs x) else tcbs x

abbrev pub modify : ℕ → (Tcb → Tcb) → System → System
modify task f s = record s { tcbs = put task f s.tcbs }

abbrev pub memory_set : Tcb → System → MemorySet
memory_set t s = record {
  space = record { pages = record { kernel = s.kernel; table = t.table }; bytes = s.bytes };
  areas = t.areas;
}

abbrev pub with_memory : MemorySet → Tcb → Tcb
with_memory m t = record t { table = m.space.pages.table; areas = m.areas }

abbrev pub set_memory : ℕ → MemorySet → System → System
set_memory task m s = record s {
  tcbs = put task (with_memory m) s.tcbs;
  kernel = m.space.pages.kernel;
  bytes = m.space.bytes;
}

unfoldable pub is_zombie : Tcb → Bool
is_zombie t = elim t.task_status [ ready ↦ false | running ↦ false | zombie ↦ true ]

unfoldable pub suspend_current_and_run_next : System → Run System
suspend_current_and_run_next s = unwrap s.current >>= λ task. ok (record s {
  tcbs = put task (λ t. record t { task_status = ready }) s.tcbs;
  ready_queue = s.ready_queue ++ (task ∷ []);
  current = none;
})

-- `BIG_STRIDE / task_priority`, the quotient of an `isize` rounded towards 0; a division by 0 panics.
unfoldable pub pass : ℕ → Run ℕ
pass priority =
    if priority == 0
    then panic
    else if ltb priority (2 ^ 63)
    then ok (big_stride / priority)
    else ok ((usize_mod - big_stride / (usize_mod - priority)) % usize_mod)

abbrev pub started : ℕ → Tcb → Tcb
started step t = record t {
  task_status = running;
  task_stride = (t.task_stride + step) % usize_mod;
}

-- A round of the loop.
unfoldable pub run_task : List ℕ → System → Run System
unfolding pass
run_task [] s = panic
run_task (task ∷ rest) s = do
  step ← pass (s.tcbs task).task_priority
  ok (record s { tcbs = put task (started step) s.tcbs; ready_queue = rest; current = some task })

unfoldable pub run : System → Run System
unfolding run_task
run s = run_task s.ready_queue s

-- `isize::MAX` is 2 ^ 63 - 1: a larger word is negative.
unfoldable pub set_priority : ℕ → ℕ → System → ℕ × System
set_priority task priority s =
    if ltb 1 priority && ltb priority (2 ^ 63)
    then (priority, modify task (λ t. record t { task_priority = priority }) s)
    else (minus_one, s)

-- Each child gets the first process as its parent, which gets the child.
unfoldable pub adopt : List ℕ → System → System
adopt [] s = s
adopt (child ∷ rest) s = adopt rest (
    modify s.initproc (λ t. record t { children = t.children ++ (child ∷ []) })
      (modify child (λ t. record t { parent = some s.initproc }) s))

abbrev pub made_zombie : ℕ → Tcb → Tcb
made_zombie code t = record t { task_status = zombie; exit_code = code }

abbrev pub dying : ℕ → ℕ → System → System
dying code task s = modify task (made_zombie code) (record s { current = none })

-- The first process keeps its own children until they are cleared.
abbrev pub orphaned : ℕ → ℕ → System → System
orphaned code task s =
    if (s.tcbs task).pid == (s.tcbs s.initproc).pid
    then dying code task s
    else adopt (s.tcbs task).children (dying code task s)

abbrev pub without_children : Tcb → Tcb
without_children t = record t { children = [] }

abbrev pub childless : ℕ → ℕ → System → System
childless code task s = modify task without_children (orphaned code task s)

-- `inner.memory_set.recycle_data_pages()`
abbrev pub recycled : ℕ → System → MemorySet → Run System
recycled task s m = MemorySet.recycle_data_pages m >>= λ m'. ok (set_memory task m' s)

unfoldable pub exit_current_and_run_next : ℕ → System → Run System
unfolding adopt
exit_current_and_run_next code s = do
  task ← unwrap s.current
  let s' = childless code task s
  recycled task s' (memory_set (s'.tcbs task) s')

-- `pid` is an `isize`: -1 and 0 stand for any child.
unfoldable pub waits_for : ℕ → Tcb → Bool
waits_for pid t = pid == minus_one || (pid == 0 || pid == t.pid)

-- The first position whose child passes the test.
unfoldable pub find_child : (ℕ → Bool) → List ℕ → Option (ℕ × ℕ)
find_child p [] = none
find_child p (child ∷ rest) =
    let later = find_child p rest in
    if p child
    then some (0, child)
    else elim later [ none ↦ none | some (k, found) ↦ some (k + 1, found) ]

unfoldable pub held_by_children : (ℕ → Tcb) → ℕ → List ℕ → ℕ
held_by_children tcbs task [] = 0
held_by_children tcbs task (owner ∷ rest) =
    count task (tcbs owner).children + held_by_children tcbs task rest

abbrev pub held_by_current : ℕ → Option ℕ → ℕ
held_by_current task none = 0
held_by_current task (some other) = if other == task then 1 else 0

-- The references of the kernel's data: the vectors of children, the ready queue, the processor and
-- the static `INITPROC`.
unfoldable pub holders : ℕ → System → ℕ
holders task s =
    held_by_children s.tcbs task s.live
    + (count task s.ready_queue
        + (held_by_current task s.current + (if s.initproc == task then 1 else 0)))

-- `*translated_refmut(token, ptr) = code`: four bytes from the physical address; address 0 is no
-- reference.
abbrev pub write_i32 : ℕ → ℕ → Memory → Memory
write_i32 pa code = Access.store 4 pa code

abbrev pub remove_all : ℕ → List ℕ → List ℕ
remove_all child [] = []
remove_all child (x ∷ xs) = let rest = remove_all child xs in if x == child then rest else x ∷ rest

-- The last reference is dropped.
abbrev pub drop_child : ℕ → System → System
drop_child child s = record s { live = remove_all child s.live }

abbrev pub take_out : ℕ → Tcb → Tcb
take_out k t = record t { children = remove_at k t.children }

unfoldable pub store_exit_code : ℕ → ℕ → Tcb → System → Run (ℕ × System)
store_exit_code satp exit_code_ptr child s = do
  pa ← Access.translated_virtual_ptr satp exit_code_ptr s.kernel.mem
  assert (not (pa == 0))
  ok (child.pid, record s { bytes = write_i32 pa child.exit_code s.bytes })

-- What is done with the child at position `k`, which is taken out of the vector.
unfoldable pub collect : ℕ → ℕ → ℕ → ℕ → System → Run (ℕ × System)
collect task k child exit_code_ptr s =
    let s1 = modify task (take_out k) s in
    let held = holders child s1 in
    let s2 = if held == 0 then drop_child child s1 else s1 in
    let satp = MemorySet.token (memory_set (s.tcbs task) s) in
    assert (held == 0 || held == 1)
    >> (if Access.virtual_addr_writable satp exit_code_ptr s.kernel.mem
        then store_exit_code satp exit_code_ptr (s.tcbs child) s2
        else ok (minus_one, s2))

-- By the child that is waited for, if there is any, and the one of them that is over.
abbrev pub reap : ℕ → ℕ → System → Option (ℕ × ℕ) → Option (ℕ × ℕ) → Run (ℕ × System)
reap exit_code_ptr task s none _ = ok (minus_one, s)
reap exit_code_ptr task s (some _) none = ok (minus_one - 1, s)
reap exit_code_ptr task s (some _) (some (k, child)) = collect task k child exit_code_ptr s

abbrev pub is_over : ℕ → Tcb → Bool
is_over pid t = is_zombie t && waits_for pid t

abbrev pub wait_in : ℕ → ℕ → System → ℕ → Run (ℕ × System)
wait_in pid exit_code_ptr s task =
    reap exit_code_ptr task s (find_child (λ p. waits_for pid (s.tcbs p)) (s.tcbs task).children)
      (find_child (λ p. is_over pid (s.tcbs p)) (s.tcbs task).children)

unfoldable pub sys_waitpid_non_blocking : ℕ → ℕ → System → Run (ℕ × System)
unfolding find_child
sys_waitpid_non_blocking pid exit_code_ptr s = unwrap s.current >>= wait_in pid exit_code_ptr s
