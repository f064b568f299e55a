-- ===== src/Task/Tree/Tests.antt =====
-- A process with a child that is ready and one that is a zombie; page 5 is writable for it.
use r_corev.Prelude.{
  panic, ℕ, zero, suc, ◌+◌, ◌-◌, ◌*◌, ◌<◌, true, false, Option, none, some, List, [], ◌∷◌, ◌==◌,
  if◌then◌else◌, ok, ◌≡◌, refl, subst, arith, count, get_elem?,
}
use r_corev.Config.{minus_one, page_size}
use r_corev.Mm.Address
use r_corev.Mm.Pte
use r_corev.Mm.PageTable
use r_corev.Mm.PageTable.Sample.{entries}
use r_corev.Mm.PageTable.{Entries, Kernel, PageTable}
use r_corev.Mm.MemorySet
use r_corev.Mm.Access
use r_corev.Task.Tree
use r_corev.Task.Tree.{
  TaskStatus, ready, running, zombie, Tcb, System, pass, memory_set, exit_current_and_run_next,
  sys_waitpid_non_blocking, is_over, waits_for, holders, run, suspend_current_and_run_next,
}
use r_corev.Task.Tree.RoundRobin.{Prioritised, rounds, rounds_lem}
use r_corev.Task.Tree.Exit.{Exits, exit_current_lem}
use r_corev.Task.Tree.Waitpid.{
  FirstZombie, satp, collected, any_child, sys_waitpid_lem, sys_waitpid_nothing,
}

abbrev block : ℕ → TaskStatus → List ℕ → ℕ → Tcb
block pid status children_ code = record {
  pid = pid;
  task_status = status;
  task_stride = 0;
  task_priority = 16;
  table = record { root_ppn = 16; frames = 16 ∷ [] };
  areas = [];
  parent = none;
  children = children_;
  exit_code = code;
}

abbrev blocks : ℕ → Tcb
blocks x =
    if x == 0
    then block 0 ready (1 ∷ []) 0
    else (if x == 1
        then block 1 running (2 ∷ 3 ∷ []) 0
        else (if x == 2 then block 2 ready [] 0 else block 3 zombie [] 7))

abbrev system : System
system = record {
  initproc = 0;
  tcbs = blocks;
  live = 0 ∷ 1 ∷ 2 ∷ 3 ∷ [];
  ready_queue = 0 ∷ 2 ∷ [];
  current = some 1;
  kernel = record { allocator = record { current = 19; end = 100; recycled = [] }; mem = entries };
  bytes = λ f i. 0;
}

exit_current_lem_example :
    (s' : System) × (exit_current_and_run_next 9 system ≡ ok s')
    × Exits 9 1 system s'
    × (memory_set (s'.tcbs 1) s' ≡ memory_set (blocks 1) system)
unfolding MemorySet.recycle_data_pages MemorySet.recycle_areas
exit_current_lem_example =
    exit_current_lem 9 1 system (memory_set (blocks 1) system) refl (ground arith) refl

at_place :
    (pid a : ℕ) {d : ℕ}
    → Path (Option ℕ) (some a) (some d)
    → is_over pid (blocks a) ≡ false
    → is_over pid (blocks d) ≡ false
at_place pid a {d} e h = let same : a ≡ d = cc in subst (λ i. is_over pid (blocks i) ≡ false) same h

ready_first :
    (j d : ℕ)
    → j < 1
    → get_elem? (blocks 1).children j ≡ some d
    → is_over minus_one (blocks d) ≡ false
unfolding Tree.is_zombie
ready_first zero d l e = at_place minus_one 2 e refl
ready_first (suc j) d l e = ground arith

first_zombie : FirstZombie minus_one 1 1 3 system
unfolding waits_for Tree.is_zombie
first_zombie = record { at_k = refl; wanted = refl; over = refl; first = ready_first }

one_task : count 1 system.live ≡ 1
unfolding count
one_task = refl

one_holder : holders 3 system ≡ 1
unfolding holders Tree.held_by_children count
one_holder = refl

writable_5 : Access.virtual_addr_writable (satp 1 system) (5 * page_size + 8) entries ≡ true
unfolding Access.virtual_addr_writable MemorySet.token PageTable.token PageTable.from_token
    PageTable.translate_pte PageTable.translate PageTable.find_pte PageTable.find_loop
    Address.indexes Address.floor Pte.is_valid Pte.has_flag Pte.flags Pte.ppn Pte.readable
    Pte.writable
writable_5 = refl

at_80 :
    Access.translated_virtual_ptr (satp 1 system) (5 * page_size + 8) entries
    ≡ ok (80 * page_size + 8)
unfolding Access.translated_virtual_ptr MemorySet.token PageTable.token PageTable.from_token
    PageTable.translate_pte PageTable.translate PageTable.find_pte PageTable.find_loop
    Address.indexes Address.floor Pte.is_valid Pte.has_flag Pte.flags Pte.ppn PageTable.translate_va
    Address.page_offset Address.addr_of
at_80 = refl

sys_waitpid_lem_example :
    (sys_waitpid_non_blocking minus_one (5 * page_size + 8) system
      ≡ ok (3, collected 1 1 3 (80 * page_size + 8) system))
    × ((holders 3 (collected 1 1 3 (80 * page_size + 8) system) ≡ 0)
        × (count 3 (collected 1 1 3 (80 * page_size + 8) system).live ≡ 0))
sys_waitpid_lem_example =
    sys_waitpid_lem minus_one (5 * page_size + 8) 1 1 3 (80 * page_size + 8) system refl
      first_zombie one_task one_holder writable_5 at_80 (ground arith)

none_over : (j d : ℕ) → get_elem? (blocks 1).children j ≡ some d → is_over 2 (blocks d) ≡ false
unfolding Tree.is_zombie waits_for
none_over zero d e = at_place 2 2 e refl
none_over (suc zero) d e = at_place 2 3 e refl
none_over (suc (suc j)) d e = cc

sys_waitpid_nothing_example :
    sys_waitpid_non_blocking 2 0 system
    ≡ ok (
      if any_child (λ c. waits_for 2 (blocks c)) (2 ∷ 3 ∷ []) then minus_one - 1 else minus_one,
      system,
    )
sys_waitpid_nothing_example = sys_waitpid_nothing 2 0 1 system refl none_over

block-task_priority : (h : ℕ) → (blocks h).task_priority ≡ 16
block-task_priority h = ground arith

system-Prioritised : Prioritised (1 ∷ 0 ∷ 2 ∷ []) system
unfolding Prioritised
system-Prioritised h c = omega (arith, block-task_priority h)

-- A task of priority 0 stops the kernel when it is started.
priority_0 : pass 0 ≡ panic
unfolding pass
priority_0 = refl

rounds_lem_example :
    (s' : System) × (rounds 2 system ≡ ok s')
    × (s'.current ≡ some 2)
    × ((s'.tcbs 2).task_status ≡ running)
rounds_lem_example = rounds_lem 1 1 2 (0 ∷ 2 ∷ []) system refl refl system-Prioritised refl
