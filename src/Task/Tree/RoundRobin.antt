-- ===== src/Task/Tree/RoundRobin.antt =====
-- The scheduling of os/src/task: a yield puts the running task at the end of the ready queue, and the
-- processor takes the front (`suspend_current_and_run_next` and `Processor::run`).
use r_corev.Prelude.{
  count, ◌-◌, ◌/◌, ◌%◌, ◌<◌, ◌==◌, ◌^◌, ltb, true, false, arith, Bool-cases, inl, inr, ℕ, zero, suc,
  Option, some, List, [], ◌∷◌, ◌++◌, Run, ok, ◌>>=◌, ◌≡◌, refl, sym, ap, ◌∙◌, get_elem?,
}
use r_corev.Config.{usize_mod, big_stride}
use r_corev.Task.Tree.{
  TaskStatus, ready, running, Tcb, System, put, started, pass, set_priority, run_task, run,
  suspend_current_and_run_next,
}
use r_corev.Task.Tree.Exit.{put_same}

-- The running task yields and the next one is started, `n` times.
unfoldable pub rounds : ℕ → System → Run System
rounds zero s = ok s
rounds (suc n) s = suspend_current_and_run_next s >>= run >>= rounds n

abbrev made_ready : Tcb → Tcb
made_ready t = record t { task_status = ready }

-- The state after task `t` yields to `u`, which is before `q` in the queue and whose stride grows by
-- `step`.
abbrev switched : ℕ → ℕ → ℕ → List ℕ → System → System
switched step t u q s = record s {
  tcbs = put u (started step) (put t made_ready s.tcbs);
  ready_queue = q ++ (t ∷ []);
  current = some u;
}

-- The running task and those of the queue have priorities other than 0.
unfoldable pub Prioritised : List ℕ → System → Type 0
Prioritised tasks s = (h : ℕ) → 0 < count h tasks → 0 < (s.tcbs h).task_priority

-- A priority that a program sets is positive, and a refused one changes nothing.
pub set_priority-Prioritised :
    (task priority : ℕ) (tasks : List ℕ) (s : System)
    → Prioritised tasks s
    → Prioritised tasks (set_priority task priority s).1
unfolding set_priority Prioritised
set_priority-Prioritised task priority tasks s p h c = let old = p h c in ground arith

pass_positive : (p : ℕ) → 0 < p → (step : ℕ) × (pass p ≡ ok step)
unfolding pass
pass_positive p h =
    let z : (p == 0) ≡ false = ground arith in
    elim (Bool-cases (ltb p (2 ^ 63))) [
      | inl l ↦ (big_stride / p, rw (z, l) refl)
      | inr l ↦ ((usize_mod - big_stride / (usize_mod - p)) % usize_mod, rw (z, l) refl)
    ]

-- Neither a yield nor a start changes a priority.
switched-task_priority :
    (step t u : ℕ) (q : List ℕ) (s : System) (h : ℕ)
    → ((switched step t u q s).tcbs h).task_priority ≡ (s.tcbs h).task_priority
switched-task_priority step t u q s h = ground arith

made_ready-task_priority :
    (t : ℕ) (s : System) (h : ℕ)
    → (put t made_ready s.tcbs h).task_priority ≡ (s.tcbs h).task_priority
made_ready-task_priority t s h = ground arith

round_lem :
    (step t u : ℕ) (q : List ℕ) (s : System)
    → s.current ≡ some t
    → s.ready_queue ≡ u ∷ q
    → pass (s.tcbs u).task_priority ≡ ok step
    → (suspend_current_and_run_next s >>= run) ≡ ok (switched step t u q s)
unfolding suspend_current_and_run_next run run_task
round_lem step t u q s c r e =
    let e' : pass (put t made_ready s.tcbs u).task_priority ≡ ok step =
      ap pass (made_ready-task_priority t s u) ∙ e in
    rw c (rw r (rw e' refl))

get_elem?-append :
    (q r : List ℕ) (k : ℕ) {u : ℕ} → get_elem? q k ≡ some u → get_elem? (q ++ r) k ≡ some u
get_elem?-append [] r k h = cc
get_elem?-append (x ∷ q) r zero h = h
get_elem?-append (x ∷ q) r (suc k) h = get_elem?-append q r k h

-- The queue goes round: the same tasks are there after a yield.
count_round : (h t x : ℕ) (q : List ℕ) → count h (x ∷ (q ++ (t ∷ []))) ≡ count h (t ∷ x ∷ q)
unfolding count
count_round h t x [] = omega arith
count_round h t x (y ∷ q) = omega (arith, count_round h t x q)

round-Prioritised :
    (step t x : ℕ) (q : List ℕ) (s : System)
    → Prioritised (t ∷ x ∷ q) s
    → Prioritised (x ∷ (q ++ (t ∷ []))) (switched step t x q s)
unfolding Prioritised
round-Prioritised step t x q s p h c =
    let old : 0 < (s.tcbs h).task_priority = p h (omega (arith, count_round h t x q)) in
    omega (arith, switched-task_priority step t x q s h)

second_positive :
    (t x : ℕ) (q : List ℕ) (s : System) → Prioritised (t ∷ x ∷ q) s → 0 < (s.tcbs x).task_priority
unfolding Prioritised count
second_positive t x q s p = let self : (x == x) ≡ true = ground arith in p x (rw self (omega arith))

-- The running task and those of the ready queue have priorities other than 0. Then the task at position
-- `k` of the queue runs after `k + 1` yields of the running tasks, and no yield on the way panics.
pub rounds_lem :
    (k t u : ℕ) (q : List ℕ) (s : System)
    → s.current ≡ some t
    → s.ready_queue ≡ q
    → Prioritised (t ∷ q) s
    → get_elem? q k ≡ some u
    → (s' : System) × (rounds (suc k) s ≡ ok s')
      × (s'.current ≡ some u)
      × ((s'.tcbs u).task_status ≡ running)
unfolding rounds
rounds_lem k t u [] s c r p g = cc
rounds_lem zero t u (x ∷ q) s c r p g =
    let e : x ≡ u = cc in
    let (step, d) = pass_positive (s.tcbs x).task_priority (second_positive t x q s p) in
    (
      switched step t x q s,
      ap (λ m. m >>= (λ a. ok a)) (round_lem step t x q s c r d),
      ap {A = ℕ} {B = Option ℕ} some e,
      ap {A = ℕ} {B = TaskStatus} (λ i. ((switched step t x q s).tcbs i).task_status) (sym e)
          ∙ ap (λ b. b.task_status) (put_same x (started step) (put t made_ready s.tcbs)),
    )
rounds_lem (suc k) t u (x ∷ q) s c r p g =
    let (step, d) = pass_positive (s.tcbs x).task_priority (second_positive t x q s p) in
    let (s', e, c', st) =
      rounds_lem k x u (q ++ (t ∷ [])) (switched step t x q s) refl refl
        (round-Prioritised step t x q s p) (get_elem?-append q (t ∷ []) k g) in
    (s', ap (λ m. m >>= rounds (suc k)) (round_lem step t x q s c r d) ∙ e, c', st)
