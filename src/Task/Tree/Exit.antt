-- ===== src/Task/Tree/Exit.antt =====
-- `exit_current_and_run_next` of os/src/task/mod.rs: the children go to the first process.
use r_corev.Prelude.{
  ℕ, Bool, true, false, ◌||◌, Option, none, some, List, [], ◌∷◌, ◌++◌, ◌==◌, if◌then◌else◌, Run, ok,
  ◌>>=◌, unwrap, ◌≡◌, ◌≢◌, refl, sym, ap, ◌∙◌, append-nil, append_assoc, arith,
}
use r_corev.Mm.MemorySet
use r_corev.Mm.MemorySet.{MemorySet}
use r_corev.Task.Tree.{
  zombie, Tcb, System, put, modify, memory_set, dying, childless, recycled, made_zombie,
  without_children, with_memory, set_memory, adopt, exit_current_and_run_next,
}

abbrev step : ℕ → System → System
step child s =
    modify s.initproc (λ t. record t { children = t.children ++ (child ∷ []) })
      (modify child (λ t. record t { parent = some s.initproc }) s)

step-children :
    (c : ℕ) (s : System) (h : ℕ)
    → ((step c s).tcbs h).children
      ≡ (if h == s.initproc then (s.tcbs h).children ++ (c ∷ []) else (s.tcbs h).children)
step-children c s h = ground arith

joined_nil : (b : Bool) (xs : List ℕ) → xs ≡ (if b then xs ++ [] else xs)
joined_nil true xs = sym (append-nil xs)
joined_nil false xs = refl

joined :
    (b : Bool) (c : ℕ) (cs xs ys : List ℕ)
    → ys ≡ (if b then xs ++ (c ∷ []) else xs)
    → (if b then ys ++ cs else ys) ≡ (if b then xs ++ (c ∷ cs) else xs)
joined true c cs xs ys e = ap (λ zs. zs ++ cs) e ∙ append_assoc xs (c ∷ []) cs
joined false c cs xs ys e = e

-- What adoption leaves of each block.
adopt-children :
    (cs : List ℕ) (s : System) (h : ℕ)
    → ((adopt cs s).tcbs h).children
      ≡ (if h == s.initproc then (s.tcbs h).children ++ cs else (s.tcbs h).children)
unfolding adopt
adopt-children [] s h = joined_nil (h == s.initproc) (s.tcbs h).children
adopt-children (c ∷ cs) s h =
    adopt-children cs (step c s) h
    ∙ joined (h == s.initproc) c cs (s.tcbs h).children _ (step-children c s h)

step-parent :
    (c : ℕ) (s : System) (h : ℕ)
    → ((step c s).tcbs h).parent ≡ (if h == c then some s.initproc else (s.tcbs h).parent)
step-parent c s h = ground arith

kept_parent :
    (b d : Bool) (q p : Option ℕ) (i : ℕ)
    → q ≡ (if d then some i else p)
    → (if b then some i else q) ≡ (if d || b then some i else p)
kept_parent true true q p i e = refl
kept_parent true false q p i e = refl
kept_parent false true q p i e = e
kept_parent false false q p i e = e

abbrev pub mem : ℕ → List ℕ → Bool
mem h [] = false
mem h (c ∷ cs) = (h == c) || mem h cs

adopt-parent :
    (cs : List ℕ) (s : System) (h : ℕ)
    → ((adopt cs s).tcbs h).parent ≡ (if mem h cs then some s.initproc else (s.tcbs h).parent)
unfolding adopt
adopt-parent [] s h = refl
adopt-parent (c ∷ cs) s h =
    adopt-parent cs (step c s) h
    ∙ kept_parent (mem h cs) (h == c) _ (s.tcbs h).parent s.initproc (step-parent c s h)

by_tests :
    (b d : Bool) (t : Tcb) (i c : ℕ)
    → let u = (if d then record t { parent = some i } else t) in
      let v = (if b then record u { children = u.children ++ (c ∷ []) } else u) in
      v ≡ record t { parent = v.parent; children = v.children }
by_tests true true t i c = refl
by_tests true false t i c = refl
by_tests false true t i c = refl
by_tests false false t i c = refl

-- Nothing else changes.
step_rest :
    (c : ℕ) (s : System) (h : ℕ)
    → (step c s).tcbs h ≡ record (s.tcbs h) {
      parent = ((step c s).tcbs h).parent;
      children = ((step c s).tcbs h).children;
    }
step_rest c s h = by_tests (h == s.initproc) (h == c) (s.tcbs h) s.initproc c

adopt_rest :
    (cs : List ℕ) (s : System) (h : ℕ)
    → (adopt cs s).tcbs h ≡ record (s.tcbs h) {
      parent = ((adopt cs s).tcbs h).parent;
      children = ((adopt cs s).tcbs h).children;
    }
unfolding adopt
adopt_rest [] s h = refl
adopt_rest (c ∷ cs) s h =
    adopt_rest cs (step c s) h
    ∙ ap {A = Tcb} {B = Tcb}
        (λ t. record t {
          parent = ((adopt cs (step c s)).tcbs h).parent;
          children = ((adopt cs (step c s)).tcbs h).children;
        })
        (step_rest c s h)

adopt_system : (cs : List ℕ) (s : System) → adopt cs s ≡ record s { tcbs = (adopt cs s).tcbs }
unfolding adopt
adopt_system [] s = refl
adopt_system (c ∷ cs) s = adopt_system cs (step c s)

pub put_same : (task : ℕ) (f : Tcb → Tcb) (tcbs : ℕ → Tcb) → put task f tcbs task ≡ f (tcbs task)
put_same task f tcbs = ground arith

pub put_other :
    (task : ℕ) (f : Tcb → Tcb) (tcbs : ℕ → Tcb) (h : ℕ) → h ≢ task → put task f tcbs h ≡ tcbs h
put_other task f tcbs h n = ground arith

then_same : (h : ℕ) (xs ys : List ℕ) → (if h == h then xs else ys) ≡ xs
then_same h xs ys = ground arith

else_other : (h i : ℕ) → h ≢ i → (xs ys : List ℕ) → (if h == i then xs else ys) ≡ ys
else_other h i n xs ys = ground arith

-- The task is a zombie with the code, without children and areas. The first process has got the
-- children, which name it as their parent. The other blocks, the queue and who is alive stay.
pub record Exits (code task : ℕ) (s s' : System) : Type 0 where
  pub gone : s'.current ≡ none
  pub queue : s'.ready_queue ≡ s.ready_queue
  pub alive : s'.live ≡ s.live
  pub dead : (s'.tcbs task).task_status ≡ zombie
  pub code_kept : (s'.tcbs task).exit_code ≡ code
  pub childless : (s'.tcbs task).children ≡ []
  pub inherited :
      (s'.tcbs s.initproc).children ≡ (s.tcbs s.initproc).children ++ (s.tcbs task).children
  pub children_kept :
      (h : ℕ) → h ≢ task → h ≢ s.initproc → (s'.tcbs h).children ≡ (s.tcbs h).children
  pub parents :
      (h : ℕ)
      → h ≢ task
      → (s'.tcbs h).parent
        ≡ (if mem h (s.tcbs task).children then some s.initproc else (s.tcbs h).parent)
  pub others :
      (h : ℕ)
      → h ≢ task
      → s'.tcbs h
        ≡ record (s.tcbs h) { parent = (s'.tcbs h).parent; children = (s'.tcbs h).children }

module _ (code task : ℕ) (s : System) (m : MemorySet) where
  abbrev d : System
  d = dying code task s

  abbrev x : System
  x = adopt (s.tcbs task).children d

  abbrev left : System
  left = set_memory task m (modify task without_children x)

  left_other : (h : ℕ) → h ≢ task → left.tcbs h ≡ x.tcbs h
  left_other h n =
      put_other task (with_memory m) (put task without_children x.tcbs) h n
      ∙ put_other task without_children x.tcbs h n

  left_task : left.tcbs task ≡ with_memory m (without_children (x.tcbs task))
  left_task =
      put_same task (with_memory m) (put task without_children x.tcbs)
      ∙ ap (with_memory m) (put_same task without_children x.tcbs)

  abbrev moved : ℕ → Tcb → Tcb
  moved h t = record t { parent = (x.tcbs h).parent; children = (x.tcbs h).children }

  x_task : x.tcbs task ≡ moved task (made_zombie code (s.tcbs task))
  x_task =
      adopt_rest (s.tcbs task).children d task
      ∙ ap (moved task) (put_same task (made_zombie code) s.tcbs)

  d_other : (h : ℕ) → h ≢ task → d.tcbs h ≡ s.tcbs h
  d_other h n = put_other task (made_zombie code) s.tcbs h n

  x_other : (h : ℕ) → h ≢ task → left.tcbs h ≡ moved h (s.tcbs h)
  x_other h n =
      left_other h n ∙ (adopt_rest (s.tcbs task).children d h ∙ ap (moved h) (d_other h n))

  left-children :
      (h : ℕ)
      → h ≢ task
      → (left.tcbs h).children ≡ (
          if h == s.initproc
          then (s.tcbs h).children ++ (s.tcbs task).children
          else (s.tcbs h).children)
  left-children h n =
      ap (λ t. t.children) (left_other h n)
      ∙ (adopt-children (s.tcbs task).children d h
          ∙ ap {A = Tcb} {B = List ℕ}
              (λ t. if h == s.initproc then t.children ++ (s.tcbs task).children else t.children)
              (d_other h n))

  left-parent :
      (h : ℕ)
      → h ≢ task
      → (left.tcbs h).parent
        ≡ (if mem h (s.tcbs task).children then some s.initproc else (s.tcbs h).parent)
  left-parent h n =
      ap (λ t. t.parent) (left_other h n)
      ∙ (adopt-parent (s.tcbs task).children d h
          ∙ ap {A = Tcb} {B = Option ℕ}
              (λ t. if mem h (s.tcbs task).children then some s.initproc else t.parent)
              (d_other h n))

  left-Exits : s.initproc ≢ task → Exits code task s left
  left-Exits n = record {
    gone = ap (λ y. y.current) (adopt_system (s.tcbs task).children d);
    queue = ap (λ y. y.ready_queue) (adopt_system (s.tcbs task).children d);
    alive = ap (λ y. y.live) (adopt_system (s.tcbs task).children d);
    dead = ap (λ t. t.task_status) left_task ∙ ap (λ t. t.task_status) x_task;
    code_kept = ap (λ t. t.exit_code) left_task ∙ ap (λ t. t.exit_code) x_task;
    childless = ap (λ t. t.children) left_task;
    inherited = left-children s.initproc n ∙ then_same s.initproc _ _;
    children_kept = λ h p q. left-children h p ∙ else_other h s.initproc q _ _;
    parents = left-parent;
    others = λ h p.
        x_other h p
        ∙ ap {A = Tcb} {B = Tcb}
            (λ t. record (s.tcbs h) { parent = t.parent; children = t.children })
            (sym (left_other h p));
  }

  -- The data pages that are given back are those of the task as it was.
  same_set :
      memory_set ((modify task without_children x).tcbs task) (modify task without_children x)
      ≡ memory_set (s.tcbs task) s
  same_set =
      ap {A = Tcb} {B = MemorySet} (λ t. memory_set t (modify task without_children x))
        (put_same task without_children x.tcbs ∙ ap without_children x_task)
      ∙ ap {A = System} {B = MemorySet} (memory_set (s.tcbs task))
          (adopt_system (s.tcbs task).children d)

  abbrev from_task : ℕ → Run System
  from_task t =
      recycled t (childless code t s)
        (memory_set ((childless code t s).tcbs t) (childless code t s))

  abbrev emptied : Bool → System
  emptied b = modify task without_children (if b then d else x)

  run_through :
      s.current ≡ some task
      → ((s.tcbs task).pid == (s.tcbs s.initproc).pid) ≡ false
      → MemorySet.recycle_data_pages (memory_set (s.tcbs task) s) ≡ ok m
      → exit_current_and_run_next code s ≡ ok left
  unfolding exit_current_and_run_next
  run_through c n r =
      ap {A = Option ℕ} {B = Run System} (λ o. unwrap o >>= from_task) c
      ∙ (ap {A = Bool} {B = Run System}
            (λ b. recycled task (emptied b) (memory_set ((emptied b).tcbs task) (emptied b))) n
          ∙ (ap (recycled task (emptied false)) same_set
              ∙ ap {A = Run MemorySet} {B = Run System}
                  (λ q. q >>= λ m'. ok (set_memory task m' (emptied false))) r))

other_pid : (a b : ℕ) → a ≢ b → (a == b) ≡ false
other_pid a b n = ground arith

-- A running task whose identifier is not that of the first process, and whose data pages the frame
-- allocator takes back, exits: it is left a zombie with its code, its children are appended to those of
-- the first process, which becomes their parent, every other block and the ready queue stay, and its
-- data pages go back.
pub exit_current_lem :
    (code task : ℕ) (s : System) (m : MemorySet)
    → s.current ≡ some task
    → (s.tcbs task).pid ≢ (s.tcbs s.initproc).pid
    → MemorySet.recycle_data_pages (memory_set (s.tcbs task) s) ≡ ok m
    → (s' : System) × (exit_current_and_run_next code s ≡ ok s')
      × Exits code task s s'
      × (memory_set (s'.tcbs task) s' ≡ m)
unfolding exit_current_and_run_next
exit_current_lem code task s m c n r = (
  left code task s m,
  run_through code task s m c (other_pid _ _ n) r,
  left-Exits code task s m (λ e. n (ap (λ i. (s.tcbs i).pid) (sym e))),
  ap {A = Tcb} {B = MemorySet} (λ t. memory_set t (left code task s m)) (left_task code task s m),
)
