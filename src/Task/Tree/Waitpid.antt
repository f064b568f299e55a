-- ===== src/Task/Tree/Waitpid.antt =====
-- `sys_waitpid` of os/src/syscall/process.rs, in the version that does not block.
use r_corev.Prelude.{
  ℕ, zero, suc, ◌+◌, ◌-◌, ◌<◌, Bool, true, false, ◌&&◌, ◌||◌, Option, none, some, List, [], ◌∷◌,
  ◌==◌, if◌then◌else◌, Run, ok, ◌>>=◌, unwrap, ◌≡◌, ◌≢◌, refl, ap, ◌∙◌, arith, count, remove_at,
  count-remove_at, get_elem?, ◌⊎◌, inl, inr,
}
use r_corev.Task.Tree.Exit.{put_same, put_other}
use r_corev.Config.{minus_one}
use r_corev.Mm.Access
use r_corev.Mm.MemorySet
use r_corev.Task.Tree.{
  Tcb, System, put, modify, memory_set, is_zombie, waits_for, find_child, held_by_children, holders,
  write_i32, drop_child, store_exit_code, collect, sys_waitpid_non_blocking, reap, is_over, wait_in,
  take_out, remove_all,
}

find_child-none :
    (p : ℕ → Bool) (cs : List ℕ)
    → ((j c : ℕ) → get_elem? cs j ≡ some c → p c ≡ false)
    → find_child p cs ≡ none
unfolding find_child
find_child-none p [] h = refl
find_child-none p (c ∷ cs) h =
    let a : p c ≡ false = h 0 c refl in
    let b : find_child p cs ≡ none = find_child-none p cs (λ j d e. h (suc j) d e) in
    rw a (rw b refl)

find_child-first :
    (p : ℕ → Bool) (cs : List ℕ) (k c : ℕ)
    → get_elem? cs k ≡ some c
    → p c ≡ true
    → ((j d : ℕ) → j < k → get_elem? cs j ≡ some d → p d ≡ false)
    → find_child p cs ≡ some (k, c)
unfolding find_child
find_child-first p [] k c g t f = cc
find_child-first p (x ∷ cs) zero c g t f = let e : x ≡ c = cc in rw e (rw t refl)
find_child-first p (x ∷ cs) (suc k) c g t f =
    let a : p x ≡ false = f 0 x (ground arith) refl in
    let b : find_child p cs ≡ some (k, c) =
      find_child-first p cs k c g t (λ j d l e. f (suc j) d (ground arith) e) in
    rw a (rw b (ap {A = ℕ} {B = Option (ℕ × ℕ)} (λ i. some (i, c)) (omega arith)))

any_step :
    (b : Bool) (x : ℕ) {later : Option (ℕ × ℕ)}
    → (r : ℕ × ℕ) × (later ≡ some r)
    → (r : ℕ × ℕ) × ((if b
          then some (0, x)
          else elim later [ none ↦ none | some (k, found) ↦ some (k + 1, found) ])
        ≡ some r)
any_step true x w = ((0, x), refl)
any_step false x ((k, found), e) = ((k + 1, found), rw e refl)

find_child_any :
    (p : ℕ → Bool) (cs : List ℕ) (k c : ℕ)
    → get_elem? cs k ≡ some c
    → p c ≡ true
    → (r : ℕ × ℕ) × (find_child p cs ≡ some r)
unfolding find_child
find_child_any p [] k c g t = cc
find_child_any p (x ∷ cs) zero c g t = let e : x ≡ c = cc in ((0, x), rw e (rw t refl))
find_child_any p (x ∷ cs) (suc k) c g t = any_step (p x) x (find_child_any p cs k c g t)

-- What one change of a block does to the references.
held_other :
    (task c : ℕ) (f : Tcb → Tcb) (tcbs : ℕ → Tcb) (live : List ℕ)
    → count task live ≡ 0
    → held_by_children (put task f tcbs) c live ≡ held_by_children tcbs c live
unfolding held_by_children count
held_other task c f tcbs [] h = refl
held_other task c f tcbs (x ∷ xs) h =
    let n : x ≢ task = ground arith in
    let z : count task xs ≡ 0 = ground arith in
    let e : put task f tcbs x ≡ tcbs x = put_other task f tcbs x n in
    let r : held_by_children (put task f tcbs) c xs ≡ held_by_children tcbs c xs =
      held_other task c f tcbs xs z in
    rw e (rw r refl)

-- The head is the one place of the task, or it is another.
head_or_tail :
    (task x : ℕ) (xs : List ℕ)
    → count task (x ∷ xs) ≡ 1
    → ((x ≡ task) × (count task xs ≡ 0)) ⊎ ((x ≢ task) × (count task xs ≡ 1))
unfolding count
head_or_tail task x xs h = ground arith

held_once :
    (task c : ℕ) (f : Tcb → Tcb) (tcbs : ℕ → Tcb) (live : List ℕ)
    → count task live ≡ 1
    → count c (tcbs task).children ≡ count c (f (tcbs task)).children + 1
    → held_by_children tcbs c live ≡ held_by_children (put task f tcbs) c live + 1
unfolding held_by_children count
held_once task c f tcbs [] h e = ground arith
held_once task c f tcbs (x ∷ xs) h e = elim (head_or_tail task x xs h) [
  | inl (same, z) ↦
      let p : put task f tcbs task ≡ f (tcbs task) = put_same task f tcbs in
      let r : held_by_children (put task f tcbs) c xs ≡ held_by_children tcbs c xs =
        held_other task c f tcbs xs z in
      rw same (rw p (rw r (omega arith)))
  | inr (n, o) ↦
      let p : put task f tcbs x ≡ tcbs x = put_other task f tcbs x n in
      rw p (omega (arith, held_once task c f tcbs xs o e))
]

removed_step :
    (tcbs : ℕ → Tcb) (c x : ℕ) (b : Bool) (xs : List ℕ)
    → count c (tcbs x).children ≡ 0
    → held_by_children tcbs c xs ≡ 0
    → held_by_children tcbs c (if b then xs else x ∷ xs) ≡ 0
unfolding held_by_children
removed_step tcbs c x true xs a h = h
removed_step tcbs c x false xs a h = omega arith

held_removed :
    (tcbs : ℕ → Tcb) (c d : ℕ) (live : List ℕ)
    → held_by_children tcbs c live ≡ 0
    → held_by_children tcbs c (remove_all d live) ≡ 0
unfolding held_by_children
held_removed tcbs c d [] h = refl
held_removed tcbs c d (x ∷ xs) h =
    removed_step tcbs c x (x == d) (remove_all d xs) (omega arith)
      (held_removed tcbs c d xs (omega arith))

count-remove_all : (c : ℕ) (live : List ℕ) → count c (remove_all c live) ≡ 0
unfolding count
count-remove_all c [] = refl
count-remove_all c (x ∷ xs) = ground (arith, count-remove_all c xs)

-- The parent's vector was the one that held the child.
holders_left :
    (task k c : ℕ) (s : System)
    → get_elem? (s.tcbs task).children k ≡ some c
    → count task s.live ≡ 1
    → holders c s ≡ 1
    → holders c (modify task (take_out k) s) ≡ 0
unfolding holders
holders_left task k c s g l h =
    let e : count c (s.tcbs task).children ≡ count c (remove_at k (s.tcbs task).children) + 1 =
      ground (arith, count-remove_at k c c (s.tcbs task).children g) in
    omega (arith, held_once task c (take_out k) s.tcbs s.live l e)

-- The child at position `k` is the first zombie that is waited for.
pub record FirstZombie (pid task k c : ℕ) (s : System) : Type 0 where
  pub at_k : get_elem? (s.tcbs task).children k ≡ some c
  pub wanted : waits_for pid (s.tcbs c) ≡ true
  pub over : is_zombie (s.tcbs c) ≡ true
  pub first :
      (j d : ℕ)
      → j < k
      → get_elem? (s.tcbs task).children j ≡ some d
      → is_over pid (s.tcbs d) ≡ false

abbrev pub satp : ℕ → System → ℕ
satp task s = MemorySet.token (memory_set (s.tcbs task) s)

-- The state after the child was collected, its code stored at `pa`.
abbrev pub collected : ℕ → ℕ → ℕ → ℕ → System → System
collected task k c pa s = record (drop_child c (modify task (take_out k) s)) {
  bytes = write_i32 pa (s.tcbs c).exit_code s.bytes;
}

collect_lem :
    (task k c ptr pa : ℕ) (s : System)
    → holders c (modify task (take_out k) s) ≡ 0
    → Access.virtual_addr_writable (satp task s) ptr s.kernel.mem ≡ true
    → Access.translated_virtual_ptr (satp task s) ptr s.kernel.mem ≡ ok pa
    → pa ≢ 0
    → collect task k c ptr s ≡ ok ((s.tcbs c).pid, collected task k c pa s)
unfolding collect store_exit_code
collect_lem task k c ptr pa s h w p n =
    let z : (pa == 0) ≡ false = ground arith in rw h (rw w (rw p (rw z refl)))

abbrev wanted : ℕ → System → ℕ → Bool
wanted pid s p = waits_for pid (s.tcbs p)

abbrev over : ℕ → System → ℕ → Bool
over pid s p = is_over pid (s.tcbs p)

both : {a b : Bool} → a ≡ true → b ≡ true → (a && b) ≡ true
both p q = rw p q

same_first :
    (ptr task : ℕ) (s : System) (r : ℕ × ℕ) (o : Option (ℕ × ℕ))
    → reap ptr task s (some r) o ≡ reap ptr task s (some (0, 0)) o
same_first ptr task s r none = refl
same_first ptr task s r (some (k, c)) = refl

waits_as :
    (pid ptr task : ℕ) (s : System) {o : Option (ℕ × ℕ)}
    → s.current ≡ some task
    → (r : ℕ × ℕ) × (find_child (wanted pid s) (s.tcbs task).children ≡ some r)
    → find_child (over pid s) (s.tcbs task).children ≡ o
    → sys_waitpid_non_blocking pid ptr s ≡ reap ptr task s (some (0, 0)) o
unfolding sys_waitpid_non_blocking
waits_as pid ptr task s cur (r, a) b =
    ap {A = Option ℕ} {B = Run (ℕ × System)} (λ o. unwrap o >>= wait_in pid ptr s) cur
    ∙ (ap (λ o. reap ptr task s o (find_child (over pid s) (s.tcbs task).children)) a
        ∙ (same_first ptr task s r _ ∙ ap (reap ptr task s (some (0, 0))) b))

-- A running parent, one of the live blocks, waits; its child at position `k` is the first zombie that
-- it waits for and is held by the parent alone; the pointer is writable and leads to an address other
-- than 0. Then the call returns the child's identifier and never fails its assertion on the references;
-- the child leaves the vector, its code is stored at the address, and afterwards nothing holds the child.
pub sys_waitpid_lem :
    (pid ptr task k c pa : ℕ) (s : System)
    → s.current ≡ some task
    → FirstZombie pid task k c s
    → count task s.live ≡ 1
    → holders c s ≡ 1
    → Access.virtual_addr_writable (satp task s) ptr s.kernel.mem ≡ true
    → Access.translated_virtual_ptr (satp task s) ptr s.kernel.mem ≡ ok pa
    → pa ≢ 0
    → (sys_waitpid_non_blocking pid ptr s ≡ ok ((s.tcbs c).pid, collected task k c pa s))
      × ((holders c (collected task k c pa s) ≡ 0) × (count c (collected task k c pa s).live ≡ 0))
unfolding sys_waitpid_non_blocking holders
sys_waitpid_lem pid ptr task k c pa s cur f l h w p n =
    let z : holders c (modify task (take_out k) s) ≡ 0 = holders_left task k c s f.at_k l h in
    (
      waits_as pid ptr task s cur
            (find_child_any (wanted pid s) (s.tcbs task).children k c f.at_k f.wanted)
            (find_child-first (over pid s) (s.tcbs task).children k c f.at_k (both f.over f.wanted)
              f.first)
          ∙ collect_lem task k c ptr pa s z w p n,
      (
        omega (arith, held_removed (put task (take_out k) s.tcbs) c c s.live (omega arith)),
        count-remove_all c s.live,
      ),
    )

abbrev pub any_child : (ℕ → Bool) → List ℕ → Bool
any_child p [] = false
any_child p (c ∷ cs) = p c || any_child p cs

-- With no zombie that is waited for, the value is -1 or -2.
nothing_step :
    (b d : Bool) (x ptr task : ℕ) (s : System) (later : Option (ℕ × ℕ))
    → reap ptr task s later none ≡ ok (if d then minus_one - 1 else minus_one, s)
    → reap ptr task s
        (if b
          then some (0, x)
          else elim later [ none ↦ none | some (k, found) ↦ some (k + 1, found) ])
        none
      ≡ ok (if b || d then minus_one - 1 else minus_one, s)
nothing_step true d x ptr task s later h = refl
nothing_step false d x ptr task s none h = h
nothing_step false d x ptr task s (some r) h = h

nothing :
    (p : ℕ → Bool) (cs : List ℕ) (ptr task : ℕ) (s : System)
    → reap ptr task s (find_child p cs) none
      ≡ ok (if any_child p cs then minus_one - 1 else minus_one, s)
unfolding find_child
nothing p [] ptr task s = refl
nothing p (c ∷ cs) ptr task s =
    nothing_step (p c) (any_child p cs) c ptr task s (find_child p cs) (nothing p cs ptr task s)

-- A process waits and no child that it waits for is a zombie: the call returns -2 if it waits for a
-- child at all, and -1 if it does not; the state stays.
pub sys_waitpid_nothing :
    (pid ptr task : ℕ) (s : System)
    → s.current ≡ some task
    → ((j d : ℕ) → get_elem? (s.tcbs task).children j ≡ some d → is_over pid (s.tcbs d) ≡ false)
    → sys_waitpid_non_blocking pid ptr s
      ≡ ok (
        if any_child (λ c. waits_for pid (s.tcbs c)) (s.tcbs task).children
            then minus_one - 1
            else minus_one,
        s,
      )
unfolding sys_waitpid_non_blocking
sys_waitpid_nothing pid ptr task s cur h =
    ap {A = Option ℕ} {B = Run (ℕ × System)} (λ o. unwrap o >>= wait_in pid ptr s) cur
    ∙ (ap (reap ptr task s (find_child (wanted pid s) (s.tcbs task).children))
          (find_child-none (over pid s) (s.tcbs task).children h)
        ∙ nothing (wanted pid s) (s.tcbs task).children ptr task s)
