-- ===== src/Task/Pid/Live.antt =====
-- The identifiers of the live processes are distinct, and come back when the handles are dropped.
use r_corev.Prelude.{
  ℕ, ◌+◌, ◌-◌, ◌%◌, ◌≤◌, ◌<◌, ◌≡◌, refl, inl, inr, none, some, List, [], ◌∷◌, length, get_elem?,
  lt→ltb, ◌==◌, if◌then◌else◌, count, find_eq-none, inside, inside_grow, remove_at, count-remove_at,
  Run, ok, ◌>>=◌, arith, Option-cases,
}
use r_corev.Config.{usize_mod}
use r_corev.Task.Pid.{PidAllocator, new, alloc, dealloc}

-- `live` are the identifiers of the handles that exist.
abbrev pub Tracks : PidAllocator → List ℕ → Type 0
Tracks a live = (p : ℕ) → count p live + count p a.recycled ≡ inside 0 a.current p

pub inside_small : (lo hi p : ℕ) → inside lo hi p ≤ 1
unfolding inside
inside_small lo hi p = ground arith

pub new-Tracks : Tracks new []
unfolding new count inside
new-Tracks p = ground arith

inside_top : (c : ℕ) → inside 0 c c ≡ 0
unfolding inside
inside_top c = ground arith

no_wrap : (c : ℕ) → c + 1 < usize_mod → ((c + 1) % usize_mod + usize_mod - 1) % usize_mod ≡ c
no_wrap c h = omega arith

allocator : ℕ → List ℕ → PidAllocator
allocator c recycled = record { current = c; recycled = recycled }

alloc_parts :
    (c : ℕ) (recycled live : List ℕ)
    → Tracks (allocator c recycled) live
    → c + 1 < usize_mod
    → (count (alloc (allocator c recycled)).0 live ≡ 0)
      × Tracks (alloc (allocator c recycled)).1 ((alloc (allocator c recycled)).0 ∷ live)
      × ((alloc (allocator c recycled)).1.current ≤ c + 1)
unfolding alloc count allocator
alloc_parts c (p ∷ rest) live v h =
    (omega (arith, v p, once, self), λ q. omega (arith, v q), omega arith)
  where
    self : ◌≡◌ {A = ℕ} (if p == p then 1 else 0) 1
    self = ground arith

    once : inside 0 c p ≤ 1
    once = inside_small 0 c p
alloc_parts c [] live v h = rw (no_wrap c h) (
  omega (arith, v c, inside_top c),
  λ q. rw next (omega (arith, v q, inside_grow 0 c q (omega arith))),
  omega arith,
)
  where
    next : (c + 1) % usize_mod ≡ c + 1
    next = omega arith

-- A new handle's identifier differs from those of all live handles.
pub alloc-Tracks :
    (a : PidAllocator) (live : List ℕ)
    → Tracks a live
    → a.current + 1 < usize_mod
    → (count (alloc a).0 live ≡ 0)
      × Tracks (alloc a).1 ((alloc a).0 ∷ live)
      × ((alloc a).1.current ≤ a.current + 1)
unfolding allocator
alloc-Tracks a live v h = alloc_parts a.current a.recycled live v h

live_facts :
    (k p : ℕ) (a : PidAllocator) (live : List ℕ)
    → get_elem? live k ≡ some p
    → Tracks a live
    → (p < a.current) × (count p a.recycled ≡ 0)
unfolding inside
live_facts k p a live h v = ground (arith, v p, count-remove_at k p p live h)

-- The identifier of a live handle can be given back.
dealloc-Tracks :
    (k p : ℕ) (a : PidAllocator) (live : List ℕ)
    → get_elem? live k ≡ some p
    → Tracks a live
    → (dealloc p a ≡ ok (record a { recycled = p ∷ a.recycled }))
      × Tracks (record a { recycled = p ∷ a.recycled }) (remove_at k live)
unfolding dealloc count
dealloc-Tracks k p a live h v =
    let f = live_facts k p a live h v in
    (
      rw (lt→ltb p a.current f.0, find_eq-none p a.recycled f.1) refl,
      λ q. ground (arith, v q, count-remove_at k q p live h),
    )

-- Processes start, and the handle of the `k`-th live one is dropped.
pub data Event : Type 0 where
  starts : Event
  ends : ℕ → Event

pub record State : Type 0 where
  pub allocator : PidAllocator
  pub live : List ℕ

pub step : Event → State → Run State
step starts s =
    let (pid, a) = alloc s.allocator in ok (record { allocator = a; live = pid ∷ s.live })
step (ends k) s = elim (get_elem? s.live k) [
  | none ↦ ok s
  | some p ↦ do a ← dealloc p s.allocator; ok (record { allocator = a; live = remove_at k s.live })
]

pub run : List Event → State → Run State
run [] s = ok s
run (e ∷ es) s = step e s >>= run es

step-Tracks :
    (e : Event) (s : State)
    → Tracks s.allocator s.live
    → s.allocator.current + 1 < usize_mod
    → (s' : State) × (step e s ≡ ok s')
      × Tracks s'.allocator s'.live
      × (s'.allocator.current ≤ s.allocator.current + 1)
unfolding step
step-Tracks starts s v h = let t = alloc-Tracks s.allocator s.live v h in (_, refl, t.1, t.2)
step-Tracks (ends k) s v h = elim (Option-cases (get_elem? s.live k)) [
  | inl e ↦ (s, rw (e, step) refl, v, omega arith)
  | inr (p, e) ↦
      let d = dealloc-Tracks k p s.allocator s.live e v in
      (_, rw (e, step, d.0) refl, d.1, omega arith)
]

run-Tracks :
    (es : List Event) (s : State)
    → Tracks s.allocator s.live
    → s.allocator.current + length es + 1 < usize_mod
    → (s' : State) × (run es s ≡ ok s') × Tracks s'.allocator s'.live
unfolding run
run-Tracks [] s v h = (s, refl, v)
run-Tracks (e ∷ es) s v h =
    let (s1, q, w, c) = step-Tracks e s v (omega arith) in
    let (s2, r, x) = run-Tracks es s1 w (omega (arith, c)) in (s2, rw q r, x)

-- From the start of the kernel, no history of fewer than `2 ^ 64 - 1` starts and ends of processes
-- panics, and at its end the identifiers of the live processes are distinct.
pub live_distinct :
    (es : List Event)
    → length es + 1 < usize_mod
    → (s : State) × (run es (record { allocator = new; live = [] }) ≡ ok s)
      × ((p : ℕ) → count p s.live ≤ 1)
unfolding new
live_distinct es h =
    let (s, r, t) =
      run-Tracks es (record { allocator = new; live = [] }) new-Tracks (new_current h) in
    (s, r, λ p. omega (arith, t p, inside_small 0 s.allocator.current p))
  where
    new_current : length es + 1 < usize_mod → new.current + length es + 1 < usize_mod
    new_current h = omega arith
