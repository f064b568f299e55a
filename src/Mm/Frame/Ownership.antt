-- ===== src/Mm/Frame/Ownership.antt =====
-- Who owns a frame: each frame of the range is held by one tracker, waits in `recycled`, or was
-- never handed out.
use r_corev.Prelude.{
  ℕ, ◌+◌, ◌-◌, ◌≤◌, ◌<◌, ◌≡◌, refl, inl, inr, Option, none, some, List, [], ◌∷◌, length, get_elem?,
  ◌==◌, count, find_eq-none, find_eq-some, inside, inside_grow, remove_at, count-remove_at,
  length-remove_at, Run, ok, panic, ◌>>=◌, arith, Option-cases, Bool-cases, ap, ◌∙◌,
}
use r_corev.Mm.Frame.{
  StackFrameAllocator, new, init, alloc, dealloc, usable_frames, Memory, clean, page_size,
  frame_alloc,
}

-- `held` are the frames of the live trackers, `lo` is where the range began.
pub record Owns (lo : ℕ) (a : StackFrameAllocator) (held : List ℕ) : Type 0 where
  pub low : lo ≤ a.current
  pub high : a.current ≤ a.end
  pub once : (p : ℕ) → count p held + count p a.recycled ≡ inside lo a.current p
  pub total : length held + length a.recycled ≡ a.current - lo

pub init-Owns : (l r : ℕ) → l ≤ r → Owns l (init new l r) []
unfolding init new count inside
init-Owns l r h = record {
  low = omega arith;
  high = h;
  once = λ p. ground arith;
  total = omega arith;
}

-- What `alloc` hands out: a frame of the range that no tracker holds, or nothing when all are held.
abbrev pub Allocated : ℕ → StackFrameAllocator → List ℕ → Option ℕ × StackFrameAllocator → Type 0
Allocated lo a held (some p, a') =
    (lo ≤ p) × (p < a.end) × (count p held ≡ 0) × Owns lo a' (p ∷ held) × (a'.end ≡ a.end)
Allocated lo a held (none, a') = (a' ≡ a) × (length held ≡ a.end - lo)

popped_in :
    (lo c p : ℕ) (held rest : List ℕ)
    → count p held + count p (p ∷ rest) ≡ inside lo c p
    → (lo ≤ p) × (p < c) × (count p held ≡ 0)
unfolding count inside
popped_in lo c p held rest h = ground arith

inside_top : (lo c : ℕ) → inside lo c (c + 1 - 1) ≡ 0
unfolding inside
inside_top lo c = ground arith

abbrev allocator : ℕ → ℕ → List ℕ → StackFrameAllocator
allocator c e recycled = record { current = c; end = e; recycled = recycled }

alloc_parts :
    (lo c e : ℕ) (recycled held : List ℕ)
    → Owns lo (allocator c e recycled) held
    → Allocated lo (allocator c e recycled) held (alloc (allocator c e recycled))
unfolding alloc count
alloc_parts lo c e (p ∷ rest) held v =
    let at : (lo ≤ p) × (p < c) × (count p held ≡ 0) = popped_in lo c p held rest (v.once p) in
    (
      at.0,
      omega arith,
      at.2,
      record {
        low = v.low;
        high = v.high;
        once = λ q. omega (arith, v.once q);
        total = omega arith;
      },
      refl,
    )
alloc_parts lo c e [] held v = elim (Bool-cases (c == e)) [
  | inl z ↦ rw z (refl, ground arith)
  | inr z ↦ rw z (
    omega arith,
    ground arith,
    ground (arith, v.once (c + 1 - 1), inside_top lo c),
    record {
      low = omega arith;
      high = ground arith;
      once = λ q. ground (arith, v.once q, inside_grow lo c q v.low);
      total = omega arith;
    },
    refl,
  )
]

-- `alloc` of an allocator whose frames are accounted for hands out a frame of the range that no
-- tracker holds, which the new tracker then holds; it fails exactly when every frame is held.
pub alloc-Owns :
    (lo : ℕ) (a : StackFrameAllocator) (held : List ℕ)
    → Owns lo a held
    → Allocated lo a held (alloc a)
alloc-Owns lo a held v = alloc_parts lo a.current a.end a.recycled held v

held_facts :
    (lo k p : ℕ) (a : StackFrameAllocator) (held : List ℕ)
    → get_elem? held k ≡ some p
    → Owns lo a held
    → (p < a.current) × (count p a.recycled ≡ 0)
unfolding inside
held_facts lo k p a held h v = ground (arith, v.once p, count-remove_at k p p held h)

-- A frame that a tracker holds can be given back: no panic, and the tracker holds it no more.
pub dealloc-Owns :
    (lo k p : ℕ) (a : StackFrameAllocator) (held : List ℕ)
    → get_elem? held k ≡ some p
    → Owns lo a held
    → (a' : StackFrameAllocator) × (dealloc a p ≡ ok a')
      × Owns lo a' (remove_at k held)
      × (a'.end ≡ a.end)
unfolding dealloc count
dealloc-Owns lo k p a held h v = (
  record a { recycled = p ∷ a.recycled },
  ground (arith, held_facts lo k p a held h v, find_eq-none p a.recycled),
  record {
    low = v.low;
    high = v.high;
    once = λ q. ground (arith, v.once q, count-remove_at k q p held h);
    total = omega (arith, v.total, length-remove_at k p held h);
  },
  refl,
)

-- Where the frames are accounted for, a frame from the start of the range on that no tracker holds cannot be given back: the kernel stops.
pub dealloc-panic :
    (lo p : ℕ) (a : StackFrameAllocator) (held : List ℕ)
    → Owns lo a held
    → lo ≤ p
    → count p held ≡ 0
    → dealloc a p ≡ panic
unfolding dealloc inside
dealloc-panic lo p a held v h z = ground (arith, v.once p, find_eq-some p a.recycled)

-- What is usable and what is held make up the range.
pub usable_frames-Owns :
    (lo : ℕ) (a : StackFrameAllocator) (held : List ℕ)
    → Owns lo a held
    → usable_frames a + length held ≡ a.end - lo
unfolding usable_frames
usable_frames-Owns lo a held v = omega (arith, v.total, v.low, v.high)

-- The kernel's use of the allocator: trackers are made by `frame_alloc`, and the `k`-th live one is
-- dropped. A request that cannot be met makes no tracker.
pub data Event : Type 0 where
  allocs : Event
  drops : ℕ → Event

pub record State : Type 0 where
  pub allocator : StackFrameAllocator
  pub memory : Memory
  pub held : List ℕ

granted : State → Option ℕ × StackFrameAllocator × Memory → State
granted s (none, a, mem) = record { allocator = a; memory = mem; held = s.held }
granted s (some p, a, mem) = record { allocator = a; memory = mem; held = p ∷ s.held }

pub step : Event → State → Run State
unfolding granted
step allocs s = ok (granted s (frame_alloc s.allocator s.memory))
step (drops k) s = elim (get_elem? s.held k) [
  | none ↦ ok s
  | some p ↦ do
    a ← dealloc s.allocator p
    ok (record s { allocator = a; held = remove_at k s.held })
]

pub run : List Event → State → Run State
run [] s = ok s
run (e ∷ es) s = step e s >>= run es

granted-Owns :
    (lo : ℕ) (s : State) (r : Option ℕ × StackFrameAllocator) (mem : Memory)
    → Allocated lo s.allocator s.held r
    → Owns lo s.allocator s.held
    → Owns lo (granted s (r.0, r.1, mem)).allocator (granted s (r.0, r.1, mem)).held
      × ((granted s (r.0, r.1, mem)).allocator.end ≡ s.allocator.end)
unfolding granted
granted-Owns lo s (some p, a) mem h v = (h.3, h.4)
granted-Owns lo s (none, a) mem h v = (rw h.0 v, rw h.0 refl)

step-Owns :
    (lo : ℕ) (e : Event) (s : State)
    → Owns lo s.allocator s.held
    → (s' : State) × (step e s ≡ ok s')
      × Owns lo s'.allocator s'.held
      × (s'.allocator.end ≡ s.allocator.end)
unfolding step frame_alloc
step-Owns lo allocs s v =
    let g = granted-Owns lo s (alloc s.allocator) _ (alloc-Owns lo s.allocator s.held v) v in
    (_, refl, g.0, g.1)
step-Owns lo (drops k) s v = elim (Option-cases (get_elem? s.held k)) [
  | inl e ↦ (s, rw (e, step) refl, v, refl)
  | inr (p, e) ↦
      let d = dealloc-Owns lo k p s.allocator s.held e v in
      (record s { allocator = d.0; held = remove_at k s.held }, rw (e, step, d.1) refl, d.2, d.3)
]

-- From a state whose frames are accounted for, no history of allocations and drops panics. At its end
-- the frames are accounted for again: those held and recycled are distinct and lie in the range, and
-- the usable frames and the held ones make up the range.
pub run-Owns :
    (lo : ℕ) (es : List Event) (s : State)
    → Owns lo s.allocator s.held
    → (s' : State) × (run es s ≡ ok s')
      × Owns lo s'.allocator s'.held
      × (usable_frames s'.allocator + length s'.held ≡ s.allocator.end - lo)
unfolding run
run-Owns lo [] s v = (s, refl, v, usable_frames-Owns lo s.allocator s.held v)
run-Owns lo (e ∷ es) s v =
    let (s1, q, w, z) = step-Owns lo e s v in
    let (s2, r, x, t) = run-Owns lo es s1 w in (s2, rw q r, x, t ∙ ap (λ n. n - lo) z)

-- Where the frames are accounted for, a frame handed out holds zeros in all its bytes, and no byte of a frame that is held has changed.
pub frame_alloc_lem :
    (lo f : ℕ) (a a' : StackFrameAllocator) (held : List ℕ) (mem mem' : Memory)
    → Owns lo a held
    → frame_alloc a mem ≡ (some f, a', mem')
    → ((i : ℕ) → i < page_size → mem' f i ≡ 0) × ((p i : ℕ) → 0 < count p held → mem' p i ≡ mem p i)
unfolding frame_alloc clean
frame_alloc_lem lo f a a' held mem mem' v e = granted_memory (alloc a) refl (alloc-Owns lo a held v)
  where
    other : (p n i : ℕ) → count p held ≡ 0 → 0 < count n held → clean mem p n i ≡ mem n i
    other p n i z h = elim (Bool-cases (n == p)) [
      | inl d ↦ let en : n ≡ p = ground arith in absurd (omega (arith, ap (λ x. count x held) en))
      | inr d ↦ rw d refl
    ]

    granted_memory :
        (r : Option ℕ × StackFrameAllocator)
        → alloc a ≡ r
        → Allocated lo a held r
        → ((i : ℕ) → i < page_size → mem' f i ≡ 0)
          × ((p i : ℕ) → 0 < count p held → mem' p i ≡ mem p i)
    granted_memory (none, b) q g =
        let e' : ◌≡◌ {A = Option ℕ × StackFrameAllocator × Memory} (none, b, mem)
            (some f, a', mem') =
          rw q at e in
        let bad : ◌≡◌ {A = Option ℕ} none (some f) = ap (λ r. r.0) e' in cc
    granted_memory (some p, b) q g =
        let e' : ◌≡◌ {A = Option ℕ × StackFrameAllocator × Memory} (some p, b, clean mem p)
            (some f, a', mem') =
          rw q at e in
        let ef : some p ≡ some f = ap (λ r. r.0) e' in
        let ep : p ≡ f = cc in
        let em : clean mem p ≡ mem' = ap (λ r. r.2) e' in
        (λ i h. rw (← em) (ground arith), λ n i h. rw (← em) (other p n i g.2 h))
