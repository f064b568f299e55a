-- ===== src/Task/FdTable/Alloc.antt =====
-- `alloc_fd` gives the least free descriptor.
use r_corev.Prelude.{
  ℕ, zero, suc, ◌+◌, ◌-◌, ◌<◌, ◌≤◌, ◌≡◌, ◌≢◌, refl, true, false, Option, none, some, [], ◌∷◌, ◌++◌,
  length, length-append, arith, Bool-cases, Option-cases, inl, inr,
}
use r_corev.Task.FdTable.{FdTable, is_none, find_free, alloc_fd, entry}

-- `fd` is the least free descriptor of `t`, and `t'` differs from `t` in its length only.
pub record LeastFree {F : Type 0} (t : FdTable F) (fd : ℕ) (t' : FdTable F) : Type 0 where
  pub place : fd < length t'
  pub free : entry t fd ≡ none
  pub below : (i : ℕ) → i < fd → entry t i ≢ none
  pub same : (i : ℕ) → entry t' i ≡ entry t i

some_of : {F : Type 0} (x : Option F) → is_none x ≡ false → x ≢ none
some_of none h e = cc
some_of (some f) h e = cc

none_of : {F : Type 0} (x : Option F) → is_none x ≡ true → x ≡ none
none_of none h = refl
none_of (some f) h = cc

-- What `find_free` finds, counted from `pos`.
abbrev Found : {F : Type 0} → ℕ → FdTable F → Option ℕ → Type 0
Found pos t none = (i : ℕ) → i < length t → entry t i ≢ none
Found pos t (some fd) =
    (k : ℕ) × (fd ≡ pos + k)
    × (k < length t)
    × (entry t k ≡ none)
    × ((i : ℕ) → i < k → entry t i ≢ none)

Found-used :
    {F : Type 0} (pos : ℕ) (x : Option F) (t : FdTable F) (r : Option ℕ)
    → is_none x ≡ false
    → Found (pos + 1) t r
    → Found pos (x ∷ t) r
Found-used {F} pos x t none n f = later
  where
    later : (i : ℕ) → i < suc (length t) → entry (x ∷ t) i ≢ none
    later zero l = some_of x n
    later (suc i) l = f i (omega arith)
Found-used {F} pos x t (some fd) n (k, e, l, z, b) = (suc k, omega arith, omega arith, z, below)
  where
    below : (i : ℕ) → i < suc k → entry (x ∷ t) i ≢ none
    below zero m = some_of x n
    below (suc i) m = b i (omega arith)

find_free-Found : {F : Type 0} (pos : ℕ) (t : FdTable F) → Found pos t (find_free pos t)
unfolding find_free
find_free-Found pos [] = λ i l. absurd (omega arith)
find_free-Found pos (x ∷ t) = elim (Bool-cases (is_none x)) [
  | inl n ↦ rw n (0, omega arith, omega arith, none_of x n, λ i l. absurd (omega arith))
  | inr n ↦ rw n (Found-used pos x t (find_free (pos + 1) t) n (find_free-Found (pos + 1) t))
]

pub entry-past : {F : Type 0} (t : FdTable F) (i : ℕ) → length t ≤ i → entry t i ≡ none
entry-past [] i h = refl
entry-past (x ∷ t) zero h = absurd (omega arith)
entry-past (x ∷ t) (suc i) h = entry-past t i (omega arith)

entry-push : {F : Type 0} (t : FdTable F) (i : ℕ) → entry (t ++ (none ∷ [])) i ≡ entry t i
entry-push [] zero = refl
entry-push [] (suc i) = refl
entry-push (x ∷ t) zero = refl
entry-push (x ∷ t) (suc i) = entry-push t i

alloc_fd-old :
    {F : Type 0} (t : FdTable F) (fd : ℕ) → find_free 0 t ≡ some fd → alloc_fd t ≡ (fd, t)
unfolding alloc_fd
alloc_fd-old t fd h = rw (h, alloc_fd) refl

alloc_fd-new :
    {F : Type 0} (t : FdTable F)
    → find_free 0 t ≡ none
    → alloc_fd t ≡ (length (t ++ (none ∷ [])) - 1, t ++ (none ∷ []))
unfolding alloc_fd
alloc_fd-new t h = rw (h, alloc_fd) refl

-- `alloc_fd` returns the least descriptor that no file has, extends the table to it at most, and
-- leaves every descriptor with the file that it had.
pub alloc_fd_lem : {F : Type 0} (t : FdTable F) → LeastFree t (alloc_fd t).0 (alloc_fd t).1
alloc_fd_lem t = elim (Option-cases (find_free 0 t)) [
  | inr (fd, h) ↦ rw (alloc_fd-old t fd h) (old fd (rw h at found))
  | inl h ↦ rw (alloc_fd-new t h) (pushed (rw h at found))
]
  where
    found : Found 0 t (find_free 0 t)
    found = find_free-Found 0 t

    old : (fd : ℕ) → Found 0 t (some fd) → LeastFree t fd t
    old fd (k, e, l, z, b) =
        let ek : k ≡ fd = omega arith in
        rw (← ek) (record { place = l; free = z; below = b; same = λ i. refl })

    pushed : Found 0 t none → LeastFree t (length (t ++ (none ∷ [])) - 1) (t ++ (none ∷ []))
    pushed f =
        let e : length (t ++ (none ∷ [])) - 1 ≡ length t =
          omega (arith, length-append t (none ∷ [])) in
        rw e (record {
          place = omega (arith, length-append t (none ∷ []));
          free = entry-past t (length t) (omega arith);
          below = f;
          same = entry-push t;
        })
