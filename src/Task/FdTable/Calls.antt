-- ===== src/Task/FdTable/Calls.antt =====
-- The system calls on the table of descriptors.
use r_corev.Config.{minus_one}
use r_corev.Prelude.{
  ℕ, zero, suc, ◌<◌, ◌≤◌, ◌≡◌, ◌≢◌, refl, sym, ap, ◌∙◌, true, false, Option, none, some, [], ◌∷◌,
  length, set, leb, ◌==◌, if◌then◌else◌, arith, Bool-cases, inl, inr,
}
use r_corev.Mm.Access
use r_corev.Task.FdTable.{FdTable, alloc_fd, entry, sys_close, sys_dup}
use r_corev.Task.FdTable.Alloc.{alloc_fd_lem, entry-past}

entry-set :
    {F : Type 0} (t : FdTable F) (fd i : ℕ) (v : Option F)
    → fd < length t
    → entry (set t fd v) i ≡ (if fd == i then v else entry t i)
entry-set [] fd i v h = absurd (omega arith)
entry-set (x ∷ t) zero zero v h = refl
entry-set (x ∷ t) zero (suc i) v h = let n : (0 == suc i) ≡ false = ground arith in rw n refl
entry-set (x ∷ t) (suc fd) zero v h = let n : (suc fd == 0) ≡ false = ground arith in rw n refl
entry-set (x ∷ t) (suc fd) (suc i) v h =
    let n : (suc fd == suc i) ≡ (fd == i) = ground arith in rw n (entry-set t fd i v (omega arith))

-- From `t` to `t'` the entry of `fd` became `v`, and no other changed.
pub record Sets {F : Type 0} (fd : ℕ) (v : Option F) (t t' : FdTable F) : Type 0 where
  pub here : entry t' fd ≡ v
  pub others : (i : ℕ) → i ≢ fd → entry t' i ≡ entry t i

set-Sets :
    {F : Type 0} (t t1 : FdTable F) (fd : ℕ) (v : Option F)
    → fd < length t1
    → ((i : ℕ) → entry t1 i ≡ entry t i)
    → Sets fd v t (set t1 fd v)
set-Sets t t1 fd v h s = record {
  here = let self : (fd == fd) ≡ true = ground arith in entry-set t1 fd fd v h ∙ rw self refl;
  others = λ i ne. entry-set t1 fd i v h ∙ elim (Bool-cases (fd == i)) [
    | inl e ↦ let fi : fd ≡ i = ground arith in absurd (ne (sym fi))
    | inr e ↦ rw e (s i)
  ];
}

open_below :
    {F : Type 0} (t : FdTable F) (fd : ℕ) (f : F) → entry t fd ≡ some f → leb (length t) fd ≡ false
open_below t fd f h = elim (Bool-cases (leb (length t) fd)) [
  | inl e ↦
      let past : length t ≤ fd = ground arith in
      let bad : none ≡ some f = sym (entry-past t fd past) ∙ h in cc
  | inr e ↦ e
]

-- `close` and `dup` of a descriptor that no file has, in the table or past its end, return -1 and
-- change nothing.
pub bad_descriptor :
    {F : Type 0} (fd : ℕ) (t : FdTable F)
    → entry t fd ≡ none
    → (sys_close fd t ≡ (minus_one, t)) × (sys_dup fd t ≡ (minus_one, t))
unfolding sys_close sys_dup
bad_descriptor fd t h = elim (Bool-cases (leb (length t) fd)) [
  | inl e ↦ rw e (refl, refl)
  | inr e ↦ rw (e, h) (refl, refl)
]

-- `close` of an open descriptor returns 0 and frees it; every other descriptor keeps its file.
pub sys_close_lem :
    {F : Type 0} (fd : ℕ) (f : F) (t : FdTable F)
    → entry t fd ≡ some f
    → (t' : FdTable F) × (sys_close fd t ≡ (0, t')) × Sets fd none t t'
unfolding sys_close
sys_close_lem fd f t h = (
  set t fd none,
  rw (open_below t fd f h, h) refl,
  set-Sets t t fd none (ground (arith, open_below t fd f h)) (λ i. refl),
)

-- `dup` of an open descriptor returns the least descriptor that was free, which has the same file
-- afterwards; every other descriptor keeps its file.
pub sys_dup_lem :
    {F : Type 0} (fd : ℕ) (f : F) (t : FdTable F)
    → entry t fd ≡ some f
    → (new_fd : ℕ) × (t' : FdTable F) × (sys_dup fd t ≡ (new_fd, t'))
      × (entry t new_fd ≡ none)
      × ((i : ℕ) → i < new_fd → entry t i ≢ none)
      × Sets new_fd (some f) t t'
unfolding sys_dup
sys_dup_lem fd f t h =
    let a = alloc_fd_lem t in
    (
      (alloc_fd t).0,
      set (alloc_fd t).1 (alloc_fd t).0 (some f),
      rw (open_below t fd f h, h)
          (ap (λ v. ((alloc_fd t).0, set (alloc_fd t).1 (alloc_fd t).0 v)) (a.same fd ∙ h)),
      a.free,
      a.below,
      set-Sets t (alloc_fd t).1 (alloc_fd t).0 (some f) a.place a.same,
    )

-- The pipe's ends are in the two least descriptors that were free, the lower one for the read end.
pub record Opens {F : Type 0} (pipe_read pipe_write : F) (r w : ℕ) (t t' : FdTable F) : Type 0 where
  pub in_order : r < w
  pub read_free : entry t r ≡ none
  pub write_free : entry t w ≡ none
  pub below : (i : ℕ) → i < w → i ≢ r → entry t i ≢ none
  pub read_end : entry t' r ≡ some pipe_read
  pub write_end : entry t' w ≡ some pipe_write
  pub others : (i : ℕ) → i ≢ r → i ≢ w → entry t' i ≡ entry t i

module _ {F : Type 0} (pipe_read pipe_write : F) (t : FdTable F) where
  abbrev r : ℕ
  r = (alloc_fd t).0

  abbrev t2 : FdTable F
  t2 = set (alloc_fd t).1 r (some pipe_read)

  abbrev w : ℕ
  w = (alloc_fd t2).0

  abbrev t' : FdTable F
  t' = set (alloc_fd t2).1 w (some pipe_write)
