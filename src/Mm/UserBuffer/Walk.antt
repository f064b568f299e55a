-- ===== src/Mm/UserBuffer/Walk.antt =====
-- The iterator of a user buffer walks through the bytes of its slices in order.
use native.Mathlib.Numerals.{add-one}
use r_corev.Prelude.{
  ℕ, zero, suc, ◌+◌, ◌<◌, ◌≤◌, ◌≡◌, refl, ◌∙◌, sym, ◌⊎◌, inl, inr, none, some, List, [], ◌∷◌, ◌++◌,
  append_assoc, append-nil, true, false, get_elem?, get_or, set, take, drop, length, length-append,
  length-set, take-set-suc, drop-set-suc, drop-cons, take-all, drop-all, set-get_or,
  get_elem?-eq-get_or, subst, ltb, leb, leb→le, lt→ltb, ◌==◌, ok, arith, Bool-cases,
}
use r_corev.Mm.UserBuffer.{
  UserBuffer, UserBufferIterator, Place, load, store, next, into_iter, len, sum_len,
}

abbrev pub flatten : List (List ℕ) → List ℕ
flatten [] = []
flatten (b ∷ bs) = b ++ flatten bs

abbrev pub AllNonEmpty : List (List ℕ) → Type 0
AllNonEmpty [] = Unit {0}
AllNonEmpty (b ∷ bs) = (0 < length b) × AllNonEmpty bs

-- The bytes before and from byte `i` of slice `c`.
abbrev before : List (List ℕ) → ℕ → ℕ → List ℕ
before [] c i = []
before (b ∷ bs) zero i = take i b
before (b ∷ bs) (suc c) i = b ++ before bs c i

abbrev from : List (List ℕ) → ℕ → ℕ → List ℕ
from [] c i = []
from (b ∷ bs) zero i = drop i b ++ flatten bs
from (b ∷ bs) (suc c) i = from bs c i

-- `i` is a byte of slice `c`, or both are past the end; the slices still to come are not empty.
abbrev At : List (List ℕ) → ℕ → ℕ → Type 0
At [] c i = Unit {0}
At (b ∷ bs) zero i = (i < length b) × AllNonEmpty bs
At (b ∷ bs) (suc c) i = At bs c i

abbrev slice_of : List (List ℕ) → ℕ → List ℕ
slice_of bs c = get_or bs c []

abbrev put : List (List ℕ) → ℕ → ℕ → ℕ → List (List ℕ)
put bs c i v = set bs c (set (slice_of bs c) i v)

-- One step of the iterator from byte `i` of slice `c`, after a write of `v` there.
record Stepped (bs : List (List ℕ)) (c i v c' i' : ℕ) : Type 0 where
  at : At (put bs c i v) c' i'
  past : before (put bs c i v) c' i' ≡ before bs c i ++ (v ∷ [])
  to_come : from bs c i ≡ get_or (slice_of bs c) i 0 ∷ from (put bs c i v) c' i'

At-start : (bs : List (List ℕ)) → AllNonEmpty bs → At bs 0 0
At-start [] h = tt
At-start (b ∷ bs) h = h

from-start : (bs : List (List ℕ)) → from bs 0 0 ≡ flatten bs
from-start [] = refl
from-start (b ∷ bs) = refl

before-start : (bs : List (List ℕ)) → before bs 0 0 ≡ []
before-start [] = refl
before-start (b ∷ bs) = refl

-- Within a slice.
step_inside :
    (bs : List (List ℕ)) (c i v : ℕ)
    → At bs c i
    → c < length bs
    → suc i < length (slice_of bs c)
    → Stepped bs c i v c (suc i)
step_inside [] c i v a h k = elim h [ ]
step_inside (b ∷ bs) zero i v a h k = record {
  at = (omega (arith, length-set b i v), a.1);
  past = take-set-suc b i v (omega arith);
  to_come = rw (drop-cons b i 0 (omega arith), drop-set-suc b i v) refl;
}
step_inside (b ∷ bs) (suc c) i v a h k =
    let s = step_inside bs c i v a (omega arith) k in
    record {
      at = s.at;
      past = rw s.past (sym (append_assoc b (before bs c i) (v ∷ [])));
      to_come = s.to_come;
    }

-- From the last byte of a slice to the first of the next.
step_across :
    (bs : List (List ℕ)) (c i v : ℕ)
    → At bs c i
    → c < length bs
    → suc i ≡ length (slice_of bs c)
    → Stepped bs c i v (suc c) 0
step_across [] c i v a h k = elim h [ ]
step_across (b ∷ bs) zero i v a h k = record {
  at = At-start bs a.1;
  past =
      rw
        (
          before-start bs,
          append-nil,
          ← take-set-suc b i v (omega arith),
          take-all (set b i v) (suc i) (omega (arith, length-set b i v)),
        )
        refl;
  to_come =
      rw (from-start bs, drop-cons b i 0 (omega arith), drop-all b (suc i) (omega arith)) refl;
}
step_across (b ∷ bs) (suc c) i v a h k =
    let s = step_across bs c i v a (omega arith) k in
    record {
      at = s.at;
      past = rw s.past (sym (append_assoc b (before bs c i) (v ∷ [])));
      to_come = s.to_come;
    }

lookup_slice :
    (bs : List (List ℕ)) (c i : ℕ) → At bs c i → c < length bs → i < length (slice_of bs c)
lookup_slice [] c i a h = elim h [ ]
lookup_slice (b ∷ bs) zero i a h = a.0
lookup_slice (b ∷ bs) (suc c) i a h = lookup_slice bs c i a (omega arith)

from-past : (bs : List (List ℕ)) (c i : ℕ) → length bs ≤ c → from bs c i ≡ []
from-past [] c i h = refl
from-past (b ∷ bs) zero i h = elim h [ ]
from-past (b ∷ bs) (suc c) i h = from-past bs c i (omega arith)

put_back : (bs : List (List ℕ)) (c i : ℕ) → put bs c i (get_or (slice_of bs c) i 0) ≡ bs
put_back bs c i = rw (set-get_or (slice_of bs c) i 0) (set-get_or bs c [])

-- The bytes that the iterator has passed, and those that are left.
abbrev pub passed : UserBufferIterator → List ℕ
passed it = before it.buffers it.current_buffer it.current_idx

abbrev pub rest : UserBufferIterator → List ℕ
rest it = from it.buffers it.current_buffer it.current_idx

abbrev pub IsAt : UserBufferIterator → Type 0
IsAt it = At it.buffers it.current_buffer it.current_idx

abbrev pub here : UserBufferIterator → Place
here it = (it.current_buffer, it.current_idx)

-- `it'` has passed one more byte than `it`: the byte that was there, or the one written there.
abbrev pub Moved : UserBufferIterator → UserBufferIterator → ℕ → Type 0
Moved it it' v =
    IsAt it' × (passed it' ≡ passed it ++ (v ∷ [])) × (rest it ≡ load it (here it) ∷ rest it')

pub record Advanced (it it' : UserBufferIterator) : Type 0 where
  pub written : (v : ℕ) → Moved it (store it' (here it) v) v
  pub unchanged : Moved it it' (load it (here it))
  pub same_byte : load it' (here it) ≡ load it (here it)

to_advanced :
    (it it' : UserBufferIterator)
    → it'.buffers ≡ it.buffers
    → ((v : ℕ)
        → Stepped it.buffers it.current_buffer it.current_idx v it'.current_buffer it'.current_idx)
    → Advanced it it'
to_advanced it it' e s = record { written = written; unchanged = unchanged; same_byte = rw e refl }
  where
    written : (v : ℕ) → Moved it (store it' (here it) v) v
    written v = rw e ((s v).at, (s v).past, (s v).to_come)

    whole : put it'.buffers it.current_buffer it.current_idx (load it (here it)) ≡ it'.buffers
    whole = rw e (put_back it.buffers it.current_buffer it.current_idx)

    same : store it' (here it) (load it (here it)) ≡ it'
    same = λ k. record {
      buffers = whole k;
      current_buffer = it'.current_buffer;
      current_idx = it'.current_idx;
    }

    unchanged : Moved it it' (load it (here it))
    unchanged = subst (λ t. Moved it t (load it (here it))) same (written (load it (here it)))

abbrev pub NextCases : UserBufferIterator → Type 0
NextCases it =
    ((rest it ≡ []) × (next it ≡ ok (none, it)))
    ⊎ ((it' : UserBufferIterator) × (next it ≡ ok (some (here it), it')) × Advanced it it')

next_inside :
    (it : UserBufferIterator) → IsAt it → it.current_buffer < length it.buffers → NextCases it
unfolding next
next_inside it a h = elim (Bool-cases (it.current_idx + 1 == length slice)) [
  | inl e ↦ inr (
    record it { current_idx = 0; current_buffer = it.current_buffer + 1 },
    rw (test, got, bound, e) refl,
    to_advanced it _ refl λ v.
        rw add-one
          (step_across it.buffers it.current_buffer it.current_idx v a h (ground (arith, here_in))),
  )
  | inr e ↦ inr (
    record it { current_idx = it.current_idx + 1 },
    rw (test, got, bound, e) refl,
    to_advanced it _ refl λ v.
        rw add-one
          (step_inside it.buffers it.current_buffer it.current_idx v a h (ground (arith, here_in))),
  )
]
  where
    slice : List ℕ
    slice = slice_of it.buffers it.current_buffer

    here_in : it.current_idx < length slice
    here_in = lookup_slice it.buffers it.current_buffer it.current_idx a h

    test : leb (length it.buffers) it.current_buffer ≡ false
    test = ground arith

    got : get_elem? it.buffers it.current_buffer ≡ some slice
    got = get_elem?-eq-get_or it.buffers it.current_buffer [] h

    bound : ltb it.current_idx (length slice) ≡ true
    bound = lt→ltb _ _ here_in

-- Exactly when no byte is left, `next` returns `None`; else it yields the first byte that is left.
pub next-cases : (it : UserBufferIterator) → IsAt it → NextCases it
unfolding next
next-cases it a = elim (Bool-cases (leb (length it.buffers) it.current_buffer)) [
  | inl e ↦ inl (from-past it.buffers it.current_buffer it.current_idx (leb→le _ _ e), rw e refl)
  | inr e ↦ next_inside it a (ground arith)
]

pub into_iter-IsAt :
    (u : UserBuffer)
    → AllNonEmpty u.buffers
    → IsAt (into_iter u) × (passed (into_iter u) ≡ []) × (rest (into_iter u) ≡ flatten u.buffers)
unfolding into_iter
into_iter-IsAt u h = (At-start u.buffers h, before-start u.buffers, from-start u.buffers)

sum_len_lem : (n : ℕ) (bs : List (List ℕ)) → sum_len n bs ≡ n + length (flatten bs)
unfolding sum_len
sum_len_lem n [] = omega arith
sum_len_lem n (b ∷ bs) = omega (arith, sum_len_lem (n + length b) bs, length-append b (flatten bs))

pub len_lem : (u : UserBuffer) → len u ≡ length (flatten u.buffers)
unfolding len
len_lem u = sum_len_lem 0 u.buffers ∙ omega arith
