-- ===== src/EasyFs/DirEntry/RoundTrip.antt =====
-- Entries keep their names, and their bytes are read back.
use r_corev.Prelude.{
  ℕ, zero, suc, ◌+◌, ◌*◌, ◌/◌, ◌%◌, ◌^◌, ◌<◌, ◌≤◌, ◌≡◌, refl, sym, ap, ◌∙◌, true, false, List, [],
  ◌∷◌, ◌++◌, length, take, drop, append-nil, get_or, replicate, leb, ◌==◌, ok, panic, arith,
}
use r_corev.EasyFs.DirEntry.{
  DirEntry, name_length_limit, new, name, find_zero, is_utf8, into_bytes, from_bytes,
}

-- No byte is 0.
abbrev pub NoZero : List ℕ → Type 0
NoZero [] = Unit {0}
NoZero (b ∷ bs) = ((b == 0) ≡ false) × NoZero bs

find_zero-padded :
    (i : ℕ) (n rest : List ℕ) → NoZero n → find_zero i (n ++ (0 ∷ rest)) ≡ ok (i + length n)
unfolding find_zero
find_zero-padded i [] rest z = ap ok (omega arith)
find_zero-padded i (b ∷ n) rest z =
    rw (z.0, find_zero-padded (i + 1) n rest z.1) (ap ok (omega arith))

find_zero-none : (i : ℕ) (n : List ℕ) → NoZero n → find_zero i n ≡ panic
unfolding find_zero
find_zero-none i [] z = refl
find_zero-none i (b ∷ n) z = rw (z.0, find_zero-none (i + 1) n z.1) refl

take-append : (n rest : List ℕ) → take (length n) (n ++ rest) ≡ n
take-append [] rest = refl
take-append (b ∷ n) rest = ap (◌∷◌ b) (take-append n rest)

drop-append : (n rest : List ℕ) → drop (length n) (n ++ rest) ≡ rest
drop-append [] rest = refl
drop-append (b ∷ n) rest = drop-append n rest

-- The padding of a name that is short enough begins with a 0.
padding : (k m : ℕ) → k < m → (rest : List ℕ) × (drop k (replicate m 0) ≡ 0 ∷ rest)
padding k zero h = absurd (omega arith)
padding zero (suc m) h = (replicate m 0, refl)
padding (suc k) (suc m) h = padding k m (omega arith)

no_padding : (k m : ℕ) → k ≡ m → drop k (replicate {A = ℕ} m 0) ≡ []
no_padding zero zero h = refl
no_padding zero (suc m) h = absurd (omega arith)
no_padding (suc k) zero h = absurd (omega arith)
no_padding (suc k) (suc m) h = no_padding k m (omega arith)

name_of :
    (n rest bytes : List ℕ) (ino : ℕ)
    → NoZero n
    → is_utf8 n ≡ true
    → bytes ≡ n ++ (0 ∷ rest)
    → name (record { name_bytes = bytes; inode_number = ino }) ≡ ok n
unfolding name
name_of n rest bytes ino z u e =
    let start : 0 + length n ≡ length n = omega arith in
    rw (e, find_zero-padded 0 n rest z, start, take-append n (0 ∷ rest), u) refl

nameless :
    (bytes : List ℕ) (ino : ℕ)
    → NoZero bytes
    → name (record { name_bytes = bytes; inode_number = ino }) ≡ panic
unfolding name
nameless bytes ino z = rw (find_zero-none 0 bytes z) refl

-- An entry made for a string without a 0 byte, of at most 27 bytes, has that name and that number.
pub name-new :
    (n : List ℕ) (ino : ℕ)
    → NoZero n
    → is_utf8 n ≡ true
    → length n ≤ name_length_limit
    → (e : DirEntry) × (new n ino ≡ ok e) × (name e ≡ ok n) × (e.inode_number ≡ ino)
unfolding new
name-new n ino z u h =
    let fits : leb (length n) 28 ≡ true = ground arith in
    let (rest, p) = padding (length n) 28 (omega arith) in
    let whole : n ++ drop (length n) (replicate 28 0) ≡ n ++ (0 ∷ rest) = ap (◌++◌ n) p in
    (
      record { name_bytes = n ++ drop (length n) (replicate 28 0); inode_number = ino },
      rw fits refl,
      name_of n rest (n ++ drop (length n) (replicate 28 0)) ino z u whole,
      refl,
    )

-- A name of 28 bytes without a 0 byte makes an entry whose name cannot be read: the kernel stops. A longer one makes
-- no entry.
pub name_too_long :
    (n : List ℕ) (ino : ℕ)
    → NoZero n
    → (length n ≡ 28 → (e : DirEntry) × (new n ino ≡ ok e) × (name e ≡ panic))
      × (28 < length n → new n ino ≡ panic)
unfolding new
name_too_long n ino z = (exact, λ h. ground arith)
  where
    exact : length n ≡ 28 → (e : DirEntry) × (new n ino ≡ ok e) × (name e ≡ panic)
    exact h =
        let fits : leb (length n) 28 ≡ true = ground arith in
        let whole : n ++ drop (length n) (replicate 28 0) ≡ n =
          ap (◌++◌ n) (no_padding (length n) 28 h) ∙ append-nil n in
        (record { name_bytes = n; inode_number = ino }, rw (fits, whole) refl, nameless n ino z)

-- An entry with a name of 28 bytes and a number of 32 bits is read back from its bytes.
pub from_bytes-into_bytes :
    (e : DirEntry)
    → length e.name_bytes ≡ 28
    → e.inode_number < 2 ^ 32
    → from_bytes (into_bytes e) ≡ e
unfolding from_bytes into_bytes
from_bytes-into_bytes e l h = λ k. record { name_bytes = front k; inode_number = number k }
  where
    word : List ℕ
    word =
        (e.inode_number % 2 ^ 8)
        ∷ (e.inode_number / 2 ^ 8 % 2 ^ 8)
        ∷ (e.inode_number / 2 ^ 16 % 2 ^ 8)
        ∷ (e.inode_number / 2 ^ 24 % 2 ^ 8)
        ∷ []

    front : take 28 (e.name_bytes ++ word) ≡ e.name_bytes
    front = ap (λ t. take t (e.name_bytes ++ word)) (sym l) ∙ take-append e.name_bytes word

    back : drop 28 (e.name_bytes ++ word) ≡ word
    back = ap (λ t. drop t (e.name_bytes ++ word)) (sym l) ∙ drop-append e.name_bytes word

    value : List ℕ → ℕ
    value w = get_or w 0 0 + get_or w 1 0 * 2 ^ 8 + get_or w 2 0 * 2 ^ 16 + get_or w 3 0 * 2 ^ 24

    whole : value word ≡ e.inode_number
    whole = omega arith

    number : value (drop 28 (e.name_bytes ++ word)) ≡ e.inode_number
    number = ap value back ∙ whole
