-- ===== src/EasyFs/DirEntry.antt =====
-- `DirEntry` of easy-fs/src/layout.rs. A string is the list of its bytes. In memory an entry is its
-- name and then its number, lowest byte first.
pub mod RoundTrip
mod Tests
use r_corev.Prelude.{
  ℕ, zero, suc, ◌+◌, ◌-◌, ◌*◌, ◌/◌, ◌%◌, ◌^◌, List, [], ◌∷◌, ◌++◌, length, take, drop, get_or,
  replicate, leb, ltb, Bool, true, false, ◌&&◌, Option, none, some, ◌==◌, if◌then◌else◌, Run, ok,
  panic, ◌>>=◌, ◌>>◌, assert,
}

abbrev pub name_length_limit : ℕ
name_length_limit = 27

pub record DirEntry : Type 0 where
  pub name_bytes : List ℕ
  pub inode_number : ℕ

unfoldable pub empty : DirEntry
empty = record { name_bytes = replicate (name_length_limit + 1) 0; inode_number = 0 }

-- A slice past the end of the array panics.
unfoldable pub new : List ℕ → ℕ → Run DirEntry
new name inode_number = do
  assert (leb (length name) (name_length_limit + 1))
  ok (record {
    name_bytes = name ++ drop (length name) (replicate (name_length_limit + 1) 0);
    inode_number = inode_number;
  })

unfoldable pub into_bytes : DirEntry → List ℕ
into_bytes e =
    e.name_bytes
    ++ ((e.inode_number % 2 ^ 8)
        ∷ (e.inode_number / 2 ^ 8 % 2 ^ 8)
        ∷ (e.inode_number / 2 ^ 16 % 2 ^ 8)
        ∷ (e.inode_number / 2 ^ 24 % 2 ^ 8)
        ∷ [])

unfoldable pub from_bytes : List ℕ → DirEntry
from_bytes bytes = record {
  name_bytes = take (name_length_limit + 1) bytes;
  inode_number =
      let word = drop (name_length_limit + 1) bytes in
      get_or word 0 0
      + get_or word 1 0 * 2 ^ 8
      + get_or word 2 0 * 2 ^ 16
      + get_or word 3 0 * 2 ^ 24;
}

-- The place of the first 0 from place `i` on; an index past the end panics.
unfoldable pub find_zero : ℕ → List ℕ → Run ℕ
find_zero i [] = panic
find_zero i (b ∷ bs) = let rest = find_zero (i + 1) bs in if b == 0 then ok i else rest

-- What follows the first byte of a character in UTF-8: how many bytes, and the bounds of the next one.
unfoldable pub lead : ℕ → Option (ℕ × ℕ × ℕ)
lead b =
    if ltb b 0x80
    then some (0, 0, 0)
    else if ltb b 0xc2
    then none
    else if ltb b 0xe0
    then some (1, 0x80, 0xbf)
    else if b == 0xe0
    then some (2, 0xa0, 0xbf)
    else if b == 0xed
    then some (2, 0x80, 0x9f)
    else if ltb b 0xf0
    then some (2, 0x80, 0xbf)
    else if b == 0xf0
    then some (3, 0x90, 0xbf)
    else if ltb b 0xf4
    then some (3, 0x80, 0xbf)
    else if b == 0xf4
    then some (3, 0x80, 0x8f)
    else none

-- `n` more bytes of a character come first, of which the next one is from `lo` to `hi`.
unfoldable pub utf8_from : ℕ → ℕ → ℕ → List ℕ → Bool
unfolding lead
utf8_from zero lo hi [] = true
utf8_from (suc n) lo hi [] = false
utf8_from zero lo hi (b ∷ bs) = elim (lead b) [
  | none ↦ false
  | some (n, lo', hi') ↦ utf8_from n lo' hi' bs
]
utf8_from (suc n) lo hi (b ∷ bs) = (leb lo b && leb b hi) && utf8_from n 0x80 0xbf bs

-- `core::str::from_utf8` gives a string.
unfoldable pub is_utf8 : List ℕ → Bool
unfolding utf8_from
is_utf8 bytes = utf8_from 0 0 0 bytes

unfoldable pub name : DirEntry → Run (List ℕ)
unfolding find_zero
name e = do
  len ← find_zero 0 e.name_bytes
  assert (is_utf8 (take len e.name_bytes))
  ok (take len e.name_bytes)
