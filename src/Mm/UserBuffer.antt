-- ===== src/Mm/UserBuffer.antt =====
-- `UserBuffer` and `UserBufferIterator` of os/src/mm/page_table.rs. The slices are lists of bytes;
-- the raw pointer that the iterator yields is the place of a byte, read by `load` and written by
-- `store`.
pub mod Walk
use r_corev.Prelude.{
  ℕ, ◌+◌, Option, none, some, List, [], ◌∷◌, get_elem?, get_or, set, length, ltb, leb, ◌==◌,
  if◌then◌else◌, Run, ok, ◌>>=◌, ◌>>◌, assert, unwrap,
}

pub record UserBuffer : Type 0 where
  pub buffers : List (List ℕ)

sum_len : ℕ → List (List ℕ) → ℕ
sum_len total [] = total
sum_len total (b ∷ bs) = sum_len (total + length b) bs

pub len : UserBuffer → ℕ
unfolding sum_len
len u = sum_len 0 u.buffers

pub record UserBufferIterator : Type 0 where
  pub buffers : List (List ℕ)
  pub current_buffer : ℕ
  pub current_idx : ℕ

unfoldable pub into_iter : UserBuffer → UserBufferIterator
into_iter u = record { buffers = u.buffers; current_buffer = 0; current_idx = 0 }

abbrev pub Place : Type 0
Place = ℕ × ℕ

abbrev pub load : UserBufferIterator → Place → ℕ
load it (b, i) = get_or (get_or it.buffers b []) i 0

abbrev pub store : UserBufferIterator → Place → ℕ → UserBufferIterator
store it (b, i) v = record it { buffers = set it.buffers b (set (get_or it.buffers b []) i v) }

-- An index past the end of the current slice panics.
unfoldable pub next : UserBufferIterator → Run (Option Place × UserBufferIterator)
next it = if leb (length it.buffers) it.current_buffer then ok (none, it) else do
  slice ← unwrap (get_elem? it.buffers it.current_buffer)
  assert (ltb it.current_idx (length slice))
  ok (
    some (it.current_buffer, it.current_idx),
    if it.current_idx + 1 == length slice
        then record it { current_idx = 0; current_buffer = it.current_buffer + 1 }
        else record it { current_idx = it.current_idx + 1 },
  )
