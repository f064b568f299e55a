-- ===== src/EasyFs/DiskInode/Content/RoundTrip.antt =====
-- `read_at` gives back what `write_at` wrote.
use r_corev.Prelude.{
  ℕ, ◌+◌, ◌-◌, ◌*◌, ◌≤◌, ◌<◌, ◌≡◌, refl, ap, ◌∙◌, true, List, get_or, drop, length, leb, ltb, min,
  ok, ◌>>=◌, [], drop-all, append-nil, arith,
}
use r_corev.EasyFs.Device.{block_sz}
use r_corev.EasyFs.DiskInode.{u32_mod, DiskInode, pushes, indirect2_bound}
use r_corev.EasyFs.DiskInode.Content.{Disk, index_of, write_at, read_at}
use r_corev.EasyFs.DiskInode.Content.Copying.{pushes_eq, pushes-get_or}
use r_corev.EasyFs.DiskInode.Content.Reading.{content, read_at_lem}
use r_corev.EasyFs.DiskInode.Content.Separate.{IsSeparate}
use r_corev.EasyFs.DiskInode.Content.Writing.{write_at_lem}

-- A read that follows a write of the same length at the same place, inside the file, gives back what was written.
pub read_at-write_at :
    (offset n : ℕ) (buf old : List ℕ) (disk : Disk) (d : DiskInode)
    → n ≤ indirect2_bound
    → d.size ≤ n * block_sz
    → IsSeparate (index_of disk) d n
    → 0 < length buf
    → offset + length buf ≤ d.size
    → d.size < u32_mod
    → length old ≡ length buf
    → (write_at offset buf disk d >>= λ w. read_at offset old w.1 d) ≡ ok (length buf, buf)
read_at-write_at offset n buf old disk d hn hs s hl ho hu same =
    let w = write_at_lem offset n buf disk d hn hs s (omega arith) hl (omega arith) in
    let all : min (offset + length old) d.size - offset ≡ length buf = omega arith in
    let none_left : drop (length buf) old ≡ [] = drop-all old (length buf) (omega arith) in
    let read = read_at_lem offset old w.after d (omega arith) (omega arith) in
    let given : pushes (content w.after d) offset (length buf) ≡ buf =
      pushes_eq (content w.after d) (λ i. get_or buf i 0) offset 0 (length buf)
        (λ k l.
          let low : leb offset (offset + k) ≡ true = ground arith in
          let high : ltb (offset + k) (offset + length buf) ≡ true = ground arith in
          let back : offset + k - offset ≡ 0 + k = omega arith in
          w.bytes (offset + k) (omega arith) ∙ rw (low, high, back) refl)
      ∙ pushes-get_or buf 0 in
    rw w.result
      (read ∙ (rw (all, none_left, given) (ap (λ xs. ok (length buf, xs)) (append-nil buf))))
