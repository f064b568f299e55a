-- ===== src/EasyFs/DiskInode/Content/Reading.antt =====
-- `read_at` reads the bytes of the file: byte `j` is in the data block `j / 512`.
use r_corev.Prelude.{
  ℕ, zero, suc, ◌+◌, ◌-◌, ◌*◌, ◌/◌, ◌%◌, ◌≤◌, ◌<◌, ◌≡◌, refl, sym, ap, ap₂, ◌∙◌, true, List, ◌++◌,
  drop, length, leb, le→leb, ◌==◌, min, Run, ok, arith, Bool-cases, inl, inr,
}
use r_corev.Config.{usize_mod}
use r_corev.EasyFs.Device.{block_sz}
use r_corev.EasyFs.DiskInode.{u32_mod, DiskInode, get_block_id, pushes, indirect2_bound}
use r_corev.EasyFs.DiskInode.Entries.{block_at, get_block_id-block_at}
use r_corev.EasyFs.DiskInode.Content.{Disk, index_of, copy_at, read_loop, read_at}
use r_corev.EasyFs.DiskInode.Content.Copying.{
  pushes_eq, pushes_split, length-pushes, length-copy_at, copy_at-copy_at, copy_at_front,
}

-- The byte `j` of a file whose data block `i` has the number `block i`.
abbrev pub byte_at : (ℕ → ℕ) → Disk → ℕ → ℕ
byte_at block disk j = disk (block (j / block_sz)) (j % block_sz)

abbrev pub content : Disk → DiskInode → ℕ → ℕ
content disk d = byte_at (block_at (index_of disk) d) disk

abbrev result : ℕ → List ℕ → Run (ℕ × List ℕ)
result n xs = ok (n, xs)

-- A pass over one block ends at `end_current_block`.
pub record IsPass (start end e : ℕ) : Type 0 where
  pub more : start < e
  pub most : e ≤ end
  pub fits : start % block_sz + (e - start) ≤ block_sz
  pub inside : (k : ℕ) → k < e - start → (start + k) / block_sz ≡ start / block_sz
  pub offset : (k : ℕ) → k < e - start → (start + k) % block_sz ≡ start % block_sz + k
  pub next : e < end → e / block_sz ≡ start / block_sz + 1

pub pass_lem :
    (start end : ℕ) → start < end → IsPass start end (min ((start / block_sz + 1) * block_sz) end)
pass_lem start end h = record {
  more = omega arith;
  most = omega arith;
  fits = omega arith;
  inside = λ k l. omega arith;
  offset = λ k l. omega arith;
  next = λ l. omega arith;
}

pub block_lem :
    (disk : Disk) (d : DiskInode) (start : ℕ)
    → start / block_sz < indirect2_bound
    → get_block_id (start / block_sz % u32_mod) (index_of disk) d
      ≡ ok (block_at (index_of disk) d (start / block_sz))
block_lem disk d start h =
    let small : start / block_sz % u32_mod ≡ start / block_sz = omega arith in
    rw small (get_block_id-block_at (index_of disk) d (start / block_sz) h)

-- The bytes that a pass copies are those of the file.
part_lem :
    (disk : Disk) (block : ℕ → ℕ) {start end e : ℕ}
    → IsPass start end e
    → pushes (disk (block (start / block_sz))) (start % block_sz) (e - start)
      ≡ pushes (byte_at block disk) start (e - start)
part_lem disk block {start} {e = e} p =
    pushes_eq (disk (block (start / block_sz))) (byte_at block disk) (start % block_sz) start
      (e - start) (λ k l. rw (p.inside k l, p.offset k l) refl)

-- A pass and those after it.
join_lem :
    (f : ℕ → ℕ) (start end e i : ℕ) (buf : List ℕ)
    → start < e
    → e ≤ end
    → copy_at (copy_at buf i (pushes f start (e - start))) (i + (e - start)) (pushes f e (end - e))
      ≡ copy_at buf i (pushes f start (end - start))
join_lem f start end e i buf h l =
    let n : length (pushes f start (e - start)) ≡ e - start = length-pushes f start (e - start) in
    let sum : end - start ≡ (e - start) + (end - e) = omega arith in
    let from : start + (e - start) ≡ e = omega arith in
    let split = pushes_split f start (e - start) (end - e) in
    let two = copy_at-copy_at buf i (pushes f start (e - start)) (pushes f e (end - e)) in
    rw n at two ∙ ap (copy_at buf i) (sym (rw (from, ← sum) at split))

read_loop_lem :
    (fuel : ℕ) (disk : Disk) (d : DiskInode) (start end read_size : ℕ) (buf : List ℕ)
    → start < end
    → end ≤ indirect2_bound * block_sz
    → end - start ≤ fuel
    → read_size + (end - start) ≤ length buf
    → read_loop fuel disk d (start / block_sz) start end read_size buf
      ≡ ok (
        read_size + (end - start),
        copy_at buf read_size (pushes (content disk d) start (end - start)),
      )
unfolding read_loop
read_loop_lem zero disk d start end read_size buf h hb hf hl = absurd (omega arith)
read_loop_lem (suc fuel) disk d start end read_size buf h hb hf hl =
    let e = min ((start / block_sz + 1) * block_sz) end in
    let p = pass_lem start end h in
    let fits : leb (start % block_sz + (e - start)) block_sz ≡ true = le→leb _ _ p.fits in
    let room : leb (read_size + (e - start)) (length buf) ≡ true =
      le→leb _ _ (omega (arith, p.most)) in
    let part = part_lem disk (block_at (index_of disk) d) p in
    let f = content disk d in
    let piece =
      pushes (disk (block_at (index_of disk) d (start / block_sz))) (start % block_sz)
        (e - start) in
    let buf' = copy_at buf read_size piece in
    rw (block_lem disk d start (omega arith), fits, room)
      (elim (Bool-cases (e == end)) [
        | inl s ↦
            let same : e ≡ end = ground arith in
            rw s (
              ap (λ xs. result (read_size + (e - start)) (copy_at buf read_size xs)) part
              ∙ ap
                  (λ x.
                    result (read_size + (x - start))
                      (copy_at buf read_size (pushes f start (x - start))))
                  same)
        | inr s ↦
            let less : e < end = ground (arith, p.most) in
            let next : start / block_sz + 1 ≡ e / block_sz = sym (p.next less) in
            let rest =
              read_loop_lem fuel disk d e end (read_size + (e - start)) buf' less hb
                (omega (arith, p.more))
                (omega (arith, p.more, p.most, length-copy_at buf read_size piece)) in
            let total : read_size + (e - start) + (end - e) ≡ read_size + (end - start) =
              omega (arith, p.more, p.most) in
            rw s (
              ap (λ b. read_loop fuel disk d b e end (read_size + (e - start)) buf') next
              ∙ rest
              ∙ ap₂ result total (
                  ap
                    (λ xs.
                      copy_at (copy_at buf read_size xs) (read_size + (e - start))
                        (pushes f e (end - e)))
                    part
                  ∙ join_lem f start end e read_size buf p.more p.most))
      ])

-- Where the part from `offset` on has at most `length buf` bytes, those bytes of the file come to the
-- front of the buffer.
pub read_at_lem :
    (offset : ℕ) (buf : List ℕ) (disk : Disk) (d : DiskInode)
    → d.size ≤ indirect2_bound * block_sz
    → offset + length buf < usize_mod
    → read_at offset buf disk d ≡ (
        let n = min (offset + length buf) d.size - offset in
        ok (n, pushes (content disk d) offset n ++ drop n buf))
unfolding read_at
read_at_lem offset buf disk d hs ho =
    let fits : (offset + length buf) % usize_mod ≡ offset + length buf = omega arith in
    let end = min (offset + length buf) d.size in
    rw fits (elim (Bool-cases (leb end offset)) [
      | inl s ↦ let none_left : end - offset ≡ 0 = ground arith in rw (s, none_left) refl
      | inr s ↦
          let l : offset < end = ground arith in
          let f = pushes (content disk d) offset (end - offset) in
          let n : length f ≡ end - offset = length-pushes (content disk d) offset (end - offset) in
          let short : length f ≤ length buf = omega arith in
          let zero_add : 0 + (end - offset) ≡ end - offset = omega arith in
          rw s (
            read_loop_lem end disk d offset end 0 buf l (omega arith) (omega arith) (omega arith)
            ∙ ap₂ result zero_add (copy_at_front buf f short ∙ rw n refl))
    ])
