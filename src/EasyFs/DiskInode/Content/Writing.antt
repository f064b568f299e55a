-- ===== src/EasyFs/DiskInode/Content/Writing.antt =====
-- `write_at` writes the bytes of the file and nothing else.
use r_corev.Prelude.{
  ℕ, zero, suc, ◌+◌, ◌-◌, ◌*◌, ◌/◌, ◌%◌, ◌≤◌, ◌<◌, ◌≡◌, ◌≢◌, refl, sym, ap, ap₂, ◌∙◌, true, List,
  take, get_or, drop, length, leb, le→leb, ltb, ◌==◌, ◌&&◌, if◌then◌else◌, min, Run, ok, Bool,
  arith, Bool-cases, inl, inr,
}
use r_corev.Config.{usize_mod}
use r_corev.EasyFs.Device.{block_sz}
use r_corev.EasyFs.DiskInode.{DiskInode, indirect2_bound}
use r_corev.EasyFs.DiskInode.Entries.{block_at}
use r_corev.EasyFs.DiskInode.Content.{Disk, index_of, write_block, write_loop, write_at}
use r_corev.EasyFs.DiskInode.Content.Reading.{content, byte_at, pass_lem, block_lem}
use r_corev.EasyFs.DiskInode.Content.Separate.{IsSeparate, Agrees, same_block, keep}
use r_corev.EasyFs.DiskInode.Content.Passes.{overwritten, pass_writes, overwritten_join}

record Written (block : ℕ → ℕ) (n : ℕ) (m0 m : Disk) (start end ws : ℕ) (buf : List ℕ)
    (r : Run (ℕ × Disk)) : Type 0 where
  after : Disk
  result : r ≡ ok (ws + (end - start), after)
  agrees : Agrees block n m0 after
  bytes :
      (j : ℕ)
      → j < n * block_sz
      → byte_at block after j
        ≡ overwritten (λ k. get_or buf (ws + k) 0) start end (byte_at block m) j

write_loop_lem :
    (fuel n : ℕ) (m0 m : Disk) (d : DiskInode) (start end ws : ℕ) (buf : List ℕ)
    → n ≤ indirect2_bound
    → IsSeparate (index_of m0) d n
    → Agrees (block_at (index_of m0) d) n m0 m
    → start < end
    → end ≤ n * block_sz
    → end - start ≤ fuel
    → ws + (end - start) ≤ length buf
    → Written
        (block_at (index_of m0) d)
        n
        m0
        m
        start
        end
        ws
        buf
        (write_loop fuel m d (start / block_sz) start end ws buf)
unfolding write_loop
write_loop_lem zero n m0 m d start end ws buf hn s a h hb hf hl = absurd (omega arith)
write_loop_lem (suc fuel) n m0 m d start end ws buf hn s a h hb hf hl =
    let e = min ((start / block_sz + 1) * block_sz) end in
    let p = pass_lem start end h in
    let block = block_at (index_of m0) d in
    let fits : leb (start % block_sz + (e - start)) block_sz ≡ true = le→leb _ _ p.fits in
    let room : leb (ws + (e - start)) (length buf) ≡ true = le→leb _ _ (omega (arith, p.most)) in
    let same = same_block m0 m d n s a (start / block_sz) (omega arith) in
    let here = block_lem m d start (omega arith) ∙ ap ok same in
    let m' =
      write_block m (block (start / block_sz)) (start % block_sz)
        (take (e - start) (drop ws buf)) in
    let agrees' =
      keep block n m0 m (start / block_sz) (start % block_sz) (take (e - start) (drop ws buf)) a
        (omega arith) in
    let bytes' = pass_writes block n m ws buf s.distinct p hb h (omega (arith, p.most)) in
    rw (here, room, fits)
      (elim (Bool-cases (e == end)) [
        | inl q ↦
            let last : e ≡ end = ground arith in
            record {
              after = m';
              result = rw q (ap (λ x. ok (ws + (x - start), m')) last);
              agrees = agrees';
              bytes = λ j l.
                  bytes' j l
                  ∙ ap (λ x. overwritten (λ k. get_or buf (ws + k) 0) start x (byte_at block m) j)
                      last;
            }
        | inr q ↦
            let less : e < end = ground (arith, p.most) in
            let next : start / block_sz + 1 ≡ e / block_sz = sym (p.next less) in
            let c =
              write_loop_lem fuel n m0 m' d e end (ws + (e - start)) buf hn s agrees' less hb
                (omega (arith, p.more)) (omega (arith, p.more, p.most)) in
            let total : ws + (e - start) + (end - e) ≡ ws + (end - start) =
              omega (arith, p.more, p.most) in
            record {
              after = c.after;
              result = rw q (
                  ap (λ b. write_loop fuel m' d b e end (ws + (e - start)) buf) next
                  ∙ c.result
                  ∙ ap (λ x. ok (x, c.after)) total);
              agrees = c.agrees;
              bytes = λ j l.
                  c.bytes j l
                  ∙ ap
                      (λ x.
                        if leb e j && ltb j end
                        then get_or buf (ws + (e - start) + (j - e)) 0
                        else x)
                      (bytes' j l)
                  ∙ overwritten_join start e end ws buf (byte_at block m) j p.more p.most;
            }
      ])

-- What a write leaves: how many bytes were written and the disk.
pub record Wrote (offset : ℕ) (buf : List ℕ) (disk : Disk) (d : DiskInode) (n : ℕ)
    (r : Run (ℕ × Disk)) : Type 0 where
  pub after : Disk
  pub result : r ≡ ok (min (offset + length buf) d.size - offset, after)
  pub same_blocks : (i : ℕ) → i < n → block_at (index_of after) d i ≡ block_at (index_of disk) d i
  pub others : (c : ℕ) → ((i : ℕ) → i < n → c ≢ block_at (index_of disk) d i) → after c ≡ disk c
  pub bytes :
      (j : ℕ)
      → j < d.size
      → content after d j ≡ (
          if leb offset j && ltb j (offset + length buf)
          then get_or buf (j - offset) 0
          else content disk d j)

-- A write that begins inside a file of at most `n` blocks, which are separate, writes the bytes that the file has room for
-- and returns their number: the file's bytes there are those of the buffer, its other bytes, its data
-- blocks and all blocks outside the file are what they were.
pub write_at_lem :
    (offset n : ℕ) (buf : List ℕ) (disk : Disk) (d : DiskInode)
    → n ≤ indirect2_bound
    → d.size ≤ n * block_sz
    → IsSeparate (index_of disk) d n
    → offset < d.size
    → 0 < length buf
    → offset + length buf < usize_mod
    → Wrote offset buf disk d n (write_at offset buf disk d)
unfolding write_at
write_at_lem offset n buf disk d hn hs s ho hl hu =
    let fits : (offset + length buf) % usize_mod ≡ offset + length buf = omega arith in
    let end = min (offset + length buf) d.size in
    let inside : leb offset end ≡ true = ground arith in
    let c =
      write_loop_lem (end + 1) n disk disk d offset end 0 buf hn s (λ c h. refl) (omega arith)
        (omega arith) (omega arith) (omega arith) in
    let zero_add : 0 + (end - offset) ≡ end - offset = omega arith in
    rw (fits, inside)
      (record {
        after = c.after;
        result = c.result ∙ ap (λ x. ok (x, c.after)) zero_add;
        same_blocks = same_block disk c.after d n s c.agrees;
        others = c.agrees;
        bytes = λ j l.
            let first : 0 + (j - offset) ≡ j - offset = omega arith in
            let same = same_block disk c.after d n s c.agrees (j / block_sz) (omega arith) in
            let last : ltb j end ≡ ltb j (offset + length buf) = ground arith in
            ap (λ b. c.after b (j % block_sz)) same
            ∙ c.bytes j (omega arith)
            ∙ ap₂ (λ (t : Bool) i. if leb offset j && t then get_or buf i 0 else content disk d j)
                last first;
      })
