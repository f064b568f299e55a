-- ===== src/EasyFs/DiskInode/Content/Passes.antt =====
-- What a pass of the loop of `write_at` writes.
use r_corev.Prelude.{
  ℕ, ◌+◌, ◌-◌, ◌*◌, ◌/◌, ◌%◌, ◌≤◌, ◌<◌, ◌≡◌, refl, sym, ap, ◌∙◌, true, false, List, take, get_or,
  drop, length, leb, ltb, ◌==◌, ◌&&◌, if◌then◌else◌, arith, Bool-cases, inl, inr, length-take,
  length-drop,
}
use r_corev.EasyFs.Device.{block_sz}
use r_corev.EasyFs.DiskInode.Content.{Disk, write_block}
use r_corev.EasyFs.DiskInode.Content.Copying.{get_or-drop, get_or-take}
use r_corev.EasyFs.DiskInode.Content.Reading.{byte_at, IsPass}

-- The file after a write of `src` at byte `start`.
abbrev pub overwritten : (ℕ → ℕ) → ℕ → ℕ → (ℕ → ℕ) → ℕ → ℕ
overwritten src start end old j = if leb start j && ltb j end then src (j - start) else old j

-- What one pass writes.
pub pass_writes :
    (block : ℕ → ℕ) (n : ℕ) (m : Disk) {start end e : ℕ} (ws : ℕ) (buf : List ℕ)
    → ((i j : ℕ) → i < n → j < n → block i ≡ block j → i ≡ j)
    → IsPass start end e
    → end ≤ n * block_sz
    → start < end
    → ws + (e - start) ≤ length buf
    → (j : ℕ) → j < n * block_sz
    → byte_at block
        (write_block m
          (block (start / block_sz))
          (start % block_sz)
          (take (e - start) (drop ws buf)))
        j
      ≡ overwritten (λ k. get_or buf (ws + k) 0) start e (byte_at block m) j
pass_writes block n m {start} {end} {e} ws buf inj p he h hl j hj =
    let src = take (e - start) (drop ws buf) in
    let size : length src ≡ e - start =
      omega (arith, length-take (e - start) (drop ws buf), length-drop ws buf) in
    rw size (elim (Bool-cases (leb start j && ltb j e)) [
      | inl w ↦
          let l : start ≤ j = ground arith in
          let u : j < e = ground arith in
          let k : j - start < e - start = omega arith in
          let back : start + (j - start) ≡ j = omega arith in
          let q : j / block_sz ≡ start / block_sz =
            ap (λ x. x / block_sz) (sym back) ∙ p.inside (j - start) k in
          let r : j % block_sz ≡ start % block_sz + (j - start) =
            ap (λ x. x % block_sz) (sym back) ∙ p.offset (j - start) k in
          let from : start % block_sz + (j - start) - start % block_sz ≡ j - start = omega arith in
          let low : leb (start % block_sz) (start % block_sz + (j - start)) ≡ true = ground arith in
          let high : ltb (start % block_sz + (j - start)) (start % block_sz + (e - start)) ≡ true =
            ground arith in
          let self : (block (start / block_sz) == block (start / block_sz)) ≡ true = ground arith in
          rw (w, q, r, self, low, high, from)
            (get_or-take (drop ws buf) (e - start) (j - start) 0 k
              ∙ get_or-drop buf ws (j - start) 0)
      | inr w ↦ elim (Bool-cases (block (j / block_sz) == block (start / block_sz))) [
        | inl f ↦
            let same : j / block_sz ≡ start / block_sz =
              inj (j / block_sz) (start / block_sz) (omega arith) (omega arith) (ground arith) in
            let more = p.more in
            let out : (leb (start % block_sz) (j % block_sz)
                  && ltb (j % block_sz) (start % block_sz + (e - start)))
                ≡ false =
              ground arith in
            rw (w, f, out) refl
        | inr f ↦ rw (w, f) refl
      ]
    ])

pub overwritten_join :
    (start e end ws : ℕ) (buf : List ℕ) (old : ℕ → ℕ) (j : ℕ)
    → start < e
    → e ≤ end
    → overwritten
        (λ k. get_or buf (ws + (e - start) + k) 0)
        e
        end
        (overwritten (λ k. get_or buf (ws + k) 0) start e old)
        j
      ≡ overwritten (λ k. get_or buf (ws + k) 0) start end old j
overwritten_join start e end ws buf old j h l = elim (Bool-cases (ltb j e)) [
  | inl a ↦
      let second : leb e j ≡ false = ground arith in
      let whole : ltb j end ≡ true = ground arith in rw (second, a, whole) refl
  | inr a ↦
      let second : leb e j ≡ true = ground arith in
      let whole : leb start j ≡ true = ground arith in
      let place : ws + (e - start) + (j - e) ≡ ws + (j - start) = ground arith in
      rw (second, whole, a, place) refl
]
