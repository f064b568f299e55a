-- ===== src/Mm/MemorySet/Fork.antt =====
-- `from_existed_user` copies the pages of the parent.
use r_corev.Prelude.{
  ℕ, zero, suc, ◌+◌, ◌<◌, ◌≤◌, ◌≡◌, ◌≢◌, refl, sym, ap, ap₂, ◌∙◌, true, false, some, ◌==◌,
  if◌then◌else◌, fun_ext, Run, ok, arith, Bool-cases, inl, inr,
}
use r_corev.Mm.Address.Pages.{range}
use r_corev.Mm.Pte
use r_corev.Mm.PageTable
use r_corev.Mm.PageTable.{PageTable}
use r_corev.Mm.MapArea.{Space}
use r_corev.Mm.MemorySet.{copy_page, copy_pages}

-- The pages `k`, …, `n - 1` of the child have the bytes of the parent's; no other frame changes.
pub record CopiedPages (src dst : ℕ → ℕ) (k n : ℕ) (s : Space) (r : Run Space) : Type 0 where
  pub after : Space
  pub result : r ≡ ok after
  pub pages : after.pages ≡ s.pages
  pub copied : (q : ℕ) → k ≤ q → q < n → after.bytes (dst q) ≡ s.bytes (src q)
  pub others : (p : ℕ) → ((q : ℕ) → k ≤ q → q < n → p ≢ dst q) → after.bytes p ≡ s.bytes p

module _ (parent : PageTable) (l n : ℕ) (from to src dst : ℕ → ℕ)
    (src_ppn : (q : ℕ) → q < n → Pte.ppn (from q) ≡ src q)
    (dst_ppn : (q : ℕ) → q < n → Pte.ppn (to q) ≡ dst q)
    (distinct : (i j : ℕ) → i < n → j < n → dst i ≡ dst j → i ≡ j)
    (apart : (i j : ℕ) → i < n → j < n → src i ≢ dst j) where
  abbrev one_copy : ℕ → Space → Space
  one_copy k s = record s { bytes = λ p i. if p == dst k then s.bytes (src k) i else s.bytes p i }

  copy_page_lem :
      (k : ℕ) (s : Space)
      → k < n
      → PageTable.translate (l + k) s.pages.kernel.mem parent ≡ some (from k)
      → PageTable.translate (l + k) s.pages.kernel.mem s.pages.table ≡ some (to k)
      → copy_page parent (l + k) s ≡ ok (one_copy k s)
  unfolding copy_page
  copy_page_lem k s h e f =
      let g : ℕ → ℕ → Run Space =
        λ a b. ok (record s { bytes = λ p i. if p == b then s.bytes a i else s.bytes p i }) in
      rw (e, f) (ap₂ g (src_ppn k h) (dst_ppn k h))

  copy_pages_loop :
      (m k : ℕ) (s : Space)
      → k + m ≡ n
      → ((q : ℕ) → q < n → PageTable.translate (l + q) s.pages.kernel.mem parent ≡ some (from q))
      → ((q : ℕ)
          → q < n
          → PageTable.translate (l + q) s.pages.kernel.mem s.pages.table ≡ some (to q))
      → CopiedPages src dst k n s (copy_pages parent (range (l + k) m) s)
  unfolding copy_pages
  copy_pages_loop zero k s h e f = record {
    after = s;
    result = refl;
    pages = refl;
    copied = λ q a b. absurd (omega arith);
    others = λ p ne. refl;
  }
  copy_pages_loop (suc m) k s h e f =
      let s' = one_copy k s in
      let one = copy_page_lem k s (omega arith) (e k (omega arith)) (f k (omega arith)) in
      let next : l + k + 1 ≡ l + (k + 1) = omega arith in
      let c = copy_pages_loop m (k + 1) s' (omega arith) e f in
      let keeps : (p : ℕ) → p ≢ dst k → s'.bytes p ≡ s.bytes p =
        λ p ne. let d : (p == dst k) ≡ false = ground arith in fun_ext (λ i. rw d refl) in
      record {
        after = c.after;
        result = rw one (ap (λ x. copy_pages parent (range x m) s') next ∙ c.result);
        pages = c.pages;
        copied = λ q a b. elim (Bool-cases (q == k)) [
          | inl t ↦
              let same : q ≡ k = ground arith in
              let now : s'.bytes (dst k) ≡ s.bytes (src k) =
                let d : (dst k == dst k) ≡ true = ground arith in fun_ext (λ i. rw d refl) in
              let kept =
                c.others (dst k)
                  (λ x y z w. absurd (omega (arith, distinct k x (omega arith) z w))) in
              ap (λ x. c.after.bytes (dst x)) same
              ∙ kept
              ∙ now
              ∙ ap (λ x. s.bytes (src x)) (sym same)
          | inr t ↦ c.copied q (ground arith) b ∙ keeps (src q) (apart q k b (omega arith))
        ];
        others = λ p ne.
            c.others p (λ q a b. ne q (omega arith) b) ∙ keeps p (ne k (omega arith) (omega arith));
      }

-- Where the parent's pages from `l` on are mapped to the frames `src` and the child's to different frames `dst`, none
-- of which is one of the parent's, copying `n` pages gives each page of the child the bytes of the parent's, and
-- changes no other frame and no entry.
pub copy_pages_lem :
    (parent : PageTable) (l n : ℕ) (from to src dst : ℕ → ℕ) (s : Space)
    → ((q : ℕ) → q < n → Pte.ppn (from q) ≡ src q)
    → ((q : ℕ) → q < n → Pte.ppn (to q) ≡ dst q)
    → ((i j : ℕ) → i < n → j < n → dst i ≡ dst j → i ≡ j)
    → ((i j : ℕ) → i < n → j < n → src i ≢ dst j)
    → ((q : ℕ) → q < n → PageTable.translate (l + q) s.pages.kernel.mem parent ≡ some (from q))
    → ((q : ℕ) → q < n → PageTable.translate (l + q) s.pages.kernel.mem s.pages.table ≡ some (to q))
    → CopiedPages src dst 0 n s (copy_pages parent (range l n) s)
copy_pages_lem parent l n from to src dst s a b d e f g =
    let zero_add : l + 0 ≡ l = omega arith in
    let c = copy_pages_loop parent l n from to src dst a b d e n 0 s (omega arith) f g in
    rw zero_add at c
