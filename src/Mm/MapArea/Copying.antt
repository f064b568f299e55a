-- ===== src/Mm/MapArea/Copying.antt =====
-- `MapArea::copy_data`: the data come to stand in the frames of the area, page by page.
use r_corev.Prelude.{
  ℕ, zero, suc, ◌+◌, ◌-◌, ◌*◌, ◌%◌, ◌≤◌, ◌<◌, ◌≡◌, ◌≢◌, refl, ap, subst, ◌∙◌, true, false, ◌&&◌,
  some, List, [], ◌∷◌, take, drop, length, length-take, length-drop, get_or, leb, le→leb, ltb, ◌==◌,
  min, if◌then◌else◌, fun_ext, Run, ok, arith, Bool, Bool-cases, inl, inr, ap₂,
}
use r_corev.Config.{page_size, usize_mod}
use r_corev.Mm.Pte
use r_corev.Mm.PageTable
use r_corev.Mm.MapArea.{MapArea, Space, is_framed, write_frame, copy_loop, copy_data}

get_or-take-drop :
    (xs : List ℕ) (i n k : ℕ) → k < n → get_or (take n (drop i xs)) k 0 ≡ get_or xs (i + k) 0
get_or-take-drop xs zero zero k h = absurd (omega arith)
get_or-take-drop [] zero (suc n) k h = refl
get_or-take-drop (x ∷ xs) zero (suc n) zero h = refl
get_or-take-drop (x ∷ xs) zero (suc n) (suc k) h =
    let p : 0 + suc k ≡ suc (0 + k) = omega arith in
    rw p (get_or-take-drop xs zero n k (omega arith))
get_or-take-drop [] (suc i) zero k h = absurd (omega arith)
get_or-take-drop [] (suc i) (suc n) k h = refl
get_or-take-drop (x ∷ xs) (suc i) n k h =
    let p : suc i + k ≡ suc (i + k) = omega arith in rw p (get_or-take-drop xs i n k h)

-- What the copy of the pages `k`, `k + 1`, … of the data leaves.
pub record Copied (frame : ℕ → ℕ) (n k : ℕ) (data_ : List ℕ) (s : Space) (r : Run Space)
    : Type 0 where
  pub after : Space
  pub result : r ≡ ok after
  pub pages : after.pages ≡ s.pages
  pub bytes :
      (q i : ℕ)
      → q < n
      → i < page_size
      → after.bytes (frame q) i ≡ (
          if leb k q && ltb (q * page_size + i) (length data_)
          then get_or data_ (q * page_size + i) 0
          else s.bytes (frame q) i)
  pub others : (p : ℕ) → ((q : ℕ) → q < n → p ≢ frame q) → after.bytes p ≡ s.bytes p

two_pages :
    (k q : ℕ) (b : Bool) (x y : ℕ)
    → (if leb (k + 1) q && b then x else if (q == k) && b then x else y)
      ≡ (if leb k q && b then x else y)
two_pages k q true x y = ground arith
two_pages k q false x y = ground arith

-- The pages from `l` on are mapped to different frames.
module _ (l n : ℕ) (entry frame : ℕ → ℕ) (fits : l + n < usize_mod)
    (ppn : (k : ℕ) → k < n → Pte.ppn (entry k) ≡ frame k)
    (distinct : (i j : ℕ) → i < n → j < n → frame i ≡ frame j → i ≡ j) where
  abbrev part : ℕ → List ℕ → List ℕ
  part k data_ =
      take (min (length data_) (k * page_size + page_size) - k * page_size)
        (drop (k * page_size) data_)

  -- One page.
  page_bytes :
      (k q i : ℕ) (data_ : List ℕ) (s : Space)
      → k < n
      → q < n
      → i < page_size
      → k * page_size ≤ length data_
      → write_frame s.bytes (frame k) (part k data_) (frame q) i ≡ (
          if (q == k) && ltb (q * page_size + i) (length data_)
          then get_or data_ (q * page_size + i) 0
          else s.bytes (frame q) i)
  page_bytes k q i data_ s hk hq hi hl =
      let size : length (part k data_)
          ≡ min (length data_) (k * page_size + page_size) - k * page_size =
        omega (
          arith,
          length-take (min (length data_) (k * page_size + page_size) - k * page_size)
              (drop (k * page_size) data_),
          length-drop (k * page_size) data_,
        ) in
      elim (Bool-cases (q == k)) [
        | inl e ↦
            let same : q ≡ k = ground arith in
            let self : (frame k == frame k) ≡ true = ground arith in
            let bound : ltb i (length (part k data_)) ≡ ltb (k * page_size + i) (length data_) =
              ground (arith, size) in
            let kk : (k == k) ≡ true = ground arith in
            rw (same, self, bound, kk)
              (elim (Bool-cases (ltb (k * page_size + i) (length data_))) [
                | inl b ↦ rw b (
                    get_or-take-drop data_ (k * page_size)
                      (min (length data_) (k * page_size + page_size) - k * page_size) i
                      (ground arith))
                | inr b ↦ rw b refl
              ])
        | inr e ↦
            let other : (frame q == frame k) ≡ false = elim (Bool-cases (frame q == frame k)) [
              | inr d ↦ d
              | inl d ↦ let same = distinct q k hq hk (ground arith) in absurd (ground arith)
            ] in
            rw (e, other) refl
      ]

  copy_loop-step :
      (fuel k : ℕ) (data_ : List ℕ) (s : Space)
      → PageTable.translate (l + k) s.pages.kernel.mem s.pages.table ≡ some (entry k)
      → k < n
      → k * page_size ≤ length data_
      → copy_loop (suc fuel) (k * page_size) (l + k) data_ s ≡ (
          let s' = record s { bytes = write_frame s.bytes (frame k) (part k data_) } in
          elim (leb (length data_) (k * page_size + page_size)) [
            | true ↦ ok s'
            | false ↦ copy_loop fuel (k * page_size + page_size) ((l + k + 1) % usize_mod) data_ s'
          ])
  unfolding copy_loop
  copy_loop-step fuel k data_ s e hk hl =
      let inside : leb (k * page_size) (length data_) ≡ true = le→leb _ _ hl in
      let f : ℕ → Run Space = λ p.
        (let s' = record s { bytes = write_frame s.bytes p (part k data_) } in
          elim (leb (length data_) (k * page_size + page_size)) [
            | true ↦ ok s'
            | false ↦ copy_loop fuel (k * page_size + page_size) ((l + k + 1) % usize_mod) data_ s'
          ]) in
      rw (inside, e) (ap f (ppn k hk))

  copy_loop_lem :
      (fuel k : ℕ) (data_ : List ℕ) (s : Space)
      → ((q : ℕ)
          → q < n
          → PageTable.translate (l + q) s.pages.kernel.mem s.pages.table ≡ some (entry q))
      → k < n
      → k * page_size ≤ length data_
      → length data_ ≤ n * page_size
      → length data_ < k * page_size + fuel
      → Copied frame n k data_ s (copy_loop fuel (k * page_size) (l + k) data_ s)
  copy_loop_lem zero k data_ s t hk hl hn hf = absurd (omega arith)
  copy_loop_lem (suc fuel) k data_ s t hk hl hn hf =
      let s' = record s { bytes = write_frame s.bytes (frame k) (part k data_) } in
      let step = copy_loop-step fuel k data_ s (t k hk) hk hl in
      let here =
        λ (q i : ℕ) (hq : q < n) (hi : i < page_size). page_bytes k q i data_ s hk hq hi hl in
      let out : (p : ℕ) → ((q : ℕ) → q < n → p ≢ frame q) → s'.bytes p ≡ s.bytes p = λ p ne.
        fun_ext (λ i.
          let other : (p == frame k) ≡ false = elim (Bool-cases (p == frame k)) [
            | inr d ↦ d
            | inl d ↦ absurd (ne k hk (ground arith))
          ] in
          rw other refl) in
      let f : Bool → Run Space = λ b. elim b [
        | true ↦ ok s'
        | false ↦ copy_loop fuel (k * page_size + page_size) ((l + k + 1) % usize_mod) data_ s'
      ] in
      elim (Bool-cases (leb (length data_) (k * page_size + page_size))) [
        | inl e ↦ record {
          after = s';
          result = step ∙ ap f e;
          pages = refl;
          bytes = λ q i hq hi.
              here q i hq hi
              ∙ ap
                  (λ (b : Bool).
                    if b then get_or data_ (q * page_size + i) 0 else s.bytes (frame q) i)
                  (let x : ((q == k) && ltb (q * page_size + i) (length data_))
                        ≡ (leb k q && ltb (q * page_size + i) (length data_)) =
                      ground arith in
                    x);
          others = out;
        }
        | inr e ↦
            let next : k * page_size + page_size ≡ (k + 1) * page_size = omega arith in
            let page : (l + k + 1) % usize_mod ≡ l + (k + 1) = omega arith in
            let c =
              copy_loop_lem fuel (k + 1) data_ s' t (ground arith) (ground arith) hn
                (omega arith) in
            record {
              after = c.after;
              result =
                  step ∙ ap f e ∙ ap₂ (λ x y. copy_loop fuel x y data_ s') next page ∙ c.result;
              pages = c.pages;
              bytes = λ q i hq hi.
                  c.bytes q i hq hi
                  ∙ ap
                      (λ x.
                        if leb (k + 1) q && ltb (q * page_size + i) (length data_)
                        then get_or data_ (q * page_size + i) 0
                        else x)
                      (here q i hq hi)
                  ∙ two_pages k q (ltb (q * page_size + i) (length data_))
                      (get_or data_ (q * page_size + i) 0) (s.bytes (frame q) i);
              others = λ p ne. c.others p ne ∙ out p ne;
            }
      ]

-- In a framed area of `n > 0` pages whose pages are mapped to different frames, data of at most `n` pages are
-- copied: byte `i` of page `q` is the byte `q * 4096 + i` of the data as far as they reach, and what it
-- was behind them; no other frame and no entry changes.
pub copy_data_lem :
    (n : ℕ) (entry frame : ℕ → ℕ) (data_ : List ℕ) (area : MapArea) (s : Space)
    → is_framed area.map_type ≡ true
    → area.vpn_range.l + n < usize_mod
    → ((k : ℕ) → k < n → Pte.ppn (entry k) ≡ frame k)
    → ((i j : ℕ) → i < n → j < n → frame i ≡ frame j → i ≡ j)
    → ((q : ℕ)
        → q < n
        → PageTable.translate (area.vpn_range.l + q) s.pages.kernel.mem s.pages.table
          ≡ some (entry q))
    → 0 < n
    → length data_ ≤ n * page_size
    → Copied frame n 0 data_ s (copy_data data_ area s)
unfolding copy_data
copy_data_lem n entry frame data_ area s k fits ppn distinct t hn hl =
    let zero_add : area.vpn_range.l + 0 ≡ area.vpn_range.l = omega arith in
    let c =
      copy_loop_lem area.vpn_range.l n entry frame fits ppn distinct (length data_ + 1) 0 data_ s t
        hn (omega arith) hl (omega arith) in
    rw k
      (subst (λ x. Copied frame n 0 data_ s (copy_loop (length data_ + 1) 0 x data_ s)) zero_add c)
