-- ===== src/EasyFs/DiskInode/Content/Copying.antt =====
-- Copies between buffers: parts of lists that are read, written and put together.
use r_corev.Prelude.{
  ℕ, zero, suc, ◌+◌, ◌≤◌, ◌<◌, ◌≡◌, refl, ap, ap₂, ◌∙◌, List, [], ◌∷◌, ◌++◌, get_or, take, drop,
  length, arith,
}
use r_corev.EasyFs.DiskInode.{pushes}
use r_corev.EasyFs.DiskInode.Content.{copy_at}

pub pushes_eq :
    (f g : ℕ → ℕ) (i j n : ℕ)
    → ((k : ℕ) → k < n → f (i + k) ≡ g (j + k))
    → pushes f i n ≡ pushes g j n
pushes_eq f g i j zero h = refl
pushes_eq f g i j (suc n) h =
    ap₂ ◌∷◌
      (let p : i + 0 ≡ i = omega arith in
        let q : j + 0 ≡ j = omega arith in
        let h0 : f (i + 0) ≡ g (j + 0) = h 0 (omega arith) in rw (p, q) at h0)
      (pushes_eq f g (i + 1) (j + 1) n (λ k l.
        let p : i + 1 + k ≡ i + (1 + k) = omega arith in
        let q : j + 1 + k ≡ j + (1 + k) = omega arith in rw (p, q) (h (1 + k) (omega arith))))

pub pushes_split : (f : ℕ → ℕ) (i n k : ℕ) → pushes f i (n + k) ≡ pushes f i n ++ pushes f (i + n) k
pushes_split f i zero k =
    let p : 0 + k ≡ k = omega arith in let q : i + 0 ≡ i = omega arith in rw (p, q) refl
pushes_split f i (suc n) k =
    let p : suc n + k ≡ suc (n + k) = omega arith in
    let q : i + suc n ≡ i + 1 + n = omega arith in
    rw (p, q) (ap (◌∷◌ (f i)) (pushes_split f (i + 1) n k))

pub length-pushes : (f : ℕ → ℕ) (i n : ℕ) → length (pushes f i n) ≡ n
length-pushes f i zero = refl
length-pushes f i (suc n) = ap suc (length-pushes f (i + 1) n)

pub length-copy_at : (xs : List ℕ) (i : ℕ) (ys : List ℕ) → length (copy_at xs i ys) ≡ length xs
length-copy_at [] i ys = refl
length-copy_at (x ∷ xs) (suc i) ys = ap suc (length-copy_at xs i ys)
length-copy_at (x ∷ xs) zero [] = refl
length-copy_at (x ∷ xs) zero (y ∷ ys) = ap suc (length-copy_at xs zero ys)

-- Two copies, the second behind the first, are one.
pub copy_at-copy_at :
    (xs : List ℕ) (i : ℕ) (ys zs : List ℕ)
    → copy_at (copy_at xs i ys) (i + length ys) zs ≡ copy_at xs i (ys ++ zs)
copy_at-copy_at [] i ys zs = refl
copy_at-copy_at (x ∷ xs) (suc i) ys zs =
    let p : suc i + length ys ≡ suc (i + length ys) = omega arith in
    rw p (ap (◌∷◌ x) (copy_at-copy_at xs i ys zs))
copy_at-copy_at (x ∷ xs) zero [] zs = refl
copy_at-copy_at (x ∷ xs) zero (y ∷ ys) zs =
    let p : 0 + suc (length ys) ≡ suc (0 + length ys) = omega arith in
    rw p (ap (◌∷◌ y) (copy_at-copy_at xs zero ys zs))

pub copy_at_front :
    (xs ys : List ℕ) → length ys ≤ length xs → copy_at xs 0 ys ≡ ys ++ drop (length ys) xs
copy_at_front [] [] h = refl
copy_at_front [] (y ∷ ys) h = absurd (omega arith)
copy_at_front (x ∷ xs) [] h = refl
copy_at_front (x ∷ xs) (y ∷ ys) h = ap (◌∷◌ y) (copy_at_front xs ys (omega arith))

pub get_or-drop : (xs : List ℕ) (i k z : ℕ) → get_or (drop i xs) k z ≡ get_or xs (i + k) z
get_or-drop xs zero k z = let p : 0 + k ≡ k = omega arith in rw p refl
get_or-drop [] (suc i) k z = refl
get_or-drop (x ∷ xs) (suc i) k z =
    let p : suc i + k ≡ suc (i + k) = omega arith in rw p (get_or-drop xs i k z)

pub get_or-take : (xs : List ℕ) (n k z : ℕ) → k < n → get_or (take n xs) k z ≡ get_or xs k z
get_or-take xs zero k z h = absurd (omega arith)
get_or-take [] (suc n) k z h = refl
get_or-take (x ∷ xs) (suc n) zero z h = refl
get_or-take (x ∷ xs) (suc n) (suc k) z h = get_or-take xs n k z (omega arith)

-- A list is what its numbers are.
pub pushes-get_or : (xs : List ℕ) (z : ℕ) → pushes (λ i. get_or xs i z) 0 (length xs) ≡ xs
pushes-get_or [] z = refl
pushes-get_or (x ∷ xs) z = ap (◌∷◌ x) (
    pushes_eq (λ i. get_or (x ∷ xs) i z) (λ i. get_or xs i z) (0 + 1) 0 (length xs)
      (λ k l.
        let p : 0 + 1 + k ≡ suc k = omega arith in
        let q : 0 + k ≡ k = omega arith in rw (p, q) refl)
    ∙ pushes-get_or xs z)
