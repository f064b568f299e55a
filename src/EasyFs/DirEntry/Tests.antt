-- ===== src/EasyFs/DirEntry/Tests.antt =====
-- The entry "aé" with the number 300.
use r_corev.Prelude.{
  ℕ, zero, suc, ◌<◌, ◌≡◌, refl, List, [], ◌∷◌, length, replicate, arith, ok, panic, false,
}
use r_corev.EasyFs.DirEntry.{DirEntry, new, name, is_utf8, utf8_from, lead}
use r_corev.EasyFs.DirEntry.RoundTrip.{NoZero, name-new, name_too_long}

name-new_example :
    (e : DirEntry) × (new (97 ∷ 195 ∷ 169 ∷ []) 300 ≡ ok e)
    × (name e ≡ ok (97 ∷ 195 ∷ 169 ∷ []))
    × (e.inode_number ≡ 300)
unfolding is_utf8 utf8_from lead
name-new_example = name-new (97 ∷ 195 ∷ 169 ∷ []) 300 (refl, (refl, (refl, tt))) refl (omega arith)

abbrev long : List ℕ
long = replicate 28 97

replicate-NoZero : (n : ℕ) → NoZero (replicate n 97)
replicate-NoZero zero = tt
replicate-NoZero (suc n) = (refl, replicate-NoZero n)

name_too_long_example :
    (length long ≡ 28 → (e : DirEntry) × (new long 1 ≡ ok e) × (name e ≡ panic))
    × (28 < length long → new long 1 ≡ panic)
name_too_long_example = name_too_long long 1 (replicate-NoZero 28)

abbrev ab : DirEntry
ab = record { name_bytes = 97 ∷ 98 ∷ replicate 26 0; inode_number = 300 }

-- A surrogate, a character that is too long and one that ends early are no strings.
not_utf8 :
    (is_utf8 (237 ∷ 160 ∷ 128 ∷ []) ≡ false)
    × (is_utf8 (192 ∷ 128 ∷ []) ≡ false)
    × (is_utf8 (97 ∷ 226 ∷ 130 ∷ []) ≡ false)
unfolding is_utf8 utf8_from lead
not_utf8 = (refl, refl, refl)
