-- ===== src/Mm/Address/Pages.antt =====
-- Addresses, pages and page table indices.
use r_corev.Prelude.{
  ℕ, zero, suc, ◌+◌, ◌*◌, ◌/◌, ◌%◌, ◌^◌, ◌≤◌, ◌<◌, ◌≡◌, refl, ◌∙◌, some, List, [], ◌∷◌, bit_and,
  and_mask, ok, panic, arith, ◌≢◌, sym,
}
use r_corev.Config.{usize_mod, page_size, page_size_bits}
use r_corev.Mm.Address.{floor, ceil, page_offset, page_of, addr_of, indexes, next, collect}

pub page_offset_lem : (a : ℕ) → page_offset a ≡ a % page_size
unfolding page_offset
page_offset_lem a = and_mask 12 a

-- An address is its page and its offset in it.
pub floor_offset : (a : ℕ) → floor a * page_size + page_offset a ≡ a
unfolding floor
floor_offset a = omega (arith, page_offset_lem a)

-- `ceil` is the least page boundary that is not below the address, at 0 and at every address that is
-- a page or more from the end of the address space.
pub ceil_least :
    (a : ℕ)
    → a + page_size ≤ usize_mod
    → (a ≤ ceil a * page_size) × (ceil a * page_size < a + page_size)
unfolding ceil
ceil_least a h = omega arith

-- The address of a page number below `2 ^ 52` is the number times the page size, and the page of that
-- address is the number.
pub page_of-addr_of :
    (n : ℕ) → n < 2 ^ 52 → (addr_of n ≡ n * page_size) × (page_of (addr_of n) ≡ ok n)
unfolding page_of addr_of
page_of-addr_of n h =
    (omega arith, ground (arith, page_offset_lem (n * 2 ^ page_size_bits % usize_mod)))

-- An address that is not aligned has no page number: the conversion stops the kernel.
pub page_of-panic : (a : ℕ) → a % page_size ≢ 0 → page_of a ≡ panic
unfolding page_of
page_of-panic a h = ground (arith, page_offset_lem a)

mask_9 : (x : ℕ) → bit_and x 511 ≡ x % 512
mask_9 x = and_mask 9 x

pub indexes_lem :
    (vpn : ℕ) → indexes vpn ≡ (vpn / 512 / 512 % 512) ∷ (vpn / 512 % 512) ∷ (vpn % 512) ∷ []
unfolding indexes
indexes_lem vpn = rw (mask_9 (vpn / 2 ^ 9 / 2 ^ 9), mask_9 (vpn / 2 ^ 9), mask_9 vpn) refl

-- Two pages of the 39-bit address space with the same three indices are one.
pub indexes-injective : (v w : ℕ) → v < 2 ^ 27 → w < 2 ^ 27 → indexes v ≡ indexes w → v ≡ w
indexes-injective v w hv hw e = omega (arith, index_eqs)
  where
    e' :
        (v / 512 / 512 % 512) ∷ (v / 512 % 512) ∷ (v % 512) ∷ []
        ≡ (w / 512 / 512 % 512) ∷ (w / 512 % 512) ∷ (w % 512) ∷ []
    e' = sym (indexes_lem v) ∙ e ∙ indexes_lem w

    index_eqs :
        (v / 512 / 512 % 512 ≡ w / 512 / 512 % 512)
        × (v / 512 % 512 ≡ w / 512 % 512)
        × (v % 512 ≡ w % 512)
    index_eqs = (cc e', cc e', cc e')

-- The numbers from `l` on, `n` of them.
abbrev pub range : ℕ → ℕ → List ℕ
range l zero = []
range l (suc n) = l ∷ range (l + 1) n

-- With fuel for more rounds than `r - l`, a loop over `[l, r)` visits exactly `l`, `l + 1`, … , `r - 1` and ends.
pub collect-range :
    (f n l r : ℕ)
    → l + n ≡ r
    → r < usize_mod
    → n < f
    → collect f (record { current = l; end = r }) ≡ some (range l n)
unfolding collect next
collect-range zero n l r e b h = elim h [ ]
collect-range (suc f) zero l r e b h = ground arith
collect-range (suc f) (suc n) l r e b h = ground (arith, collect-range f n (l + 1) r)
