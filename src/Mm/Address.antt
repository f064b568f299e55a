-- ===== src/Mm/Address.antt =====
-- os/src/mm/address.rs: addresses and page numbers are numbers below `2 ^ 64`; the wrapper types are
-- dropped. Arithmetic wraps, as in a release build.
pub mod Pages
use r_corev.Prelude.{
  ℕ, zero, suc, ◌+◌, ◌-◌, ◌*◌, ◌/◌, ◌%◌, ◌^◌, Bool, Option, none, some, List, [], ◌∷◌, set, bit_and,
  leb, ◌==◌, if◌then◌else◌, Run, ok, ◌>>=◌, ◌>>◌, assert,
}
use r_corev.Config.{usize_mod, page_size, page_size_bits}

unfoldable pub floor : ℕ → ℕ
floor a = a / page_size

unfoldable pub ceil : ℕ → ℕ
ceil a = ((a + usize_mod - 1) % usize_mod + page_size) % usize_mod / page_size

unfoldable pub page_offset : ℕ → ℕ
page_offset a = bit_and a (page_size - 1)

unfoldable pub aligned : ℕ → Bool
unfolding page_offset
aligned a = page_offset a == 0

-- `From<VirtAddr> for VirtPageNum`, and the same for physical addresses.
unfoldable pub page_of : ℕ → Run ℕ
unfolding floor page_offset
page_of a = do assert (page_offset a == 0); ok (floor a)

-- `From<VirtPageNum> for VirtAddr`, and the same for physical pages.
unfoldable pub addr_of : ℕ → ℕ
addr_of n = n * 2 ^ page_size_bits % usize_mod

indexes_loop : ℕ → ℕ → List ℕ → List ℕ
indexes_loop zero vpn idx = idx
indexes_loop (suc i) vpn idx = indexes_loop i (vpn / 2 ^ 9) (set idx i (bit_and vpn 511))

unfoldable pub indexes : ℕ → List ℕ
unfolding indexes_loop
indexes vpn = indexes_loop 3 vpn (0 ∷ 0 ∷ 0 ∷ [])

pub record SimpleRange : Type 0 where
  pub l : ℕ
  pub r : ℕ

unfoldable pub new : ℕ → ℕ → Run SimpleRange
new start end = do assert (leb start end); ok (record { l = start; r = end })

pub record SimpleRangeIterator : Type 0 where
  pub current : ℕ
  pub end : ℕ

unfoldable pub into_iter : SimpleRange → SimpleRangeIterator
into_iter g = record { current = g.l; end = g.r }

unfoldable pub next : SimpleRangeIterator → Option ℕ × SimpleRangeIterator
next it =
    if it.current == it.end
    then (none, it)
    else (some it.current, record it { current = (it.current + 1) % usize_mod })

-- The numbers that a `for` loop over the iterator visits; `none` means that the fuel ran out.
unfoldable pub collect : ℕ → SimpleRangeIterator → Option (List ℕ)
collect zero it = none
collect (suc f) it =
    let (item, it') = next it in
    elim item [
      | none ↦ some []
      | some v ↦ elim (collect f it') [ none ↦ none | some vs ↦ some (v ∷ vs) ]
    ]
