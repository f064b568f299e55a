-- ===== src/EasyFs/DiskInode/Content.antt =====
-- `DiskInode::read_at` and `DiskInode::write_at` of easy-fs/src/layout.rs. The disk is what callers of
-- the block cache see: the byte at an offset of a block. An `IndirectBlock` is a block read as `u32`
-- numbers in little-endian order.
pub mod Copying
pub mod Reading
pub mod Separate
pub mod Passes
pub mod Writing
pub mod RoundTrip
mod Tests
use r_corev.Prelude.{
  ℕ, zero, suc, ◌+◌, ◌-◌, ◌*◌, ◌/◌, ◌%◌, ◌^◌, Bool, true, false, ◌&&◌, List, [], ◌∷◌, get_or, take,
  drop, length, leb, ltb, ◌==◌, min, if◌then◌else◌, Run, ok, panic, ◌>>=◌, ◌>>◌, assert,
}
use r_corev.Config.{usize_mod}
use r_corev.EasyFs.Device.{block_sz}
use r_corev.EasyFs.DiskInode.{u32_mod, DiskInode, Index, get_block_id, pushes}
use r_corev.EasyFs.DiskInode.Entries.{block_at}

abbrev pub Disk : Type 0
Disk = ℕ → ℕ → ℕ

abbrev pub entry_of : (ℕ → ℕ) → ℕ → ℕ
entry_of block i =
    block (4 * i)
    + 2 ^ 8 * block (4 * i + 1)
    + 2 ^ 16 * block (4 * i + 2)
    + 2 ^ 24 * block (4 * i + 3)

abbrev pub index_of : Disk → Index
index_of disk b = entry_of (disk b)

-- `dst.copy_from_slice(src)` for the part of a buffer that starts at `i`.
abbrev pub copy_at : List ℕ → ℕ → List ℕ → List ℕ
copy_at [] i src = []
copy_at (x ∷ xs) (suc i) src = x ∷ copy_at xs i src
copy_at (x ∷ xs) zero [] = x ∷ xs
copy_at (x ∷ xs) zero (y ∷ src) = y ∷ copy_at xs zero src

-- The loop of `read_at`: without fuel it stops, which the fuel that `read_at` gives excludes.
unfoldable pub read_loop : ℕ → Disk → DiskInode → ℕ → ℕ → ℕ → ℕ → List ℕ → Run (ℕ × List ℕ)
read_loop zero disk d start_block start end read_size buf = panic
read_loop (suc fuel) disk d start_block start end read_size buf =
    let end_current_block = min ((start / block_sz + 1) * block_sz) end in
    let n = end_current_block - start in
    get_block_id (start_block % u32_mod) (index_of disk) d >>= λ block.
    assert (leb (start % block_sz + n) block_sz)
    >> (assert (leb (read_size + n) (length buf))
        >> (let buf' = copy_at buf read_size (pushes (disk block) (start % block_sz) n) in
            elim (end_current_block == end) [
              | true ↦ ok (read_size + n, buf')
              | false ↦
                  read_loop fuel disk d (start_block + 1) end_current_block end (read_size + n) buf'
            ]))

unfoldable pub read_at : ℕ → List ℕ → Disk → DiskInode → Run (ℕ × List ℕ)
unfolding read_loop
read_at offset buf disk d =
    let end = min ((offset + length buf) % usize_mod) d.size in
    if leb end offset
    then ok (0, buf)
    else read_loop end disk d (offset / block_sz) offset end 0 buf

-- The bytes `at`, `at + 1`, … of a block become those of `src`.
abbrev pub write_block : Disk → ℕ → ℕ → List ℕ → Disk
write_block disk b at src c j =
    if (c == b) && (leb at j && ltb j (at + length src)) then get_or src (j - at) 0 else disk c j

unfoldable pub write_loop : ℕ → Disk → DiskInode → ℕ → ℕ → ℕ → ℕ → List ℕ → Run (ℕ × Disk)
write_loop zero disk d start_block start end write_size buf = panic
write_loop (suc fuel) disk d start_block start end write_size buf =
    let end_current_block = min ((start / block_sz + 1) * block_sz) end in
    let n = end_current_block - start in
    get_block_id (start_block % u32_mod) (index_of disk) d >>= λ block.
    assert (leb (write_size + n) (length buf))
    >> (assert (leb (start % block_sz + n) block_sz)
        >> (let disk' = write_block disk block (start % block_sz) (take n (drop write_size buf)) in
            elim (end_current_block == end) [
              | true ↦ ok (write_size + n, disk')
              | false ↦
                  write_loop fuel disk' d (start_block + 1) end_current_block end (write_size + n)
                    buf
            ]))

unfoldable pub write_at : ℕ → List ℕ → Disk → DiskInode → Run (ℕ × Disk)
unfolding write_loop
write_at offset buf disk d =
    let end = min ((offset + length buf) % usize_mod) d.size in
    assert (leb offset end) >> write_loop (end + 1) disk d (offset / block_sz) offset end 0 buf
