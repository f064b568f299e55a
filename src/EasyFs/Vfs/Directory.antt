-- ===== src/EasyFs/Vfs/Directory.antt =====
-- The root directory is a list of names with their inode numbers: `find_inode_id` looks a name up in
-- it, and `ls` lists the names.
use r_corev.Prelude.{
  ℕ, ◌+◌, ◌-◌, ◌*◌, ◌/◌, ◌%◌, ◌≤◌, ◌≡◌, refl, ap, ◌∙◌, Bool, true, false, Option, none, some, List,
  [], ◌∷◌, append-nil, min, map, length, length-replicate, replicate, drop, drop-all, Run, ok,
  if◌then◌else◌, arith, Bool-cases, inl, inr,
}
use r_corev.EasyFs.Device.{block_sz}
use r_corev.EasyFs.DiskInode.{DiskInode, u32_mod, indirect2_bound, is_dir, pushes}
use r_corev.EasyFs.DiskInode.Content.{Disk}
use r_corev.EasyFs.DiskInode.Content.Copying.{length-pushes}
use r_corev.EasyFs.DiskInode.Content.Reading.{content, read_at_lem}
use r_corev.EasyFs.DirEntry
use r_corev.EasyFs.DirEntry.{DirEntry}
use r_corev.EasyFs.Efs.{EasyFileSystem, Store}
use r_corev.EasyFs.Vfs.{
  Inode, disk_inode, dirent_sz, same, read_entry, find_loop, find_inode_id, create, ls_loop, ls,
}

-- The entry at place `i` of a directory.
abbrev pub entry_at : Disk → DiskInode → ℕ → DirEntry
entry_at disk d i = DirEntry.from_bytes (pushes (content disk d) (dirent_sz * i) dirent_sz)

-- The entries from place `i` on have these names, with these numbers beside them.
abbrev pub Lists : Disk → DiskInode → ℕ → List (List ℕ × ℕ) → Type 0
Lists disk d i [] = Unit {0}
Lists disk d i ((name, number) ∷ rest) =
    (DirEntry.name (entry_at disk d i) ≡ ok name)
    × (number ≡ (entry_at disk d i).inode_number % u32_mod)
    × Lists disk d (i + 1) rest

-- The number beside the first occurrence of a name.
abbrev pub lookup : List ℕ → List (List ℕ × ℕ) → Option ℕ
lookup name [] = none
lookup name ((found, number) ∷ rest) = if same found name then some number else lookup name rest

read_entry_lem :
    (i : ℕ) (buf : List ℕ) (disk : Disk) (d : DiskInode)
    → d.size ≤ indirect2_bound * block_sz
    → dirent_sz * i + dirent_sz ≤ d.size
    → length buf ≡ dirent_sz
    → read_entry i buf disk d ≡ ok (pushes (content disk d) (dirent_sz * i) dirent_sz)
unfolding read_entry
read_entry_lem i buf disk d hs h hl =
    let size : min (dirent_sz * i + length buf) d.size - dirent_sz * i ≡ dirent_sz = omega arith in
    let read = read_at_lem (dirent_sz * i) buf disk d hs (omega arith) in
    let none_left : drop dirent_sz buf ≡ [] = drop-all buf dirent_sz (omega arith) in
    rw read
      (rw (size, none_left, append-nil (pushes (content disk d) (dirent_sz * i) dirent_sz)) refl)

find_loop_lem :
    (entries : List (List ℕ × ℕ)) (i : ℕ) (name buf : List ℕ) (disk : Disk) (d : DiskInode)
    → d.size ≤ indirect2_bound * block_sz
    → dirent_sz * (i + length entries) ≤ d.size
    → length buf ≡ dirent_sz
    → Lists disk d i entries
    → find_loop (length entries) i name buf disk d ≡ ok (lookup name entries)
unfolding find_loop
find_loop_lem [] i name buf disk d hs h hl l = refl
find_loop_lem ((found, number) ∷ rest) i name buf disk d hs h hl (e, at, l) =
    let read = read_entry_lem i buf disk d hs (omega arith) hl in
    let next =
      find_loop_lem rest (i + 1) name (pushes (content disk d) (dirent_sz * i) dirent_sz) disk d hs
        (omega arith) (length-pushes (content disk d) (dirent_sz * i) dirent_sz) l in
    let f : Bool → Run (Option ℕ) = λ b. elim b [
      | true ↦ ok (some ((entry_at disk d i).inode_number % u32_mod))
      | false ↦
          find_loop (length rest) (i + 1) name (pushes (content disk d) (dirent_sz * i) dirent_sz)
            disk d
    ] in
    rw (read, e)
      (elim (Bool-cases (same found name)) [
        | inl t ↦ ap f t ∙ rw (t, at) refl
        | inr t ↦ ap f t ∙ rw t next
      ])

-- Where the entries of a directory of at most the largest size have the names and numbers of a list, `find_inode_id` gives the
-- number beside the first occurrence of the name in the list, or nothing where it has no occurrence.
pub find_inode_id_lem :
    (entries : List (List ℕ × ℕ)) (name : List ℕ) (disk : Disk) (d : DiskInode)
    → is_dir d ≡ true
    → d.size ≤ indirect2_bound * block_sz
    → length entries ≡ d.size / dirent_sz
    → Lists disk d 0 entries
    → find_inode_id name disk d ≡ ok (lookup name entries)
unfolding find_inode_id
find_inode_id_lem entries name disk d dir hs hn l =
    rw (dir, ← hn)
      (find_loop_lem entries 0 name (replicate dirent_sz 0) disk d hs (omega arith)
        (length-replicate {A = ℕ} dirent_sz 0) l)

ls_loop_lem :
    (entries : List (List ℕ × ℕ)) (i : ℕ) (disk : Disk) (d : DiskInode)
    → d.size ≤ indirect2_bound * block_sz
    → dirent_sz * (i + length entries) ≤ d.size
    → Lists disk d i entries
    → ls_loop (length entries) i disk d ≡ ok (map (λ e. e.0) entries)
unfolding ls_loop
ls_loop_lem [] i disk d hs h l = refl
ls_loop_lem ((name, number) ∷ rest) i disk d hs h (e, at, l) =
    let read =
      read_entry_lem i (replicate dirent_sz 0) disk d hs (omega arith)
        (length-replicate {A = ℕ} dirent_sz 0) in
    rw (read, e, ls_loop_lem rest (i + 1) disk d hs (omega arith) l) refl

-- Where the entries of a directory of at most the largest size have the names and numbers of a list, `ls` gives the names in their
-- order.
pub ls_lem :
    (entries : List (List ℕ × ℕ)) (root : Inode) (s : Store)
    → (disk_inode root s).size ≤ indirect2_bound * block_sz
    → length entries ≡ (disk_inode root s).size / dirent_sz
    → Lists s.bytes (disk_inode root s) 0 entries
    → ls root s ≡ ok (map (λ e. e.0) entries)
unfolding ls
ls_lem entries root s hs hn l =
    rw (← hn) (ls_loop_lem entries 0 s.bytes (disk_inode root s) hs (omega arith) l)

-- Where the root directory, of at most the largest size, lists a name already, `create` gives nothing and changes nothing.
pub create_present :
    (entries : List (List ℕ × ℕ)) (name : List ℕ) (number : ℕ) (root : Inode) (efs : EasyFileSystem)
    (s : Store)
    → is_dir (disk_inode root s) ≡ true
    → (disk_inode root s).size ≤ indirect2_bound * block_sz
    → length entries ≡ (disk_inode root s).size / dirent_sz
    → Lists s.bytes (disk_inode root s) 0 entries
    → lookup name entries ≡ some number
    → create name root efs s ≡ ok (none, s)
unfolding create
create_present entries name number root efs s dir hs hn l e =
    rw (find_inode_id_lem entries name s.bytes (disk_inode root s) dir hs hn l, e) refl
