-- ===== src/Vfs/Mkdir.antt =====
-- `vfs_mkdir`.
use anaga.Prelude.{
  ℕ, ◌<◌, ◌≡◌, refl, ◌∙◌, inl, inr, List, arith, set, get_elem?-set_ne, store_lem, lt-cases,
  leb-true, leb-false, String, Returns, Returns-bind, Returns-mono, ℤ, pos, negsuc,
}
use anaga.CString.Text.{IsCString}
use anaga.File.{
  Inode, max_inodes, max_dir_entries, inode_dir, is_free, find_first, find_inode_in_dir, new_inode,
}
use anaga.File.Search.{First, find_first_lem}
use anaga.File.Lookup.{Entry, Lookup, find_inode_in_dir_lem}
use anaga.File.NewInode.{IsNew, new_inode-IsNew, linked, add_entry_lem}
use anaga.File.Create.{
  Refused, no_free_inode, not_directory, directory_full, name_taken, Placed-Creation, free-ne-dir,
  is_free-ne, is_free-eq,
}
use anaga.Vfs.{Vfs, fail_with, find, place_dir, mkdir_at, vfs_mkdir}
use anaga.Vfs.Valid.{IsValid, dir_lt, Failed, fail_with-Failed}
use anaga.Vfs.Create.{Made, sync-Made}

-- The message for each reason to refuse; the second does not occur, since the current directory is one.
abbrev pub message_for : {a : List Inode} {p : ℕ} {name : List ℕ} → Refused a p name → String
message_for (no_free_inode all) = "No free inodes\n"
message_for (not_directory dir at other) = "Not found\n"
message_for (directory_full dir at full) = "Directory full\n"
message_for (name_taken child entry) = "Already exists\n"

-- The outcomes of `vfs_mkdir`.
pub data MadeDir (v : Vfs) (name : List ℕ) : ℤ × Vfs → Type 0 where
  made : (idx : ℕ) (w : Vfs) → Made inode_dir v name idx w → MadeDir v name (pos idx, w)
  refused :
      (out : ℤ × Vfs) (why : Refused v.inode_array v.current_dir name)
      → Failed (message_for why) v out
      → MadeDir v name out

refuse :
    (name : List ℕ) (v : Vfs)
    → IsValid v
    → (why : Refused v.inode_array v.current_dir name)
    → Returns (MadeDir v name) (fail_with (message_for why) v)
refuse name v h why =
    Returns-mono (Failed (message_for why) v) (MadeDir v name) (fail_with (message_for why) v)
      (fail_with-Failed (message_for why) v h) (λ out f. refused out why f)

place_dir-MadeDir :
    (name : List ℕ) (v : Vfs) (idx : ℕ) (h : IsValid v)
    → IsCString name
    → First is_free max_inodes 0 v.inode_array (pos idx)
    → h.here.inode.num_entries < max_dir_entries
    → ((child : ℕ) → ¬ Entry v.inode_array v.current_dir name child)
    → Returns (MadeDir v name) (place_dir name idx v)
unfolding place_dir
place_dir-MadeDir name v idx h c (k, old, e, below, old_at, free, before) room missing =
    let a = v.inode_array in
    let p = v.current_dir in
    let dir = h.here.inode in
    let same : k ≡ idx = omega arith in
    let ne =
      free-ne-dir a p idx h.here.at h.here.directory (rw same at old_at) (is_free-eq old free) in
    Returns-bind (IsNew name inode_dir p) (MadeDir v name) (new_inode name inode_dir p) _
      (new_inode-IsNew name inode_dir p c (dir_lt v h) (omega arith))
      λ new is_new.
        rw
          (
            store_lem a idx new (omega (arith, h.inodes.count)),
            add_entry_lem p idx (set a idx new) dir (get_elem?-set_ne a new ne ∙ h.here.at)
                (h.inodes.each p dir h.here.at) room,
          )
          (Returns-bind (Made inode_dir v name idx) (MadeDir v name) _ _
            (sync-Made inode_dir v name idx (set (set a idx new) p (linked dir idx)) h (omega arith)
              (Placed-Creation inode_dir a p name idx dir
                (pos idx, set (set a idx new) p (linked dir idx))
                (k, old, e, below, old_at, free, before) h.here.at h.here.directory room missing
                (record { new = new; is_new = is_new; written = refl })))
            (λ w m. made idx w m))

after_find :
    (name : List ℕ) (v : Vfs) (idx : ℕ) (found : ℤ) (h : IsValid v)
    → IsCString name
    → First is_free max_inodes 0 v.inode_array (pos idx)
    → h.here.inode.num_entries < max_dir_entries
    → Lookup v.inode_array v.current_dir name found
    → Returns
        (MadeDir v name)
        (elim found [ pos _ ↦ fail_with "Already exists\n" v | negsuc _ ↦ place_dir name idx v ])
after_find name v idx (pos child) h c f room found = refuse name v h (name_taken child found.0.here)
after_find name v idx (negsuc e) h c f room found = place_dir-MadeDir name v idx h c f room found.1

mkdir_at-MadeDir :
    (name : List ℕ) (v : Vfs) (free : ℤ)
    → IsValid v
    → IsCString name
    → First is_free max_inodes 0 v.inode_array free
    → Returns (MadeDir v name) (mkdir_at name v free)
unfolding mkdir_at find
mkdir_at-MadeDir name v (negsuc e) h c f =
    refuse name v h (no_free_inode (λ k x below at. is_free-ne x (f.1 k x below at)))
mkdir_at-MadeDir name v (pos idx) h c f = elim (lt-cases h.here.inode.num_entries max_dir_entries) [
  | inr full ↦
      rw (h.here.at, leb-true max_dir_entries h.here.inode.num_entries full)
        (refuse name v h (directory_full h.here.inode h.here.at full))
  | inl room ↦
      rw (h.here.at, leb-false max_dir_entries h.here.inode.num_entries room)
        (Returns-bind (Lookup v.inode_array v.current_dir name) (MadeDir v name)
          (find_inode_in_dir v.inode_array v.current_dir name) _
          (find_inode_in_dir_lem v.inode_array v.current_dir name h.inodes c)
          (λ found r. after_find name v idx found h c f room r))
]

-- In a valid file system `vfs_mkdir` of any C string either returns the number of the first free
-- inode, made an empty directory of that name in the current directory, with nothing else in memory
-- changed, and the new inodes on the disk; or it prints why and returns -1, nothing but the screen
-- changed, and then no inode is free, the current directory is full, or it has an entry of that name.
-- The file system is valid after it.
pub vfs_mkdir_lem :
    (name : List ℕ) (v : Vfs)
    → IsValid v
    → IsCString name
    → Returns (MadeDir v name) (vfs_mkdir name v)
unfolding vfs_mkdir
vfs_mkdir_lem name v h c =
    Returns-bind (First is_free max_inodes 0 v.inode_array) (MadeDir v name)
      (find_first is_free max_inodes 0 v.inode_array) (mkdir_at name v)
      (find_first_lem is_free max_inodes 0 v.inode_array (omega (arith, h.inodes.count)))
      (λ free f. mkdir_at-MadeDir name v free h c f)
