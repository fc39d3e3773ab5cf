-- ===== src/File/NewInode.antt =====
-- The parts of `file_create` and `vfs_mkdir`: a fresh inode with its name, and a new entry.
use anaga.Prelude.{
  ℕ, suc, ◌+◌, ◌-◌, ◌%◌, ◌≤◌, ◌<◌, ◌≡◌, refl, sym, ap, ◌∙◌, inl, inr, some, List, [], ◌∷◌, ◌++◌,
  arith, length, take, set, replicate, get_elem?, store_lem, length-append, length-replicate,
  length-take, length-set, get_elem?-lt, append_assoc, append-nil, AllAt-set, lt-cases, Returns,
  Returns-bind,
}
use anaga.CString.{strncpy}
use anaga.CString.Text.{IsCString, text}
use anaga.CString.Nul.{
  NoNul, text-NoNul, take-NoNul, IsCString-append_nul, text-append_nul, text-set_nul,
  IsCString-set_nul, take_all, length-take_le,
}
use anaga.CString.Copy.{strncpy_short, strncpy_long}
use anaga.File.{
  Inode, zero_inode, max_inodes, max_dir_entries, max_filename, u32, new_inode, add_entry,
}
use anaga.File.Valid.{IsInode, zero_inode-IsInode}

-- The first 31 bytes of a text, closed, in an array of 32.
record IsStored (name : List ℕ) (copied : List ℕ) : Type 0 where
  size : length copied ≡ max_filename
  closed : IsCString copied
  stored : text copied ≡ take (max_filename - 1) (text name)

IsStored-append :
    (name t r : List ℕ)
    → NoNul t
    → t ≡ take (max_filename - 1) (text name)
    → length t + suc (length r) ≡ max_filename
    → IsStored name (t ++ 0 ∷ r)
IsStored-append name t r clean e n = record {
  size = length-append t (0 ∷ r) ∙ n;
  closed = IsCString-append_nul t r;
  stored = text-append_nul t r clean ∙ e;
}

-- `strncpy` pads a short name up to the end of the array, and cuts a long one short of its end.
strncpy-IsStored :
    (name : List ℕ)
    → IsCString name
    → Returns (IsStored name) (strncpy (replicate max_filename 0) name (max_filename - 1))
unfolding replicate
strncpy-IsStored name c = elim (lt-cases (length (text name)) 31) [
  | inl short ↦
      let pad : 32 - length (text name) ≡ suc (31 - length (text name)) = omega arith in
      rw (strncpy_short (replicate 32 0) name 31 c short (omega arith), pad, append_assoc)
        (IsStored-append name (text name) (replicate (31 - length (text name)) 0 ++ [])
          (text-NoNul name) (sym (take_all 31 (text name) (omega arith)))
          (rw append-nil (omega (arith, length-replicate {A = ℕ} (31 - length (text name)) 0))))
  | inr long ↦ rw (strncpy_long (replicate 32 0) name 31 c long (omega arith)) (
      IsStored-append name (take 31 (text name)) [] (take-NoNul 31 (text name) (text-NoNul name))
        refl (omega (arith, length-take 31 (text name) long)))
]

-- A fresh inode of type `type` in `parent`, with the first 31 bytes of the text of `name`.
pub record IsNew (name : List ℕ) (type parent : ℕ) (inode : Inode) : Type 0 where
  pub valid : IsInode inode
  pub stored : text inode.name ≡ take (max_filename - 1) (text name)
  pub kind : inode.type ≡ type
  pub size : inode.size ≡ 0
  pub parent_inode : inode.parent_inode ≡ parent
  pub num_entries : inode.num_entries ≡ 0

named-IsInode :
    (copied : List ℕ) (type parent : ℕ)
    → length copied ≡ max_filename
    → IsCString copied
    → parent < max_inodes
    → type < u32
    → IsInode (record zero_inode { name = copied; type = type; parent_inode = parent })
named-IsInode copied type parent n c p k =
    let z = zero_inode-IsInode in
    record {
      name_size = n;
      name_closed = c;
      type_fits = k;
      entries_size = z.entries_size;
      entries_used = z.entries_used;
      entries_in = z.entries_in;
      bytes_size = z.bytes_size;
      size_fits = z.size_fits;
      parent_in = p;
    }

pub new_inode-IsNew :
    (name : List ℕ) (type parent : ℕ)
    → IsCString name
    → parent < max_inodes
    → type < u32
    → Returns (IsNew name type parent) (new_inode name type parent)
unfolding new_inode zero_inode
new_inode-IsNew name type parent c p k =
    Returns-bind (IsStored name) (IsNew name type parent)
      (strncpy (replicate max_filename 0) name (max_filename - 1)) _ (strncpy-IsStored name c)
      λ copied s. record {
        valid = named-IsInode copied type parent s.size s.closed p k;
        stored = s.stored;
        kind = refl;
        size = refl;
        parent_inode = refl;
        num_entries = refl;
      }

-- `new_file->name[MAX_FILENAME - 1] = '\0'` changes no text, nor do the writes of zeros.
abbrev pub finish : Inode → Inode
finish inode = record inode {
  name = set inode.name (max_filename - 1) 0;
  size = 0;
  num_entries = 0;
}

pub finish-IsNew :
    (name : List ℕ) (type parent : ℕ) (inode : Inode)
    → IsNew name type parent inode
    → IsNew name type parent (finish inode)
finish-IsNew name type parent inode h =
    let short : length (text inode.name) ≤ 31 =
      omega (arith, ap length h.stored, length-take_le 31 (text name)) in
    let v = h.valid in
    record {
      valid = record {
        name_size = length-set inode.name 31 0 ∙ v.name_size;
        name_closed = IsCString-set_nul inode.name 31 v.name_closed;
        type_fits = v.type_fits;
        entries_size = v.entries_size;
        entries_used = omega arith;
        entries_in = v.entries_in;
        bytes_size = v.bytes_size;
        size_fits = omega arith;
        parent_in = v.parent_in;
      };
      stored = text-set_nul inode.name 31 v.name_closed short ∙ h.stored;
      kind = h.kind;
      size = refl;
      parent_inode = h.parent_inode;
      num_entries = refl;
    }

-- A directory with one more entry.
abbrev pub linked : Inode → ℕ → Inode
linked dir idx = record dir {
  dir_entries = set dir.dir_entries dir.num_entries idx;
  num_entries = dir.num_entries + 1;
}

pub linked-IsInode :
    (dir : Inode) (idx : ℕ)
    → IsInode dir
    → dir.num_entries < max_dir_entries
    → idx < max_inodes
    → IsInode (linked dir idx)
linked-IsInode dir idx v room h = record {
  name_size = v.name_size;
  name_closed = v.name_closed;
  type_fits = v.type_fits;
  entries_size = length-set dir.dir_entries dir.num_entries idx ∙ v.entries_size;
  entries_used = omega arith;
  entries_in =
      AllAt-set (λ k child. child < max_inodes) dir.dir_entries dir.num_entries idx v.entries_in h;
  bytes_size = v.bytes_size;
  size_fits = v.size_fits;
  parent_in = v.parent_in;
}

pub add_entry_lem :
    (p idx : ℕ) (a : List Inode) (dir : Inode)
    → get_elem? a p ≡ some dir
    → IsInode dir
    → dir.num_entries < max_dir_entries
    → add_entry p idx a ≡ some (set a p (linked dir idx))
unfolding add_entry
add_entry_lem p idx a dir at v room =
    let wrap : (dir.num_entries + 1) % u32 ≡ dir.num_entries + 1 = omega arith in
    rw (at, store_lem dir.dir_entries dir.num_entries idx (omega (arith, v.entries_size)), wrap)
      (store_lem a p (linked dir idx) (get_elem?-lt a p at))
