-- ===== src/Examples/State.antt =====
-- A file system with nothing but the root, and a screen with nothing on it.
use anaga.Prelude.{
  ℕ, ◌+◌, ◌<◌, ◌≡◌, ◌≢◌, refl, ap, sym, subst, ◌∙◌, List, some, false, arith, replicate,
  length-replicate, length, get_elem?, get_elem?-lt, get_elem?-replicate, get_elem?-set_ne,
  get_elem?-set_self, set, eq-cases, inl, inr,
}
use anaga.Display.{Screen, blank}
use anaga.Display.Safety
use anaga.File.{
  Inode, FileDescriptor, zero_inode, max_inodes, max_file_size, max_open_files, inode_free,
  inode_dir,
}
use anaga.File.Valid.{IsInode, IsInodeArray, IsInodeArray-set, IsFdTable, zero_inode-IsInode}
use anaga.File.Lookup.{Entry}
use anaga.Vfs.{Vfs}
use anaga.Vfs.Tree.{IsTree}
use anaga.Vfs.Valid.{IsValid}

abbrev pub blank_screen : Screen
blank_screen = record { vga = replicate 2000 blank; cursor_x = 0; cursor_y = 0 }

pub blank_screen-IsValid : Safety.IsValid blank_screen
blank_screen-IsValid = record {
  size = length-replicate 2000 blank;
  column = omega arith;
  row = omega arith;
}

abbrev pub root_inode : Inode
root_inode = record zero_inode { type = inode_dir }

root_inode-IsInode : IsInode root_inode
root_inode-IsInode =
    let z = zero_inode-IsInode in
    record {
      name_size = z.name_size;
      name_closed = z.name_closed;
      type_fits = omega arith;
      entries_size = z.entries_size;
      entries_used = z.entries_used;
      entries_in = z.entries_in;
      bytes_size = z.bytes_size;
      size_fits = z.size_fits;
      parent_in = z.parent_in;
    }

abbrev zero_inodes : List Inode
zero_inodes = replicate max_inodes zero_inode

abbrev pub root_only : List Inode
root_only = set zero_inodes 0 root_inode

zero_inode_at : (i : ℕ) (x : Inode) → get_elem? zero_inodes i ≡ some x → x ≡ zero_inode
zero_inode_at i x h =
    let inside : i < max_inodes =
      omega (arith, get_elem?-lt zero_inodes i h, length-replicate max_inodes zero_inode) in
    cc (h, get_elem?-replicate max_inodes i zero_inode inside)

zero_inodes-IsInodeArray : IsInodeArray zero_inodes
zero_inodes-IsInodeArray = record {
  count = length-replicate max_inodes zero_inode;
  each = λ i x h. subst IsInode (sym (zero_inode_at i x h)) zero_inode-IsInode;
}

pub root_only-IsInodeArray : IsInodeArray root_only
root_only-IsInodeArray =
    IsInodeArray-set zero_inodes 0 root_inode zero_inodes-IsInodeArray root_inode-IsInode

pub root_at : get_elem? root_only 0 ≡ some root_inode
root_at =
    get_elem?-set_self zero_inodes 0 root_inode
      (omega (arith, length-replicate max_inodes zero_inode))

zero_inode-free : zero_inode.type ≡ inode_free
unfolding zero_inode
zero_inode-free = refl

-- Every inode but the root is free.
others_free : (i : ℕ) (x : Inode) → get_elem? root_only i ≡ some x → x.type ≢ inode_free → i ≡ 0
others_free i x h used = elim (eq-cases 0 i) [
  | inl e ↦ sym e
  | inr ne ↦ absurd (
      used (
        ap (λ (x : Inode). x.type)
          (zero_inode_at i x (sym (get_elem?-set_ne zero_inodes root_inode ne) ∙ h))
        ∙ zero_inode-free))
]

pub root_only-IsTree : IsTree root_only
root_only-IsTree = record {
  root = record { inode = root_inode; at = root_at; directory = refl };
  packed = λ i j x y lt h k used free. absurd (let e = others_free j y k used in omega arith);
  parent = λ i x h used ne. absurd (ne (others_free i x h used));
}

abbrev pub closed_fd : FileDescriptor
closed_fd = record { in_use = false; inode_index = 0; position = 0 }

abbrev pub closed_fds : List FileDescriptor
closed_fds = replicate max_open_files closed_fd

closed_fd_at : (i : ℕ) (d : FileDescriptor) → get_elem? closed_fds i ≡ some d → d ≡ closed_fd
closed_fd_at i d h =
    let inside : i < max_open_files =
      omega (arith, get_elem?-lt closed_fds i h, length-replicate max_open_files closed_fd) in
    cc (h, get_elem?-replicate max_open_files i closed_fd inside)

pub closed_fds-IsFdTable : IsFdTable closed_fds
closed_fds-IsFdTable = record {
  count = length-replicate max_open_files closed_fd;
  each = λ i d h. let e = closed_fd_at i d h in rw e (omega arith, omega arith);
}

abbrev pub fresh : Vfs
fresh = record {
  current_dir = 0;
  inode_array = root_only;
  fd_table = closed_fds;
  screen = blank_screen;
  disk = λ sector. replicate 512 0;
}

pub fresh-IsValid : IsValid fresh
fresh-IsValid = record {
  inodes = root_only-IsInodeArray;
  tree = root_only-IsTree;
  here = record { inode = root_inode; at = root_at; directory = refl };
  descriptors = closed_fds-IsFdTable;
  closed = λ j d h. ap (λ (d : FileDescriptor). d.in_use) (closed_fd_at j d h);
  screen = blank_screen-IsValid;
}

zero_inode-no_entries : zero_inode.num_entries ≡ 0
unfolding zero_inode
zero_inode-no_entries = refl

pub root_only-no_Entry : (name : List ℕ) (child : ℕ) → ¬ Entry root_only 0 name child
root_only-no_Entry name child e =
    let same : e.dir ≡ root_inode = cc (e.at, root_at) in
    let n : e.dir.num_entries ≡ 0 =
      ap (λ (x : Inode). x.num_entries) same ∙ zero_inode-no_entries in
    absurd (omega (arith, e.used, n))

-- What the local buffer of `vfs_cat` may hold.
abbrev pub cat_buffer : List ℕ
cat_buffer = replicate (max_file_size + 1) 0

pub cat_buffer-size : max_file_size < length cat_buffer
cat_buffer-size = omega (arith, length-replicate {A = ℕ} (max_file_size + 1) 0)
