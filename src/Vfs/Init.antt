-- ===== src/Vfs/Init.antt =====
-- What `vfs_init` makes of the disk.
use anaga.Prelude.{
  ℕ, ◌≡◌, refl, sym, subst, inl, inr, List, Option, none, some, false, Bool-cases, ◌==◌,
  if◌then◌else◌, arith, set, get_elem?, store_lem, Returns, Returns-elim, get_elem?_of_lt,
}
use anaga.Display.Safety
use anaga.File.{Inode, FileDescriptor, zero_inode, inode_dir}
use anaga.File.Valid.{IsInode, IsInodeArray, IsInodeArray-set, IsFdTable, zero_inode-IsInode}
use anaga.Disk.{vfs_load, vfs_sync}
use anaga.Disk.Sync.{vfs_sync-Returns}
use anaga.Vfs.{Vfs, vfs_init, sync}
use anaga.Vfs.Tree.{IsTree}
use anaga.Vfs.Valid.{IsValid}

abbrev pub empty_root : Inode
empty_root = record zero_inode { type = inode_dir }

pub empty_root-IsInode : IsInode empty_root
empty_root-IsInode =
    let z = zero_inode-IsInode in
    record {
      name_size = z.name_size;
      name_closed = z.name_closed;
      type_fits = omega arith;
      entries_size = z.entries_size;
      entries_used = z.entries_used;
      entries_in = z.entries_in;
      bytes_size = z.bytes_size;
      size_fits = z.size_fits;
      parent_in = z.parent_in;
    }

-- The inodes of a disk that was read, with an empty root where it has none.
abbrev rooted : Option Inode → List Inode → List Inode
rooted none a = a
rooted (some root) a = if root.type == inode_dir then a else set a 0 empty_root

unfoldable pub formatted : List Inode → List Inode
formatted a = rooted (get_elem? a 0) a

-- The state behind it.
pub record Started (v : Vfs) (a : List Inode) (w : Vfs) : Type 0 where
  pub inodes : w.inode_array ≡ formatted a
  pub at_root : w.current_dir ≡ 0
  pub valid : IsValid w

start-IsValid :
    (v : Vfs)
    → IsInodeArray v.inode_array
    → IsTree v.inode_array
    → IsFdTable v.fd_table
    → ((j : ℕ) (d : FileDescriptor) → get_elem? v.fd_table j ≡ some d → d.in_use ≡ false)
    → Safety.IsValid v.screen
    → IsValid (record v { current_dir = 0 })
start-IsValid v inodes tree fds closed screen = record {
  inodes = inodes;
  tree = tree;
  here = tree.root;
  descriptors = fds;
  closed = closed;
  screen = screen;
}

pub vfs_init_lem :
    (v : Vfs) (a : List Inode)
    → vfs_load v.disk v.inode_array ≡ some a
    → IsInodeArray a
    → IsTree (formatted a)
    → IsFdTable v.fd_table
    → ((j : ℕ) (d : FileDescriptor) → get_elem? v.fd_table j ≡ some d → d.in_use ≡ false)
    → Safety.IsValid v.screen
    → Returns (Started v a) (vfs_init v)
unfolding vfs_init formatted sync
vfs_init_lem v a loaded inodes tree fds closed screen =
    let (root, at) = get_elem?_of_lt a 0 (omega (arith, inodes.count)) in
    elim (Bool-cases (root.type == inode_dir)) [
      | inl e ↦
          let same : formatted a ≡ a = rw (at, e) refl in
          rw (loaded, at, e)
            (record {
              inodes = sym same;
              at_root = refl;
              valid =
                  start-IsValid (record v { inode_array = a }) inodes (subst IsTree same tree) fds
                    closed screen;
            })
      | inr e ↦
          let b = set a 0 empty_root in
          let same : formatted a ≡ b = rw (at, e) refl in
          let valid = IsInodeArray-set a 0 empty_root inodes empty_root-IsInode in
          let (disk, written, _) =
            Returns-elim _ (vfs_sync b v.disk) (vfs_sync-Returns b v.disk valid) in
          let placed = store_lem a 0 empty_root (omega (arith, inodes.count)) in
          rw (loaded, at, e, placed, written)
            (record {
              inodes = sym same;
              at_root = refl;
              valid =
                  start-IsValid (record v { inode_array = b; disk = disk }) valid
                    (subst IsTree same tree) fds closed screen;
            })
    ]
