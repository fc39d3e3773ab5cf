-- ===== src/Vfs/Valid.antt =====
-- The invariant of the file system between two calls, and the parts that every call shares.
use anaga.Prelude.{
  ℕ, ◌<◌, ◌≡◌, refl, sym, ◌∙◌, List, some, String, false, arith, get_elem?, get_elem?-lt, literal,
  Returns, Returns-bind, Returns-elim, Returns-intro, ℤ,
}
use anaga.CString.Text.{IsCString-literal, text}
use anaga.Display.{kprint, put_all}
use anaga.Display.Safety
use anaga.Display.Safety.{kprint-IsValid, kprint_lem}
use anaga.File.{Inode, FileDescriptor, max_inodes, minus_one}
use anaga.File.Valid.{IsInodeArray, IsFdTable}
use anaga.Disk.{Disk, vfs_sync, vfs_load}
use anaga.Disk.Load.{vfs_sync-load}
use anaga.Disk.Sync.{vfs_sync-Returns}
use anaga.Vfs.{Vfs, fail_with, sync}
use anaga.Vfs.Tree.{IsDirAt, IsTree}

-- Every inode, descriptor and cell is in range, the inodes form a tree, the current directory is a
-- directory, and no descriptor is open.
pub record IsValid (v : Vfs) : Type 0 where
  pub inodes : IsInodeArray v.inode_array
  pub tree : IsTree v.inode_array
  pub here : IsDirAt v.inode_array v.current_dir
  pub descriptors : IsFdTable v.fd_table
  pub closed : (j : ℕ) (d : FileDescriptor) → get_elem? v.fd_table j ≡ some d → d.in_use ≡ false
  pub screen : Safety.IsValid v.screen

pub dir_lt : (v : Vfs) → IsValid v → v.current_dir < max_inodes
dir_lt v h = omega (arith, get_elem?-lt v.inode_array v.current_dir h.here.at, h.inodes.count)

-- Only the screen and the disk differ.
pub record SameFiles (v w : Vfs) : Type 0 where
  pub current_dir : w.current_dir ≡ v.current_dir
  pub inode_array : w.inode_array ≡ v.inode_array
  pub fd_table : w.fd_table ≡ v.fd_table

-- A call that fails prints its message, returns -1 and changes nothing but the screen.
pub record Failed (message : String) (v : Vfs) (out : ℤ × Vfs) : Type 0 where
  pub code : out.0 ≡ minus_one
  pub printed : put_all (text (literal message)) v.screen ≡ some out.1.screen
  pub same : SameFiles v out.1
  pub same_disk : out.1.disk ≡ v.disk
  pub valid : IsValid out.1

pub fail_with-Failed :
    (message : String) (v : Vfs) → IsValid v → Returns (Failed message v) (fail_with message v)
unfolding fail_with
fail_with-Failed message v h =
    let c = IsCString-literal message in
    let (screen, e, valid) =
      Returns-elim (λ s. Safety.IsValid s) (kprint (some (literal message)) v.screen)
        (kprint-IsValid (literal message) v.screen c h.screen) in
    rw e (record {
      code = refl;
      printed = sym (kprint_lem (literal message) v.screen c) ∙ e;
      same = record { current_dir = refl; inode_array = refl; fd_table = refl };
      same_disk = refl;
      valid = record {
        inodes = h.inodes;
        tree = h.tree;
        here = h.here;
        descriptors = h.descriptors;
        closed = h.closed;
        screen = valid;
      };
    })

-- The disk holds the inodes in memory: a load gives them back, whatever valid array it loads into.
abbrev pub IsStored : List Inode → Disk → Type 0
IsStored a disk = (before : List Inode) → IsInodeArray before → vfs_load disk before ≡ some a

vfs_sync-IsStored :
    (a : List Inode) (disk : Disk) → IsInodeArray a → Returns (IsStored a) (vfs_sync a disk)
vfs_sync-IsStored a disk v =
    let (out, e, _) =
      Returns-elim (λ out. Unit {0}) (vfs_sync a disk) (vfs_sync-Returns a disk v) in
    Returns-intro (IsStored a) (vfs_sync a disk) e
      (λ before w. let q = rw e at (vfs_sync-load a before disk v w) in q)

-- Writing the inode table to the disk changes nothing in memory, and the disk has it then.
pub record Synced (v w : Vfs) : Type 0 where
  pub same : SameFiles v w
  pub same_screen : w.screen ≡ v.screen
  pub stored : IsStored w.inode_array w.disk
  pub valid : IsValid w

pub sync-Synced : (v : Vfs) → IsValid v → Returns (Synced v) (sync v)
unfolding sync
sync-Synced v h =
    Returns-bind (IsStored v.inode_array) (Synced v) (vfs_sync v.inode_array v.disk) _
      (vfs_sync-IsStored v.inode_array v.disk h.inodes)
      λ disk stored. record {
        same = record { current_dir = refl; inode_array = refl; fd_table = refl };
        same_screen = refl;
        stored = stored;
        valid = record {
          inodes = h.inodes;
          tree = h.tree;
          here = h.here;
          descriptors = h.descriptors;
          closed = h.closed;
          screen = h.screen;
        };
      }
