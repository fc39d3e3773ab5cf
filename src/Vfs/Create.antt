-- ===== src/Vfs/Create.antt =====
-- `vfs_touch`, and the addition of an entry that it shares with `vfs_mkdir`.
use anaga.Prelude.{
  ℕ, ◌≡◌, ◌≢◌, sym, subst, some, List, arith, ◌>>=◌, Returns, Returns-bind, Returns-mono, ℤ, pos,
  negsuc,
}
use anaga.CString.Text.{IsCString}
use anaga.File.{Inode, inode_free, inode_file, file_create}
use anaga.File.Create.{Added, Refused, Creation, file_create_lem}
use anaga.File.Added.{Added-IsInodeArray}
use anaga.Vfs.{Vfs, fail_with, sync, vfs_touch}
use anaga.Vfs.Tree.{Added-IsTree, Added-IsDirAt}
use anaga.Vfs.Valid.{IsValid, dir_lt, Failed, fail_with-Failed, IsStored, Synced, sync-Synced}

-- What `vfs_mkdir` and `vfs_touch` do when they succeed: the current directory has one entry more,
-- nothing else in memory has changed, and the disk holds the inodes.
pub record Made (type : ℕ) (v : Vfs) (name : List ℕ) (idx : ℕ) (w : Vfs) : Type 0 where
  pub added : Added type v.inode_array v.current_dir name idx w.inode_array
  pub same_dir : w.current_dir ≡ v.current_dir
  pub same_fds : w.fd_table ≡ v.fd_table
  pub same_screen : w.screen ≡ v.screen
  pub stored : IsStored w.inode_array w.disk
  pub valid : IsValid w

-- The file system with an entry added, before it is written to the disk.
Added-IsValid :
    (type : ℕ) (v : Vfs) (name : List ℕ) (idx : ℕ) (a : List Inode)
    → IsValid v
    → type ≢ inode_free
    → Added type v.inode_array v.current_dir name idx a
    → IsValid (record v { inode_array = a })
Added-IsValid type v name idx a h kind added = record {
  inodes = Added-IsInodeArray type v.inode_array v.current_dir name idx a h.inodes added;
  tree = Added-IsTree type v.inode_array v.current_dir name idx a h.tree added kind;
  here =
      Added-IsDirAt type v.inode_array v.current_dir name idx a h.tree added kind v.current_dir
        h.here;
  descriptors = h.descriptors;
  closed = h.closed;
  screen = h.screen;
}

pub sync-Made :
    (type : ℕ) (v : Vfs) (name : List ℕ) (idx : ℕ) (a : List Inode)
    → IsValid v
    → type ≢ inode_free
    → Added type v.inode_array v.current_dir name idx a
    → Returns (Made type v name idx) (sync (record v { inode_array = a }))
sync-Made type v name idx a h kind added =
    Returns-mono (Synced (record v { inode_array = a })) (Made type v name idx) _
      (sync-Synced (record v { inode_array = a }) (Added-IsValid type v name idx a h kind added))
      λ w s. record {
        added =
            subst (Added type v.inode_array v.current_dir name idx) (sym s.same.inode_array) added;
        same_dir = s.same.current_dir;
        same_fds = s.same.fd_table;
        same_screen = s.same_screen;
        stored = s.stored;
        valid = s.valid;
      }

-- The outcomes of `vfs_touch`.
pub data Touched (v : Vfs) (name : List ℕ) : ℤ × Vfs → Type 0 where
  made : (idx : ℕ) (w : Vfs) → Made inode_file v name idx w → Touched v name (pos 0, w)
  refused :
      (out : ℤ × Vfs)
      → Refused v.inode_array v.current_dir name
      → Failed "Cannot create file\n" v out
      → Touched v name out

touch_result :
    (name : List ℕ) (v : Vfs) (out : ℤ × List Inode)
    → IsValid v
    → Creation inode_file v.inode_array v.current_dir name out
    → Returns (Touched v name) (elim out.0 [
      | negsuc _ ↦ fail_with "Cannot create file\n" (record v { inode_array = out.1 })
      | pos _ ↦ sync (record v { inode_array = out.1 }) >>= λ v'. some (pos 0, v')
    ])
touch_result name v (pos idx, a) h c =
    Returns-bind (Made inode_file v name idx) (Touched v name) (sync (record v { inode_array = a }))
      _ (sync-Made inode_file v name idx a h (omega arith) c) (λ w m. made idx w m)
touch_result name v (negsuc e, a) h c = rw (c.1) (
    Returns-mono (Failed "Cannot create file\n" v) (Touched v name)
      (fail_with "Cannot create file\n" v) (fail_with-Failed "Cannot create file\n" v h)
      (λ out f. refused out c.2 f))

-- In a valid file system `vfs_touch` of any C string either returns 0, with one new empty file of
-- that name in the current directory, nothing else in memory changed, and the new inodes on the disk;
-- or it prints `Cannot create file` and returns -1, nothing but the screen changed, and then
-- `file_create` had a reason to refuse. The file system is valid after it.
pub vfs_touch_lem :
    (name : List ℕ) (v : Vfs)
    → IsValid v
    → IsCString name
    → Returns (Touched v name) (vfs_touch name v)
unfolding vfs_touch
vfs_touch_lem name v h c =
    Returns-bind (Creation inode_file v.inode_array v.current_dir name) (Touched v name)
      (file_create name v.current_dir v.inode_array) _
      (file_create_lem name v.current_dir v.inode_array h.inodes c (dir_lt v h))
      (λ out r. touch_result name v out h r)
