-- ===== src/Examples/Files.antt =====
-- The theorems about files and directories, at a file system with nothing but the root.
use anaga.Prelude.{
  replicate, ℕ, ◌<◌, ◌≡◌, ◌-◌, ◌+◌, ◌^◌, refl, List, some, pos, true, arith, get_elem?,
  get_elem?-set_self, set, take, drop, ◌++◌, min, literal, Returns,
}
use anaga.File.{
  Inode, FileDescriptor, zero_inode, inode_file, file_create, file_open, file_read, file_write,
  find_inode_in_dir,
}
use anaga.File.Valid.{
  IsInode, IsInodeArray, IsInodeArray-set, IsFdTable, IsFdTable-set, zero_inode-IsInode,
}
use anaga.File.Lookup.{Lookup, find_inode_in_dir_lem}
use anaga.File.Create.{Creation, file_create_lem}
use anaga.File.Session.{Found, file_create-find}
use anaga.File.Descriptors.{Opening, file_open_lem, moved}
use anaga.File.Transfer.{file_read_lem, file_write_lem, written}
use anaga.Disk.{vfs_sync}
use anaga.Vfs.{vfs_mkdir, vfs_touch, collect_path}
use anaga.CString.Text.{IsCString-literal}
use anaga.Vfs.Tree.{Collected, collect_path_lem}
use anaga.Vfs.Mkdir.{MadeDir, vfs_mkdir_lem}
use anaga.Vfs.Create.{Touched, vfs_touch_lem}
use anaga.Vfs.{vfs_ls, vfs_pwd, vfs_cat}
use anaga.Vfs.Tree.{PathTo}
use anaga.Vfs.Print.{Printed, ls_text, path_text, vfs_ls_lem, vfs_pwd_lem}
use anaga.Vfs.Cat.{Catted, vfs_cat_lem}
use anaga.Disk.{vfs_load}
use anaga.Disk.Load.{vfs_sync-load}
use anaga.Elf.{Loader}
use anaga.Command.Run.{returns, run_file, run_file-missing}
use anaga.CString.Text.{text}
use anaga.Display.{put_all}
use anaga.Vfs.Valid.{IsValid, SameFiles}
use anaga.Examples.State.{
  root_inode, root_only, cat_buffer, cat_buffer-size, root_only-IsInodeArray, root_only-IsTree,
  root_at, closed_fds, closed_fds-IsFdTable, fresh, fresh-IsValid, blank_screen, root_only-no_Entry,
}

vfs_mkdir_example : Returns (MadeDir fresh (literal "bin")) (vfs_mkdir (literal "bin") fresh)
vfs_mkdir_example = vfs_mkdir_lem (literal "bin") fresh fresh-IsValid (IsCString-literal "bin")

vfs_touch_example : Returns (Touched fresh (literal "a")) (vfs_touch (literal "a") fresh)
vfs_touch_example = vfs_touch_lem (literal "a") fresh fresh-IsValid (IsCString-literal "a")

file_create_example :
    Returns (Creation inode_file root_only 0 (literal "a")) (file_create (literal "a") 0 root_only)
file_create_example =
    file_create_lem (literal "a") 0 root_only root_only-IsInodeArray (IsCString-literal "a")
      (omega arith)

file_create-find_example :
    Returns (Found root_only 0 (literal "a")) (file_create (literal "a") 0 root_only)
file_create-find_example =
    file_create-find (literal "a") 0 root_only root_only-IsInodeArray (IsCString-literal "a")
      (omega arith) (omega arith)

find_inode_in_dir_example :
    Returns (Lookup root_only 0 (literal "a")) (find_inode_in_dir root_only 0 (literal "a"))
find_inode_in_dir_example =
    find_inode_in_dir_lem root_only 0 (literal "a") root_only-IsInodeArray (IsCString-literal "a")

collect_path_example : Returns (Collected root_only 0 List.[]) (collect_path 32 root_only 0 List.[])
collect_path_example =
    collect_path_lem root_only 32 0 root_inode List.[] root_only-IsTree root_at (λ e. omega arith)
      (omega arith)

-- An empty file in inode 1, and a descriptor on it.
abbrev empty_file : Inode
empty_file = record zero_inode { type = inode_file }

empty_file-IsInode : IsInode empty_file
empty_file-IsInode =
    let z = zero_inode-IsInode in
    record {
      name_size = z.name_size;
      name_closed = z.name_closed;
      type_fits = omega arith;
      entries_size = z.entries_size;
      entries_used = z.entries_used;
      entries_in = z.entries_in;
      bytes_size = z.bytes_size;
      size_fits = z.size_fits;
      parent_in = z.parent_in;
    }

abbrev with_file : List Inode
with_file = set root_only 1 empty_file

with_file-IsInodeArray : IsInodeArray with_file
with_file-IsInodeArray =
    IsInodeArray-set root_only 1 empty_file root_only-IsInodeArray empty_file-IsInode

file_at : get_elem? with_file 1 ≡ some empty_file
file_at = get_elem?-set_self root_only 1 empty_file (omega (arith, root_only-IsInodeArray.count))

file_open_example : Returns (Opening with_file closed_fds 1) (file_open 1 with_file closed_fds)
file_open_example = file_open_lem 1 with_file closed_fds with_file-IsInodeArray closed_fds-IsFdTable

abbrev fd_on_file : ℕ → FileDescriptor
fd_on_file position = record { in_use = true; inode_index = 1; position = position }

abbrev fds : ℕ → List FileDescriptor
fds position = set closed_fds 0 (fd_on_file position)

fds-IsFdTable : (position : ℕ) → position < 2 ^ 32 → IsFdTable (fds position)
fds-IsFdTable position h =
    IsFdTable-set closed_fds 0 (fd_on_file position) closed_fds-IsFdTable (omega arith) h

fd_at : (position : ℕ) → get_elem? (fds position) 0 ≡ some (fd_on_file position)
fd_at position =
    get_elem?-set_self closed_fds 0 (fd_on_file position)
      (omega (arith, closed_fds-IsFdTable.count))

abbrev two_bytes : List ℕ
two_bytes = literal "a"

file_size_zero : empty_file.size ≡ 0
unfolding zero_inode
file_size_zero = refl

file_write_example :
    file_write (pos 0) two_bytes 2 with_file (fds 8000)
    ≡ some (
      pos 2,
      set with_file 1 (
          written 0 with_file
            (fds 8000)
            (fd_on_file 8000)
            empty_file
            (fds-IsFdTable 8000 (omega arith))
            (fd_at 8000)
            refl
            file_at
            empty_file-IsInode
            two_bytes
            2),
      set (fds 8000) 0 (moved (fd_on_file 8000) 8002),
    )
file_write_example =
    file_write_lem 0 with_file (fds 8000) (fd_on_file 8000) empty_file
      (fds-IsFdTable 8000 (omega arith)) (fd_at 8000) refl file_at empty_file-IsInode two_bytes 2
      (omega arith) (omega arith) (omega arith)

file_read_example :
    file_read (pos 0) two_bytes 2 with_file (fds 0)
    ≡ some (
      pos (min 2 (empty_file.size - 0)),
      take (min 2 (empty_file.size - 0)) (drop 0 empty_file.bytes)
          ++ drop (min 2 (empty_file.size - 0)) two_bytes,
      set (fds 0) 0 (moved (fd_on_file 0) (0 + min 2 (empty_file.size - 0))),
    )
file_read_example =
    file_read_lem 0 with_file (fds 0) (fd_on_file 0) empty_file (fds-IsFdTable 0 (omega arith))
      (fd_at 0) refl file_at empty_file-IsInode two_bytes 2 (omega (arith, file_size_zero))
      (omega arith) (omega arith)

abbrev loader : Loader
loader = record { vfs = fresh; memory = replicate 64 0 }

vfs_ls_example :
    (dir : Inode) × (get_elem? root_only 0 ≡ some dir)
    × Returns (Printed fresh (ls_text root_only dir)) (vfs_ls fresh)
vfs_ls_example = vfs_ls_lem fresh fresh-IsValid

vfs_pwd_example :
    (up : List ℕ) × PathTo root_only 0 up
    × Returns (Printed fresh (path_text root_only up)) (vfs_pwd fresh)
vfs_pwd_example = vfs_pwd_lem fresh fresh-IsValid

vfs_cat_example :
    Returns (Catted fresh (literal "notes")) (vfs_cat (literal "notes") cat_buffer fresh)
vfs_cat_example =
    vfs_cat_lem (literal "notes") cat_buffer fresh fresh-IsValid (IsCString-literal "notes")
      cat_buffer-size

vfs_sync-load_example :
    Returns (λ out. vfs_load out root_only ≡ some with_file) (vfs_sync with_file fresh.disk)
vfs_sync-load_example =
    vfs_sync-load with_file root_only fresh.disk with_file-IsInodeArray root_only-IsInodeArray

run_file-missing_example :
    (s' : Loader) × (run_file (literal "init") loader ≡ some (returns s'))
    × (s'.memory ≡ replicate 64 0)
    × SameFiles fresh s'.vfs
    × (s'.vfs.disk ≡ fresh.disk)
    × (put_all (text (literal "ELF: Failed to read header\n")) blank_screen ≡ some s'.vfs.screen)
    × IsValid s'.vfs
run_file-missing_example =
    run_file-missing (literal "init") loader fresh-IsValid (IsCString-literal "init")
      (root_only-no_Entry (literal "init"))
