-- ===== src/Vfs.antt =====
-- fs/vfs.c: the file system that the shell uses. The state is that of the globals of vfs.c and
-- file.c, of the screen on which the functions print, and of the disk.
pub mod Tree
pub mod Init
pub mod Valid
pub mod Create
pub mod Mkdir
pub mod Navigate
pub mod Print
pub mod Cat
use anaga.Prelude.{
  ℕ, zero, suc, Option, none, some, List, [], ◌∷◌, String, ◌==◌, ltb, leb, if◌then◌else◌, ◌>>=◌,
  get_elem?, store, literal, ℤ, pos, negsuc,
}
use anaga.CString.{strcmp, is_equal, strlen}
use anaga.Display.{Screen, kputc, kprint}
use anaga.File.{
  Inode, FileDescriptor, max_inodes, max_file_size, max_dir_entries, inode_dir, zero_inode, is_free,
  minus_one, find_first, find_inode_in_dir, new_inode, add_entry, file_create, file_open, file_read,
  file_write, file_close, file_seek,
}
use anaga.Disk.{Disk, vfs_load, vfs_sync}

pub record Vfs : Type 0 where
  pub current_dir : ℕ
  pub inode_array : List Inode
  pub fd_table : List FileDescriptor
  pub screen : Screen
  pub disk : Disk

-- `kprint` of a message, and `return -1`
unfoldable pub fail_with : String → Vfs → Option (ℤ × Vfs)
fail_with message v = kprint (some (literal message)) v.screen >>= λ screen.
    some (minus_one, record v { screen = screen })

unfoldable pub sync : Vfs → Option Vfs
sync v = vfs_sync v.inode_array v.disk >>= λ disk. some (record v { disk = disk })

unfoldable pub find : Vfs → List ℕ → Option ℤ
find v name = find_inode_in_dir v.inode_array v.current_dir name

unfoldable pub vfs_init : Vfs → Option Vfs
vfs_init v = vfs_load v.disk v.inode_array >>= λ loaded. get_elem? loaded 0 >>= λ root.
    (if root.type == inode_dir
      then some (record v { inode_array = loaded })
      else store loaded 0 (record zero_inode { type = inode_dir }) >>= λ a.
          sync (record v { inode_array = a }))
    >>= λ v'. some (record v' { current_dir = 0 })

-- The writes of `vfs_mkdir`, once its tests have passed.
unfoldable pub place_dir : List ℕ → ℕ → Vfs → Option (ℤ × Vfs)
place_dir name idx v = new_inode name inode_dir v.current_dir >>= λ inode.
    store v.inode_array idx inode >>= λ placed. add_entry v.current_dir idx placed >>= λ linked.
    sync (record v { inode_array = linked }) >>= λ v'. some (pos idx, v')

-- The rest of `vfs_mkdir`, after the search for a free inode.
unfoldable pub mkdir_at : List ℕ → Vfs → ℤ → Option (ℤ × Vfs)
mkdir_at name v (negsuc _) = fail_with "No free inodes\n" v
mkdir_at name v (pos idx) = get_elem? v.inode_array v.current_dir >>= λ parent.
    if leb max_dir_entries parent.num_entries
    then fail_with "Directory full\n" v
    else find v name >>= λ found. elim found [
      | pos _ ↦ fail_with "Already exists\n" v
      | negsuc _ ↦ place_dir name idx v
    ]

unfoldable pub vfs_mkdir : List ℕ → Vfs → Option (ℤ × Vfs)
vfs_mkdir name v = find_first is_free max_inodes 0 v.inode_array >>= mkdir_at name v

-- The loop of `vfs_ls`, with `n` entries to go.
unfoldable pub list_entries : List Inode → ℕ → List ℕ → Screen → Option Screen
list_entries inode_array zero entries screen = some screen
list_entries inode_array (suc n) [] screen = none
list_entries inode_array (suc n) (child ∷ entries) screen = get_elem? inode_array child >>= λ inode.
    kprint (some inode.name) screen >>= λ named.
    kputc b'\n' named >>= list_entries inode_array n entries

unfoldable pub vfs_ls : Vfs → Option Vfs
vfs_ls v = get_elem? v.inode_array v.current_dir >>= λ dir.
    (if dir.num_entries == 0
      then kprint (some (literal "(empty)\n")) v.screen
      else list_entries v.inode_array dir.num_entries dir.dir_entries v.screen)
    >>= λ screen. some (record v { screen = screen })

-- The rest of `vfs_cd`, after the search for the name.
unfoldable pub cd_to : Vfs → ℤ → Option (ℤ × Vfs)
cd_to v (negsuc _) = fail_with "Not found\n" v
cd_to v (pos idx) = get_elem? v.inode_array idx >>= λ inode.
    if inode.type == inode_dir
    then some (pos 0, record v { current_dir = idx })
    else fail_with "Not a directory\n" v

unfoldable pub cd_up : Vfs → Option (ℤ × Vfs)
cd_up v =
    if v.current_dir == 0
    then some (pos 0, v)
    else get_elem? v.inode_array v.current_dir >>= λ inode.
        some (pos 0, record v { current_dir = inode.parent_inode })

unfoldable pub vfs_cd : List ℕ → Vfs → Option (ℤ × Vfs)
vfs_cd path v = strcmp path (literal "..") >>= λ up.
    if is_equal up
    then cd_up v
    else strcmp path (literal "/") >>= λ root.
        if is_equal root
        then some (pos 0, record v { current_dir = 0 })
        else find v path >>= cd_to v

-- The first loop of `vfs_pwd`, with `room` words of `path` left. What is in `path` stands as a list
-- from its last word to its first; a word written past `path` is `none`.
unfoldable pub collect_path : ℕ → List Inode → ℕ → List ℕ → Option (List ℕ)
collect_path zero inode_array idx path = none
collect_path (suc room) inode_array idx path =
    if idx == 0
    then some (idx ∷ path)
    else get_elem? inode_array idx >>= λ inode.
        collect_path room inode_array inode.parent_inode (idx ∷ path)

-- The second loop.
unfoldable pub print_path : List Inode → List ℕ → Screen → Option Screen
print_path inode_array [] screen = some screen
print_path inode_array (idx ∷ path) screen = kputc b'/' screen >>= λ slash.
    get_elem? inode_array idx >>= λ inode. get_elem? inode.name 0 >>= λ c.
    (if c == 0 then some slash else kprint (some inode.name) slash) >>= print_path inode_array path

unfoldable pub vfs_pwd : Vfs → Option Vfs
vfs_pwd v = collect_path 32 v.inode_array v.current_dir [] >>= λ path.
    print_path v.inode_array path v.screen >>= λ screen. some (record v { screen = screen })

unfoldable pub vfs_touch : List ℕ → Vfs → Option (ℤ × Vfs)
vfs_touch name v = file_create name v.current_dir v.inode_array >>= λ (idx, a). elim idx [
  | negsuc _ ↦ fail_with "Cannot create file\n" (record v { inode_array = a })
  | pos _ ↦ sync (record v { inode_array = a }) >>= λ v'. some (pos 0, v')
]

-- `if (n > 0) { ... }` of `vfs_cat`, with what `file_read` has returned
unfoldable pub show_read : ℤ → List ℕ → Screen → Option Screen
show_read (negsuc _) read screen = some screen
show_read (pos zero) read screen = some screen
show_read (pos (suc m)) read screen = store read (suc m) 0 >>= λ closed.
    kprint (some closed) screen >>= λ printed.
    get_elem? closed m >>= λ last. if last == b'\n' then some printed else kputc b'\n' printed

-- What `vfs_cat` does with an open file: read, print, close. `buf` is a local array.
unfoldable pub print_file : ℤ → List ℕ → Vfs → Option Vfs
print_file fd buf v = file_read fd buf max_file_size v.inode_array v.fd_table >>= λ (n, read, fds).
    show_read n read v.screen >>= λ screen.
    file_close fd fds >>= λ closed. some (record v { screen = screen; fd_table = closed })

-- The rest of `vfs_cat`, after the search for the name.
unfoldable pub cat_inode : List ℕ → Vfs → ℤ → Option (ℤ × Vfs)
cat_inode buf v (negsuc _) = fail_with "File not found\n" v
cat_inode buf v (pos idx) = get_elem? v.inode_array idx >>= λ inode.
    if inode.type == inode_dir
    then fail_with "Is a directory\n" v
    else file_open idx v.inode_array v.fd_table >>= λ (fd, fds). elim fd [
      | negsuc _ ↦ fail_with "Cannot open\n" (record v { fd_table = fds })
      | pos fd ↦ print_file (pos fd) buf (record v { fd_table = fds }) >>= λ v'. some (pos 0, v')
    ]

unfoldable pub vfs_cat : List ℕ → List ℕ → Vfs → Option (ℤ × Vfs)
vfs_cat name buf v = find v name >>= cat_inode buf v

-- What `vfs_write_file` does with an open file.
unfoldable pub write_content : ℤ → List ℕ → Vfs → Option (ℤ × Vfs)
write_content fd content v = strlen content >>= λ len.
    file_write fd content len v.inode_array v.fd_table >>= λ (written, a, fds).
    file_close fd fds >>= λ closed.
    let v' = record v { inode_array = a; fd_table = closed } in
    elim written [
      | negsuc _ ↦ fail_with "Write incomplete\n" v'
      | pos n ↦
          if ltb n len
          then fail_with "Write incomplete\n" v'
          else sync v' >>= λ synced. some (pos 0, synced)
    ]

unfoldable pub write_inode : List ℕ → ℕ → Vfs → Option (ℤ × Vfs)
write_inode content idx v = file_open idx v.inode_array v.fd_table >>= λ (fd, fds). elim fd [
  | negsuc _ ↦ fail_with "Cannot open\n" (record v { fd_table = fds })
  | pos fd ↦ write_content (pos fd) content (record v { fd_table = fds })
]

unfoldable pub vfs_write_file : List ℕ → List ℕ → Vfs → Option (ℤ × Vfs)
vfs_write_file name content v = find v name >>= λ found. elim found [
  | pos idx ↦ write_inode content idx v
  | negsuc _ ↦ file_create name v.current_dir v.inode_array >>= λ (made, a). elim made [
    | negsuc _ ↦ fail_with "Cannot create\n" (record v { inode_array = a })
    | pos idx ↦ write_inode content idx (record v { inode_array = a })
  ]
]

-- `file_seek` to `offset`, which `vfs_read` does not call, `file_read` and `file_close`.
unfoldable pub read_file : Option ℕ → ℤ → List ℕ → ℕ → Vfs → Option (ℤ × List ℕ × Vfs)
read_file offset fd buffer size v =
    elim offset [ none ↦ some (pos 0, v.fd_table) | some o ↦ file_seek fd o v.fd_table ]
    >>= λ (_, fds). file_read fd buffer size v.inode_array fds >>= λ (n, out, fds').
        file_close fd fds' >>= λ closed. some (n, out, record v { fd_table = closed })

-- The common body of `vfs_read` and `vfs_read_at`.
unfoldable pub read_named : Option ℕ → List ℕ → List ℕ → ℕ → Vfs → Option (ℤ × List ℕ × Vfs)
read_named offset name buffer size v = find v name >>= λ found. elim found [
  | negsuc _ ↦ some (minus_one, buffer, v)
  | pos idx ↦ get_elem? v.inode_array idx >>= λ inode.
      if inode.type == inode_dir
      then some (minus_one, buffer, v)
      else file_open idx v.inode_array v.fd_table >>= λ (fd, fds). elim fd [
        | negsuc _ ↦ some (minus_one, buffer, record v { fd_table = fds })
        | pos fd ↦ read_file offset (pos fd) buffer size (record v { fd_table = fds })
      ]
]

unfoldable pub vfs_read : List ℕ → List ℕ → ℕ → Vfs → Option (ℤ × List ℕ × Vfs)
vfs_read = read_named none

unfoldable pub vfs_read_at : List ℕ → List ℕ → ℕ → ℕ → Vfs → Option (ℤ × List ℕ × Vfs)
vfs_read_at name buffer size offset = read_named (some offset) name buffer size
