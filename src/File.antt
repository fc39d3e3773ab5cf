-- ===== src/File.antt =====
-- fs/file.h and fs/file.c: inodes, the table of open files, and the operations on them. An `int` is
-- an integer of ℤ, a failure is -1, and `none` is an access outside an array. A function that
-- writes through a pointer returns what it points to after the writes.
pub mod Session
pub mod Valid
pub mod Lookup
pub mod Search
pub mod NewInode
pub mod Create
pub mod Added
pub mod Descriptors
pub mod Transfer
use anaga.Prelude.{
  ℕ, zero, suc, ◌+◌, ◌-◌, ◌%◌, ◌^◌, Option, none, some, List, [], ◌∷◌, ◌++◌, Bool, true, false, not,
  ◌==◌, ltb, leb, if◌then◌else◌, ◌>>=◌, get_elem?, store, take, drop, replicate, ℤ, pos, negsuc,
}
use anaga.CString.{strcmp, is_equal, strncpy, memcpy}

abbrev pub max_inodes : ℕ
max_inodes = 32

abbrev pub max_open_files : ℕ
max_open_files = 32

abbrev pub max_file_size : ℕ
max_file_size = 8192

abbrev pub max_dir_entries : ℕ
max_dir_entries = 16

abbrev pub max_filename : ℕ
max_filename = 32

-- `inode_type_t` is kept as its number: what a disk holds may be none of the three.
abbrev pub inode_free : ℕ
inode_free = 0

abbrev pub inode_file : ℕ
inode_file = 1

abbrev pub inode_dir : ℕ
inode_dir = 2

pub record Inode : Type 0 where
  pub name : List ℕ
  pub type : ℕ
  pub size : ℕ
  pub parent_inode : ℕ
  pub num_entries : ℕ
  pub dir_entries : List ℕ
  pub bytes : List ℕ

pub record FileDescriptor : Type 0 where
  pub in_use : Bool
  pub inode_index : ℕ
  pub position : ℕ

abbrev pub u32 : ℕ
u32 = 2 ^ 32

abbrev pub minus_one : ℤ
minus_one = negsuc 0

-- a `uint32_t` returned as an `int`
abbrev pub to_int : ℕ → ℤ
to_int w = if ltb w (2 ^ 31) then pos w else negsuc (u32 - w - 1)

-- `memset(inode, 0, sizeof(inode_t))`
unfoldable pub zero_inode : Inode
zero_inode = record {
  name = replicate max_filename 0;
  type = inode_free;
  size = 0;
  parent_inode = 0;
  num_entries = 0;
  dir_entries = replicate max_dir_entries 0;
  bytes = replicate max_file_size 0;
}

-- `strcmp(inode_array[child].name, name) == 0`
unfoldable pub has_name : List Inode → ℕ → List ℕ → Option Bool
has_name inode_array child name = get_elem? inode_array child >>= λ inode.
    strcmp inode.name name >>= λ order. some (is_equal order)

-- The loop of `find_inode_in_dir`, with `n` entries to go.
unfoldable pub find_entry : List Inode → List ℕ → ℕ → List ℕ → Option ℤ
find_entry inode_array name zero entries = some minus_one
find_entry inode_array name (suc n) [] = none
find_entry inode_array name (suc n) (child ∷ entries) =
    let rest = find_entry inode_array name n entries in
    if ltb child max_inodes
    then (has_name inode_array child name >>= λ same. if same then some (pos child) else rest)
    else rest

unfoldable pub find_inode_in_dir : List Inode → ℕ → List ℕ → Option ℤ
find_inode_in_dir inode_array dir_inode name =
    if leb max_inodes dir_inode
    then some minus_one
    else get_elem? inode_array dir_inode >>= λ dir.
        if dir.type == inode_dir
        then find_entry inode_array name dir.num_entries dir.dir_entries
        else some minus_one

-- `for (i = 0; i < n; i++) if (test(a[i])) return i;`, `n` rounds from index `i` on
unfoldable pub find_first {ℓ} : {A : Type ℓ} → (A → Bool) → ℕ → ℕ → List A → Option ℤ
find_first test zero i xs = some minus_one
find_first test (suc n) i [] = none
find_first test (suc n) i (x ∷ xs) =
    let rest = find_first test n (i + 1) xs in if test x then some (pos i) else rest

abbrev pub is_free : Inode → Bool
is_free inode = inode.type == inode_free

abbrev pub is_closed : FileDescriptor → Bool
is_closed fd = not fd.in_use

unfoldable pub find_free_inode : List Inode → Option ℤ
find_free_inode inode_array = find_first is_free max_inodes 0 inode_array

unfoldable pub find_free_fd : List FileDescriptor → Option ℤ
find_free_fd fd_table = find_first is_closed max_open_files 0 fd_table

-- `strncpy(inode->name, name, MAX_FILENAME - 1)`, from an inode of zeros
unfoldable pub new_inode : List ℕ → ℕ → ℕ → Option Inode
new_inode name type parent = strncpy zero_inode.name name (max_filename - 1) >>= λ copied.
    some (record zero_inode { name = copied; type = type; parent_inode = parent })

-- `parent->dir_entries[parent->num_entries++] = inode_idx`
unfoldable pub add_entry : ℕ → ℕ → List Inode → Option (List Inode)
add_entry parent idx inode_array = get_elem? inode_array parent >>= λ dir.
    store dir.dir_entries dir.num_entries idx >>= λ entries.
    store inode_array parent
      (record dir { dir_entries = entries; num_entries = (dir.num_entries + 1) % u32 })

-- The writes of `file_create`, once its tests have passed.
unfoldable pub place_file : List ℕ → ℕ → ℕ → List Inode → Option (ℤ × List Inode)
place_file name parent idx inode_array = new_inode name inode_file parent >>= λ inode.
    store inode.name (max_filename - 1) 0 >>= λ closed.
    store inode_array idx (record inode { name = closed; size = 0; num_entries = 0 }) >>= λ placed.
    add_entry parent idx placed >>= λ linked. some (pos idx, linked)

-- The rest of `file_create`, after the search for a free inode.
unfoldable pub create_at : List ℕ → ℕ → List Inode → ℤ → Option (ℤ × List Inode)
create_at name parent_inode inode_array (negsuc _) = some (minus_one, inode_array)
create_at name parent_inode inode_array (pos idx) = get_elem? inode_array parent_inode >>= λ parent.
    if not (parent.type == inode_dir)
    then some (minus_one, inode_array)
    else if leb max_dir_entries parent.num_entries
    then some (minus_one, inode_array)
    else find_inode_in_dir inode_array parent_inode name >>= λ found. elim found [
      | pos _ ↦ some (minus_one, inode_array)
      | negsuc _ ↦ place_file name parent_inode idx inode_array
    ]

unfoldable pub file_create : List ℕ → ℕ → List Inode → Option (ℤ × List Inode)
file_create name parent_inode inode_array =
    find_free_inode inode_array >>= create_at name parent_inode inode_array

unfoldable pub file_open : ℕ → List Inode → List FileDescriptor → Option (ℤ × List FileDescriptor)
file_open inode_index inode_array fd_table =
    if leb max_inodes inode_index then some (minus_one, fd_table) else do
      inode ← get_elem? inode_array inode_index
      if not (inode.type == inode_file)
          then some (minus_one, fd_table)
          else find_free_fd fd_table >>= λ fd. elim fd [
            | negsuc _ ↦ some (minus_one, fd_table)
            | pos fd ↦
                store fd_table fd
                  (record { in_use = true; inode_index = inode_index; position = 0 })
                >>= λ fds. some (pos fd, fds)
          ]

-- The bytes that a transfer of `size` bytes from `position` moves, given the `limit` of the file.
abbrev pub transfer : ℕ → ℕ → ℕ → ℕ
transfer position size limit =
    if ltb limit ((position + size) % u32) then (limit + u32 - position) % u32 else size

unfoldable pub read_open :
    ℕ
    → FileDescriptor
    → List ℕ
    → ℕ
    → List Inode
    → List FileDescriptor
    → Option (ℤ × List ℕ × List FileDescriptor)
read_open fd d buffer size inode_array fd_table = do
  inode ← get_elem? inode_array d.inode_index
  let bytes_to_read = transfer d.position size inode.size
  out ← memcpy buffer (drop d.position inode.bytes) bytes_to_read
  fds ← store fd_table fd (record d { position = (d.position + bytes_to_read) % u32 })
  some (to_int bytes_to_read, out, fds)

unfoldable pub file_read :
    ℤ → List ℕ → ℕ → List Inode → List FileDescriptor → Option (ℤ × List ℕ × List FileDescriptor)
file_read (negsuc _) buffer size inode_array fd_table = some (minus_one, buffer, fd_table)
file_read (pos fd) buffer size inode_array fd_table =
    if leb max_open_files fd
    then some (minus_one, buffer, fd_table)
    else get_elem? fd_table fd >>= λ d.
        if d.in_use
        then read_open fd d buffer size inode_array fd_table
        else some (minus_one, buffer, fd_table)

unfoldable pub write_open :
    ℕ
    → FileDescriptor
    → List ℕ
    → ℕ
    → List Inode
    → List FileDescriptor
    → Option (ℤ × List Inode × List FileDescriptor)
write_open fd d buffer size inode_array fd_table = do
  inode ← get_elem? inode_array d.inode_index
  let bytes_to_write = transfer d.position size max_file_size
  tail ← memcpy (drop d.position inode.bytes) buffer bytes_to_write
  let position = (d.position + bytes_to_write) % u32
  fds ← store fd_table fd (record d { position = position })
  inodes ← store inode_array d.inode_index (record inode {
    bytes = take d.position inode.bytes ++ tail;
    size = if ltb inode.size position then position else inode.size;
  })
  some (to_int bytes_to_write, inodes, fds)

unfoldable pub file_write :
    ℤ
    → List ℕ
    → ℕ
    → List Inode
    → List FileDescriptor
    → Option (ℤ × List Inode × List FileDescriptor)
file_write (negsuc _) buffer size inode_array fd_table = some (minus_one, inode_array, fd_table)
file_write (pos fd) buffer size inode_array fd_table =
    if leb max_open_files fd
    then some (minus_one, inode_array, fd_table)
    else get_elem? fd_table fd >>= λ d.
        if d.in_use
        then write_open fd d buffer size inode_array fd_table
        else some (minus_one, inode_array, fd_table)

unfoldable pub file_close : ℤ → List FileDescriptor → Option (List FileDescriptor)
file_close (negsuc _) fd_table = some fd_table
file_close (pos fd) fd_table =
    if ltb fd max_open_files
    then (get_elem? fd_table fd >>= λ d. store fd_table fd (record d { in_use = false }))
    else some fd_table

unfoldable pub file_seek : ℤ → ℕ → List FileDescriptor → Option (ℤ × List FileDescriptor)
file_seek (negsuc _) offset fd_table = some (minus_one, fd_table)
file_seek (pos fd) offset fd_table =
    if leb max_open_files fd
    then some (minus_one, fd_table)
    else get_elem? fd_table fd >>= λ d.
        if d.in_use
        then (store fd_table fd (record d { position = offset }) >>= λ fds. some (pos 0, fds))
        else some (minus_one, fd_table)
