-- ===== src/File/Session.antt =====
-- `file_create` followed by a search for what it has created.
use anaga.Prelude.{ℕ, ◌<◌, ◌≡◌, some, List, length, Returns, Returns-mono, ℤ, pos, negsuc}
use anaga.CString.Text.{IsCString, text}
use anaga.File.{Inode, max_inodes, max_filename, inode_file, find_inode_in_dir, file_create}
use anaga.File.Valid.{IsInodeArray}
use anaga.File.Create.{Creation, file_create_lem}
use anaga.File.Added.{Added-find, Added-IsInodeArray}

-- The search finds the inode that was created; where none was, nothing has changed.
abbrev pub Found : List Inode → ℕ → List ℕ → ℤ × List Inode → Type 0
Found a p name (pos idx, a') = IsInodeArray a' × (find_inode_in_dir a' p name ≡ some (pos idx))
Found a p name (negsuc e, a') = a' ≡ a

Creation-Found :
    (a : List Inode) (p : ℕ) (name : List ℕ) (out : ℤ × List Inode)
    → IsInodeArray a
    → IsCString name
    → length (text name) < max_filename
    → Creation inode_file a p name out
    → Found a p name out
Creation-Found a p name (pos idx, a') v c short h = (
  Added-IsInodeArray inode_file a p name idx a' v h,
  Added-find inode_file a p name idx a' v c short h,
)
Creation-Found a p name (negsuc e, a') v c short h = h.1

-- For a C string of at most 31 bytes and any inode below 32 of a valid inode array: after
-- `file_create` the array is valid, and `find_inode_in_dir` for that name in that directory returns
-- the inode that `file_create` has returned; or `file_create` has failed and the array is what it was.
pub file_create-find :
    (name : List ℕ) (p : ℕ) (a : List Inode)
    → IsInodeArray a
    → IsCString name
    → length (text name) < max_filename
    → p < max_inodes
    → Returns (Found a p name) (file_create name p a)
file_create-find name p a v c short h =
    Returns-mono (Creation inode_file a p name) (Found a p name) (file_create name p a)
      (file_create_lem name p a v c h) (λ out k. Creation-Found a p name out v c short k)
