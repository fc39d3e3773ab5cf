-- ===== src/File/Valid.antt =====
-- The invariants of an inode, of the inode array and of the table of open files.
use anaga.Prelude.{
  ℕ, zero, suc, ◌≤◌, ◌<◌, ◌≡◌, refl, inl, List, arith, length, length-replicate, replicate,
  get_elem?-replicate, get_elem?-lt, AllAt, AllAt-set, length-set, set, ◌∙◌,
}
use anaga.CString.Text.{IsCString}
use anaga.File.{
  Inode, FileDescriptor, zero_inode, max_inodes, max_open_files, max_file_size, max_dir_entries,
  max_filename, u32,
}

-- The arrays have their sizes, the name is closed by a NUL, the counts fit the arrays, and the
-- inode numbers are those of inodes.
pub record IsInode (inode : Inode) : Type 0 where
  pub name_size : length inode.name ≡ max_filename
  pub name_closed : IsCString inode.name
  pub type_fits : inode.type < u32
  pub entries_size : length inode.dir_entries ≡ max_dir_entries
  pub entries_used : inode.num_entries ≤ max_dir_entries
  pub entries_in : AllAt (λ k child. child < max_inodes) inode.dir_entries
  pub bytes_size : length inode.bytes ≡ max_file_size
  pub size_fits : inode.size ≤ max_file_size
  pub parent_in : inode.parent_inode < max_inodes

pub record IsInodeArray (inode_array : List Inode) : Type 0 where
  pub count : length inode_array ≡ max_inodes
  pub each : AllAt (λ i inode. IsInode inode) inode_array

pub record IsFdTable (fd_table : List FileDescriptor) : Type 0 where
  pub count : length fd_table ≡ max_open_files
  pub each : AllAt (λ i d. (d.inode_index < max_inodes) × (d.position < u32)) fd_table

pub IsInodeArray-set :
    (a : List Inode) (i : ℕ) (inode : Inode)
    → IsInodeArray a
    → IsInode inode
    → IsInodeArray (set a i inode)
IsInodeArray-set a i inode v w = record {
  count = length-set a i inode ∙ v.count;
  each = AllAt-set (λ i inode. IsInode inode) a i inode v.each w;
}

pub IsFdTable-set :
    (t : List FileDescriptor) (i : ℕ) (d : FileDescriptor)
    → IsFdTable t
    → d.inode_index < max_inodes
    → d.position < u32
    → IsFdTable (set t i d)
IsFdTable-set t i d v h k = record {
  count = length-set t i d ∙ v.count;
  each = AllAt-set (λ i d. (d.inode_index < max_inodes) × (d.position < u32)) t i d v.each (h, k);
}

IsCString-replicate : (n : ℕ) → 0 < n → IsCString (replicate n 0)
unfolding replicate
IsCString-replicate zero h = absurd (omega arith)
IsCString-replicate (suc n) h = inl refl

AllAt-replicate : (n : ℕ) → AllAt (λ k child. child < max_inodes) (replicate n 0)
AllAt-replicate n k child h =
    let inside : k < n =
      omega (arith, get_elem?-lt (replicate n 0) k h, length-replicate {A = ℕ} n 0) in
    let zero : child ≡ 0 = cc (h, get_elem?-replicate {A = ℕ} n k 0 inside) in omega arith

pub zero_inode-IsInode : IsInode zero_inode
unfolding zero_inode
zero_inode-IsInode = record {
  name_size = length-replicate max_filename 0;
  name_closed = IsCString-replicate max_filename (omega arith);
  type_fits = omega arith;
  entries_size = length-replicate max_dir_entries 0;
  entries_used = omega arith;
  entries_in = AllAt-replicate max_dir_entries;
  bytes_size = length-replicate max_file_size 0;
  size_fits = omega arith;
  parent_in = omega arith;
}
