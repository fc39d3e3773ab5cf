-- ===== src/File/Descriptors.antt =====
-- The table of open files: `file_open`, `file_close`, `file_seek`.
use anaga.Prelude.{
  ℕ, ◌≤◌, ◌<◌, ◌≡◌, ◌≢◌, refl, ap, inl, inr, Option, some, List, Bool, true, false, arith, set,
  get_elem?, get_elem?_of_lt, get_elem?-lt, get_elem?-set_self, get_elem?-set_ne, store, store_lem,
  ◌==◌, ◌>>=◌, Bool-cases, lt-cases, eq-cases, leb-true, leb-false, ltb-true, Returns, Returns-bind,
  ℤ, pos, negsuc,
}
use anaga.File.{
  Inode, FileDescriptor, max_inodes, max_open_files, inode_file, is_closed, minus_one, find_first,
  find_free_fd, file_open, file_close, file_seek,
}
use anaga.File.Valid.{IsInodeArray, IsFdTable}
use anaga.File.Search.{First, find_first_lem}

-- An open descriptor at another position.
abbrev pub moved : FileDescriptor → ℕ → FileDescriptor
moved d position = record { in_use = true; inode_index = d.inode_index; position = position }

abbrev pub opened : ℕ → FileDescriptor
opened idx = record { in_use = true; inode_index = idx; position = 0 }

-- Descriptor `fd`, the first closed one, is open on inode `idx`, a file, at its start.
pub record Opened (a : List Inode) (t : List FileDescriptor) (idx fd : ℕ) (t' : List FileDescriptor)
    : Type 0 where
  pub inode : Inode
  pub at : get_elem? a idx ≡ some inode
  pub is_file : inode.type ≡ inode_file
  pub old : FileDescriptor
  pub old_at : get_elem? t fd ≡ some old
  pub was_closed : old.in_use ≡ false
  pub first : (j : ℕ) (d : FileDescriptor) → j < fd → get_elem? t j ≡ some d → d.in_use ≡ true
  pub result : t' ≡ set t fd (opened idx)

pub data NotOpened (a : List Inode) (t : List FileDescriptor) (idx : ℕ) : Type 0 where
  no_inode : max_inodes ≤ idx → NotOpened a t idx
  no_file :
      (inode : Inode) → get_elem? a idx ≡ some inode → inode.type ≢ inode_file → NotOpened a t idx
  no_descriptor :
      ((j : ℕ) (d : FileDescriptor) → j < max_open_files → get_elem? t j ≡ some d → d.in_use ≡ true)
      → NotOpened a t idx

abbrev pub Opening : List Inode → List FileDescriptor → ℕ → ℤ × List FileDescriptor → Type 0
Opening a t idx (pos fd, t') = Opened a t idx fd t'
Opening a t idx (negsuc e, t') = (e ≡ 0) × (t' ≡ t) × NotOpened a t idx

closed-false : (d : FileDescriptor) → is_closed d ≡ true → d.in_use ≡ false
closed-false d h = ground arith

open-true : (d : FileDescriptor) → is_closed d ≡ false → d.in_use ≡ true
open-true d h = ground arith

open_slot :
    (a : List Inode) (t : List FileDescriptor) (idx : ℕ) (inode : Inode) (fd : ℤ)
    → IsFdTable t
    → get_elem? a idx ≡ some inode
    → inode.type ≡ inode_file
    → First is_closed max_open_files 0 t fd
    → Returns (Opening a t idx) (elim fd [
      | negsuc _ ↦ some (minus_one, t)
      | pos fd ↦ store t fd (opened idx) >>= λ fds. some (pos fd, fds)
    ])
open_slot a t idx inode (negsuc e) v at file f =
    (refl, refl, no_descriptor (λ j d h q. open-true d (f.1 j d h q)))
open_slot a t idx inode (pos fd) v at file (k, old, e, h, old_at, closed, before) =
    let here : k ≡ fd = omega arith in
    rw (store_lem t fd (opened idx) (omega (arith, v.count))) (record {
      inode = inode;
      at = at;
      is_file = file;
      old = old;
      old_at = rw here at old_at;
      was_closed = closed-false old closed;
      first = λ j d q r. open-true d (before j d (omega arith) r);
      result = refl;
    })

-- `file_open` of any inode number either opens the first closed descriptor on that inode, at its
-- start, and changes no other; or it returns -1 and changes nothing, and then there is no such
-- inode, it is no file, or every descriptor is open.
pub file_open_lem :
    (idx : ℕ) (a : List Inode) (t : List FileDescriptor)
    → IsInodeArray a
    → IsFdTable t
    → Returns (Opening a t idx) (file_open idx a t)
unfolding file_open find_free_fd
file_open_lem idx a t v w = elim (lt-cases idx max_inodes) [
  | inr out ↦ rw (leb-true max_inodes idx out) (refl, refl, no_inode out)
  | inl inside ↦
      let (inode, at) = get_elem?_of_lt a idx (omega (arith, v.count)) in
      elim (Bool-cases (inode.type == inode_file)) [
        | inr other ↦
            rw (leb-false max_inodes idx inside, at, other)
              (refl, refl, no_file inode at (ground arith))
        | inl file ↦
            rw (leb-false max_inodes idx inside, at, file)
              (Returns-bind (First is_closed max_open_files 0 t) (Opening a t idx)
                (find_first is_closed max_open_files 0 t) _
                (find_first_lem is_closed max_open_files 0 t (omega (arith, w.count)))
                (λ fd. open_slot a t idx inode fd w at (ground arith)))
      ]
]

pub file_close_lem :
    (fd : ℕ) (t : List FileDescriptor) (d : FileDescriptor)
    → IsFdTable t
    → get_elem? t fd ≡ some d
    → file_close (pos fd) t ≡ some (set t fd (record d { in_use = false }))
unfolding file_close
file_close_lem fd t d w at =
    rw (ltb-true fd max_open_files (omega (arith, w.count, get_elem?-lt t fd at)), at)
      (store_lem t fd (record d { in_use = false }) (get_elem?-lt t fd at))

pub file_seek_lem :
    (fd offset : ℕ) (t : List FileDescriptor) (d : FileDescriptor)
    → IsFdTable t
    → get_elem? t fd ≡ some d
    → d.in_use ≡ true
    → file_seek (pos fd) offset t ≡ some (pos 0, set t fd (moved d offset))
unfolding file_seek
file_seek_lem fd offset t d w at used = rw (
  leb-false max_open_files fd (omega (arith, w.count, get_elem?-lt t fd at)),
  at,
  used,
  store_lem t fd (moved d offset) (get_elem?-lt t fd at),
)

-- Whether descriptor `j` is open.
abbrev pub in_use_at : List FileDescriptor → ℕ → Option Bool
in_use_at t j = get_elem? t j >>= λ d. some d.in_use

-- Two tables in which the same descriptors are open.
abbrev pub SameUse : List FileDescriptor → List FileDescriptor → Type 0
SameUse t t' = (j : ℕ) → in_use_at t' j ≡ in_use_at t j

-- A closed descriptor, however it was used in between, closed again.
pub SameUse-set :
    (t : List FileDescriptor) (fd : ℕ) (old d : FileDescriptor)
    → get_elem? t fd ≡ some old
    → d.in_use ≡ old.in_use
    → SameUse t (set t fd d)
SameUse-set t fd old d at same j = elim (eq-cases fd j) [
  | inl e ↦ rw (← e, get_elem?-set_self t fd d (get_elem?-lt t fd at), at) (ap some same)
  | inr e ↦ rw (get_elem?-set_ne t d e)
]
