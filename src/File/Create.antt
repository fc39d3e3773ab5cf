-- ===== src/File/Create.antt =====
-- `file_create`: what it makes, what it leaves alone, and when it refuses.
use anaga.Prelude.{
  ℕ, ◌≤◌, ◌<◌, ◌≡◌, ◌≢◌, refl, sym, ◌∙◌, subst, inl, inr, some, List, true, false, arith, set,
  get_elem?, get_elem?_of_lt, get_elem?-lt, store_lem, get_elem?-set_ne, ◌==◌, Bool-cases, lt-cases,
  leb-true, leb-false, Returns, Returns-bind, Returns-mono, ℤ, pos, negsuc,
}
use anaga.CString.Text.{IsCString}
use anaga.File.{
  Inode, max_inodes, max_dir_entries, inode_free, inode_file, inode_dir, is_free, new_inode,
  place_file, find_free_inode, find_inode_in_dir, find_first, create_at, file_create, minus_one,
}
use anaga.File.Valid.{IsInodeArray}
use anaga.File.Search.{First, find_first_lem}
use anaga.File.Lookup.{Entry, Lookup, find_inode_in_dir_lem}
use anaga.File.NewInode.{IsNew, new_inode-IsNew, finish, finish-IsNew, linked, add_entry_lem}

-- Inode `idx`, the first free one, is a new one with the given name, and the directory `p` has one
-- entry more, the last, for it. Nothing else has changed.
pub record Added (type : ℕ) (a : List Inode) (p : ℕ) (name : List ℕ) (idx : ℕ) (a' : List Inode)
    : Type 0 where
  pub old : Inode
  pub old_at : get_elem? a idx ≡ some old
  pub was_free : old.type ≡ inode_free
  pub first : (j : ℕ) (x : Inode) → j < idx → get_elem? a j ≡ some x → x.type ≢ inode_free
  pub dir : Inode
  pub dir_at : get_elem? a p ≡ some dir
  pub directory : dir.type ≡ inode_dir
  pub room : dir.num_entries < max_dir_entries
  pub absent : (child : ℕ) → ¬ Entry a p name child
  pub new : Inode
  pub is_new : IsNew name type p new
  pub result : a' ≡ set (set a idx new) p (linked dir idx)

-- The reasons for which a new entry is refused.
pub data Refused (a : List Inode) (p : ℕ) (name : List ℕ) : Type 0 where
  no_free_inode :
      ((k : ℕ) (x : Inode) → k < max_inodes → get_elem? a k ≡ some x → x.type ≢ inode_free)
      → Refused a p name
  not_directory : (dir : Inode) → get_elem? a p ≡ some dir → dir.type ≢ inode_dir → Refused a p name
  directory_full :
      (dir : Inode)
      → get_elem? a p ≡ some dir
      → max_dir_entries ≤ dir.num_entries
      → Refused a p name
  name_taken : (child : ℕ) → Entry a p name child → Refused a p name

abbrev pub Creation : ℕ → List Inode → ℕ → List ℕ → ℤ × List Inode → Type 0
Creation type a p name (pos idx, a') = Added type a p name idx a'
Creation type a p name (negsuc e, a') = (e ≡ 0) × (a' ≡ a) × Refused a p name

-- The directory is not the free inode.
pub free-ne-dir :
    (a : List Inode) (p idx : ℕ) {dir old : Inode}
    → get_elem? a p ≡ some dir
    → dir.type ≡ inode_dir
    → get_elem? a idx ≡ some old
    → old.type ≡ inode_free
    → idx ≢ p
free-ne-dir a p idx {dir} {old} at t old_at free e =
    let same : old ≡ dir = cc (at, old_at, e) in
    let clash : old.type ≡ inode_dir = rw same t in omega arith

-- What `place_file` and its like return: the fresh inode and the directory, written to the array.
pub record Placed (type : ℕ) (a : List Inode) (p : ℕ) (name : List ℕ) (idx : ℕ) (dir : Inode)
    (out : ℤ × List Inode) : Type 0 where
  pub new : Inode
  pub is_new : IsNew name type p new
  pub written : out ≡ (pos idx, set (set a idx new) p (linked dir idx))

place_file-Placed :
    (name : List ℕ) (p idx : ℕ) (a : List Inode) (dir : Inode)
    → IsInodeArray a
    → IsCString name
    → idx < max_inodes
    → idx ≢ p
    → get_elem? a p ≡ some dir
    → dir.num_entries < max_dir_entries
    → Returns (Placed inode_file a p name idx dir) (place_file name p idx a)
unfolding place_file
place_file-Placed name p idx a dir v c h ne at room =
    let inside : p < max_inodes = omega (arith, get_elem?-lt a p at, v.count) in
    Returns-bind (IsNew name inode_file p) (Placed inode_file a p name idx dir)
      (new_inode name inode_file p) _ (new_inode-IsNew name inode_file p c inside (omega arith))
      λ inode new.
        rw
          (
            store_lem inode.name 31 0 (omega (arith, new.valid.name_size)),
            store_lem a idx (finish inode) (omega (arith, v.count)),
            add_entry_lem p idx (set a idx (finish inode)) dir
                (get_elem?-set_ne a (finish inode) ne ∙ at) (v.each p dir at) room,
          )
          (record {
            new = finish inode;
            is_new = finish-IsNew name inode_file p inode new;
            written = refl;
          })

pub is_free-eq : (x : Inode) → is_free x ≡ true → x.type ≡ inode_free
is_free-eq x h = ground arith

pub is_free-ne : (x : Inode) → is_free x ≡ false → x.type ≢ inode_free
is_free-ne x h = ground arith

-- A free slot, a directory with room, and no entry of the name: then what was placed is what was
-- to be added.
pub Placed-Creation :
    (type : ℕ) (a : List Inode) (p : ℕ) (name : List ℕ) (idx : ℕ) (dir : Inode)
    (out : ℤ × List Inode)
    → First is_free max_inodes 0 a (pos idx)
    → get_elem? a p ≡ some dir
    → dir.type ≡ inode_dir
    → dir.num_entries < max_dir_entries
    → ((child : ℕ) → ¬ Entry a p name child)
    → Placed type a p name idx dir out
    → Creation type a p name out
Placed-Creation type a p name idx dir out (k, old, e, h, old_at, free, before) at t room missing
      placed =
    let here : k ≡ idx = omega arith in
    subst (Creation type a p name) (sym placed.written) (record {
      old = old;
      old_at = rw here at old_at;
      was_free = is_free-eq old free;
      first = λ j x q r. is_free-ne x (before j x (omega arith) r);
      dir = dir;
      dir_at = at;
      directory = t;
      room = room;
      absent = missing;
      new = placed.new;
      is_new = placed.is_new;
      result = refl;
    })

after_find :
    (name : List ℕ) (p idx : ℕ) (a : List Inode) (dir : Inode) (found : ℤ)
    → IsInodeArray a
    → IsCString name
    → First is_free max_inodes 0 a (pos idx)
    → get_elem? a p ≡ some dir
    → dir.type ≡ inode_dir
    → dir.num_entries < max_dir_entries
    → Lookup a p name found
    → Returns
        (Creation inode_file a p name)
        (elim found [ pos _ ↦ some (minus_one, a) | negsuc _ ↦ place_file name p idx a ])
after_find name p idx a dir (pos child) v c f at t room found =
    (refl, refl, name_taken child found.0.here)
after_find name p idx a dir (negsuc z) v c (k, old, e, h, old_at, free, before) at t room found =
    let here : k ≡ idx = omega arith in
    let ne = free-ne-dir a p idx at t (rw here at old_at) (is_free-eq old free) in
    Returns-mono (Placed inode_file a p name idx dir) (Creation inode_file a p name)
      (place_file name p idx a) (place_file-Placed name p idx a dir v c (omega arith) ne at room)
      (λ out.
        Placed-Creation inode_file a p name idx dir out (k, old, e, h, old_at, free, before) at t
          room found.1)

after_free :
    (name : List ℕ) (p : ℕ) (a : List Inode) (dir : Inode) (free : ℤ)
    → IsInodeArray a
    → IsCString name
    → get_elem? a p ≡ some dir
    → First is_free max_inodes 0 a free
    → Returns (Creation inode_file a p name) (create_at name p a free)
unfolding create_at
after_free name p a dir (negsuc e) v c at f =
    (refl, refl, no_free_inode (λ k x h q. is_free-ne x (f.1 k x h q)))
after_free name p a dir (pos idx) v c at f = elim (Bool-cases (dir.type == inode_dir)) [
  | inr not_dir ↦ rw (at, not_dir) (refl, refl, not_directory dir at (ground arith))
  | inl is_dir ↦ elim (lt-cases dir.num_entries max_dir_entries) [
    | inr full ↦
        rw (at, is_dir, leb-true max_dir_entries dir.num_entries full)
          (refl, refl, directory_full dir at full)
    | inl room ↦
        rw (at, is_dir, leb-false max_dir_entries dir.num_entries room)
          (Returns-bind (Lookup a p name) (Creation inode_file a p name)
            (find_inode_in_dir a p name) _ (find_inode_in_dir_lem a p name v c)
            (λ found. after_find name p idx a dir found v c f at (ground arith) room))
  ]
]

-- `file_create` in a valid inode array, for any C string and any inode below 32: it never accesses
-- memory outside an array. It returns the first free inode, made a new empty file in that directory,
-- and changes nothing else; or it returns -1 and changes nothing, and then no inode is free, the
-- parent is no directory, it is full, or it has an entry of that name.
pub file_create_lem :
    (name : List ℕ) (p : ℕ) (a : List Inode)
    → IsInodeArray a
    → IsCString name
    → p < max_inodes
    → Returns (Creation inode_file a p name) (file_create name p a)
unfolding file_create find_free_inode
file_create_lem name p a v c h =
    let (dir, at) = get_elem?_of_lt a p (omega (arith, v.count)) in
    Returns-bind (First is_free max_inodes 0 a) (Creation inode_file a p name)
      (find_first is_free max_inodes 0 a) (create_at name p a)
      (find_first_lem is_free max_inodes 0 a (omega (arith, v.count)))
      (λ free. after_free name p a dir free v c at)
