-- ===== src/Vfs/Cat.antt =====
-- `vfs_cat`: what it prints.
use anaga.Prelude.{
  ℕ, zero, suc, ◌+◌, ◌-◌, ◌<◌, ◌≡◌, ◌≢◌, refl, sym, ap, ◌∙◌, subst, inl, inr, some, List, [], ◌∷◌,
  ◌++◌, false, arith, length, length-append, take-length-append, length-take, length-drop, take,
  drop, set, min, get_elem?, get_elem?_of_lt, get_elem?-lt, get_elem?-set_self, get_elem?-set_cases,
  store_lem, ◌==◌, if◌then◌else◌, ◌>>=◌, Bool-cases, bind-some, Option, Returns, Returns-bind,
  Returns-mono, Returns-elim, ℤ, pos, negsuc, String,
}
use anaga.CString.Text.{IsCString, text}
use anaga.CString.Nul.{IsCString-append_nul}
use anaga.Display.{Screen, kputc, kprint, put_all}
use anaga.Display.Safety
use anaga.Display.Safety.{print_then, kprint_lem, put_all-IsValid, put_all-append}
use anaga.File.{
  Inode, FileDescriptor, max_inodes, max_file_size, inode_file, inode_dir, file_open,
  find_inode_in_dir,
}
use anaga.File.Valid.{IsInode, IsFdTable, IsFdTable-set}
use anaga.File.Lookup.{Entry, FirstEntry, Lookup, find_inode_in_dir_lem}
use anaga.File.Descriptors.{
  Opening, NotOpened, no_inode, no_file, no_descriptor, opened, moved, file_open_lem,
  file_close_lem,
}
use anaga.File.Transfer.{file_read_lem}
use anaga.Vfs.{Vfs, fail_with, find, show_read, print_file, cat_inode, vfs_cat}
use anaga.Vfs.Valid.{IsValid, Failed, fail_with-Failed}

-- The last element of `c ∷ l`.
last_of : ℕ → List ℕ → ℕ
last_of c [] = c
last_of c (d ∷ l) = last_of d l

-- What is printed of a file's bytes: those before the first NUL, and a new line unless the last
-- byte of the file is one.
pub cat_text : List ℕ → List ℕ
cat_text [] = []
cat_text (c ∷ l) = text ((c ∷ l) ++ 0 ∷ []) ++ (if last_of c l == b'\n' then [] else b'\n' ∷ [])

-- A NUL written behind the first bytes.
set-take : (n : ℕ) (l : List ℕ) → n < length l → set l n 0 ≡ take n l ++ 0 ∷ drop (suc n) l
set-take n [] h = elim h [ ]
set-take zero (c ∷ l) h = refl
set-take (suc n) (c ∷ l) h = ap (λ r. c ∷ r) (set-take n l (omega arith))

text-nul_end : (l r : List ℕ) → text (l ++ 0 ∷ r) ≡ text (l ++ 0 ∷ [])
text-nul_end [] r = refl
text-nul_end (c ∷ l) r = ap (λ t. if c == 0 then [] else c ∷ t) (text-nul_end l r)

get_elem?-last :
    (m c : ℕ) (l r : List ℕ) → length l ≡ m → get_elem? ((c ∷ l) ++ r) m ≡ some (last_of c l)
unfolding last_of
get_elem?-last zero c [] r h = refl
get_elem?-last zero c (d ∷ l) r h = absurd (omega arith)
get_elem?-last (suc m) c [] r h = absurd (omega arith)
get_elem?-last (suc m) c (d ∷ l) r h = get_elem?-last m d l r (omega arith)

put_all-nil : (s : Screen) → some s ≡ put_all [] s
unfolding put_all
put_all-nil s = refl

-- A new line, unless the byte is one.
abbrev end_text : ℕ → List ℕ
end_text last = if last == b'\n' then [] else b'\n' ∷ []

abbrev end_with : ℕ → Screen → Option Screen
end_with last printed = if last == b'\n' then some printed else kputc b'\n' printed

end_with_lem : (last : ℕ) (s : Screen) → end_with last s ≡ put_all (end_text last) s
unfolding put_all
end_with_lem last s = elim (Bool-cases (last == b'\n')) [
  | inl e ↦ rw e
  | inr e ↦ rw e (sym (bind-some (kputc b'\n' s)))
]

show_bytes :
    (m c : ℕ) (l r : List ℕ) (s : Screen)
    → length l ≡ m
    → (kprint (some ((c ∷ l) ++ 0 ∷ r)) s >>= λ printed.
        get_elem? ((c ∷ l) ++ 0 ∷ r) m >>= λ last. end_with last printed)
      ≡ put_all (text ((c ∷ l) ++ 0 ∷ []) ++ end_text (last_of c l)) s
show_bytes m c l r s h =
    let whole = (c ∷ l) ++ 0 ∷ r in
    let short = (c ∷ l) ++ 0 ∷ [] in
    rw (get_elem?-last m c l (0 ∷ r) h) (
      ap (λ k. k >>= end_with (last_of c l))
        (kprint_lem whole s (IsCString-append_nul (c ∷ l) r)
          ∙ ap (λ t. put_all t s) (text-nul_end (c ∷ l) r))
      ∙ print_then (text short) (end_text (last_of c l)) s (end_with (last_of c l))
          (end_with_lem (last_of c l)))

show_read_lem :
    (n : ℕ) (read : List ℕ) (s : Screen)
    → n < length read
    → show_read (pos n) read s ≡ put_all (cat_text (take n read)) s
unfolding show_read cat_text
show_read_lem zero read s h = put_all-nil s
show_read_lem (suc m) [] s h = elim h [ ]
show_read_lem (suc m) (c ∷ l) s h =
    let cut : set (c ∷ l) (suc m) 0 ≡ (c ∷ take m l) ++ 0 ∷ drop (suc m) l =
      ap (λ r. c ∷ r) (set-take m l (omega arith)) in
    rw (store_lem (c ∷ l) (suc m) 0 h) (
      subst
        (λ closed.
          (kprint (some closed) s >>= λ printed.
          get_elem? closed m >>= λ last. end_with last printed)
          ≡ put_all (text ((c ∷ take m l) ++ 0 ∷ []) ++ end_text (last_of c (take m l))) s)
        (sym cut) (show_bytes m c (take m l) (drop (suc m) l) s (length-take m l (omega arith))))

-- The bytes of a file.
abbrev pub contents : Inode → List ℕ
contents x = take x.size x.bytes

-- The message about an inode that is no file.
abbrev pub refusal : Inode → String
refusal x = if x.type == inode_dir then "Is a directory\n" else "Cannot open\n"

-- The outcomes of `vfs_cat`.
pub data Catted (v : Vfs) (name : List ℕ) (out : ℤ × Vfs) : Type 0 where
  not_found :
      ((child : ℕ) → ¬ Entry v.inode_array v.current_dir name child)
      → Failed "File not found\n" v out
      → Catted v name out
  refused :
      (idx : ℕ) (x : Inode)
      → FirstEntry v.inode_array v.current_dir name idx
      → get_elem? v.inode_array idx ≡ some x
      → x.type ≢ inode_file
      → Failed (refusal x) v out
      → Catted v name out
  shown :
      (idx : ℕ) (x : Inode)
      → FirstEntry v.inode_array v.current_dir name idx
      → get_elem? v.inode_array idx ≡ some x
      → x.type ≡ inode_file
      → out.0 ≡ pos 0
      → put_all (cat_text (contents x)) v.screen ≡ some out.1.screen
      → out.1.inode_array ≡ v.inode_array
      → out.1.current_dir ≡ v.current_dir
      → out.1.disk ≡ v.disk
      → IsValid out.1
      → Catted v name out

-- A table of closed descriptors, after one of them was opened, moved and closed again.
closed_again :
    (t : List FileDescriptor) (fd : ℕ) (d e f : FileDescriptor)
    → ((j : ℕ) (g : FileDescriptor) → get_elem? t j ≡ some g → g.in_use ≡ false)
    → f.in_use ≡ false
    → (j : ℕ) (g : FileDescriptor) → get_elem? (set (set (set t fd d) fd e) fd f) j ≡ some g
    → g.in_use ≡ false
closed_again t fd d e f all c j g h = elim (get_elem?-set_cases (set (set t fd d) fd e) fd j f h) [
  | inl k ↦ ap (λ (z : FileDescriptor). z.in_use) k.1 ∙ c
  | inr k ↦ elim (get_elem?-set_cases (set t fd d) fd j e k.1) [
    | inl m ↦ absurd (k.0 m.0)
    | inr m ↦ elim (get_elem?-set_cases t fd j d m.1) [
      | inl n ↦ absurd (k.0 n.0)
      | inr n ↦ all j g n.1
    ]
  ]
]

-- What was read of a file is its contents.
read_contents :
    (x : Inode) (buf : List ℕ) (n : ℕ)
    → IsInode x
    → n ≡ x.size
    → take n (take n (drop 0 x.bytes) ++ drop n buf) ≡ contents x
read_contents x buf n v e =
    let size : length (take n x.bytes) ≡ n =
      length-take n x.bytes (omega (arith, v.bytes_size, v.size_fits)) in
    let cut : take n (take n x.bytes ++ drop n buf) ≡ take n x.bytes =
      subst (λ k. take k (take n x.bytes ++ drop n buf) ≡ take n x.bytes) size
        (take-length-append (take n x.bytes) (drop n buf)) in
    cut ∙ ap (λ k. take k x.bytes) e

module _ (v : Vfs) (name : List ℕ) (h : IsValid v) (idx : ℕ) (x : Inode)
    (entry : FirstEntry v.inode_array v.current_dir name idx)
    (at : get_elem? v.inode_array idx ≡ some x) (file : x.type ≡ inode_file) (buf : List ℕ)
    (room : max_file_size < length buf) where
  print_file-Catted :
      (fd : ℕ)
      → fd < length v.fd_table
      → Returns
          (λ w. Catted v name (pos 0, w))
          (print_file (pos fd) buf (record v { fd_table = set v.fd_table fd (opened idx) }))
  unfolding print_file
  print_file-Catted fd inside =
      let t = set v.fd_table fd (opened idx) in
      let inode = h.inodes.each idx x at in
      let idx_in : idx < max_inodes =
        omega (arith, get_elem?-lt v.inode_array idx at, h.inodes.count) in
      let opened_table : IsFdTable t =
        IsFdTable-set v.fd_table fd (opened idx) h.descriptors idx_in (omega arith) in
      let opened_at : get_elem? t fd ≡ some (opened idx) =
        get_elem?-set_self v.fd_table fd (opened idx) inside in
      let n = min max_file_size (x.size - 0) in
      let size : n ≡ x.size = omega (arith, inode.size_fits) in
      let read = take n (drop 0 x.bytes) ++ drop n buf in
      let got : length (take n (drop 0 x.bytes)) ≡ n =
        length-take n x.bytes (omega (arith, inode.bytes_size)) in
      let longer : n < length read =
        omega
          (arith, length-append (take n (drop 0 x.bytes)) (drop n buf), length-drop n buf, got) in
      let behind = moved (opened idx) (0 + n) in
      let moved_table : IsFdTable (set t fd behind) =
        IsFdTable-set t fd behind opened_table idx_in (omega (arith, inode.size_fits)) in
      let moved_at : get_elem? (set t fd behind) fd ≡ some behind =
        get_elem?-set_self t fd behind (omega (arith, get_elem?-lt t fd opened_at)) in
      let (screen, shown_as, valid) =
        Returns-elim (λ s. Safety.IsValid s) (put_all (cat_text (contents x)) v.screen)
          (put_all-IsValid (cat_text (contents x)) v.screen h.screen) in
      let showed : show_read (pos n) read v.screen ≡ some screen =
        show_read_lem n read v.screen longer
        ∙ ap (λ l. put_all (cat_text l) v.screen) (read_contents x buf n inode size)
        ∙ shown_as in
      let closed = record behind { in_use = false } in
      rw
        (
          file_read_lem fd v.inode_array t (opened idx) x opened_table opened_at refl at inode buf
              max_file_size (omega arith) (omega arith) (omega (arith, room)),
          showed,
          file_close_lem fd (set t fd behind) behind moved_table moved_at,
        )
        (shown idx x entry at file refl shown_as refl refl refl (record {
          inodes = h.inodes;
          tree = h.tree;
          here = h.here;
          descriptors =
              IsFdTable-set (set t fd behind) fd closed moved_table idx_in
                (omega (arith, inode.size_fits));
          closed = closed_again v.fd_table fd (opened idx) behind closed h.closed refl;
          screen = valid;
        }))

-- With all descriptors closed, an inode that cannot be opened is no file.
not_file :
    (v : Vfs) (idx : ℕ) (x : Inode)
    → IsValid v
    → get_elem? v.inode_array idx ≡ some x
    → NotOpened v.inode_array v.fd_table idx
    → x.type ≢ inode_file
not_file v idx x h at (no_inode out) file =
    absurd (omega (arith, get_elem?-lt v.inode_array idx at, h.inodes.count))
not_file v idx x h at (no_file y at_y other) file =
    let same : y ≡ x = cc (at_y, at) in other (ap (λ (z : Inode). z.type) same ∙ file)
not_file v idx x h at (no_descriptor all) file =
    let (d, d_at) = get_elem?_of_lt v.fd_table 0 (omega (arith, h.descriptors.count)) in
    cc (all 0 d (omega arith) d_at, h.closed 0 d d_at)

-- `vfs_cat` behind `file_open`.
after_open :
    (v : Vfs) (name buf : List ℕ) (idx : ℕ) (x : Inode) (out : ℤ × List FileDescriptor)
    → IsValid v
    → max_file_size < length buf
    → FirstEntry v.inode_array v.current_dir name idx
    → get_elem? v.inode_array idx ≡ some x
    → (x.type == inode_dir) ≡ false
    → Opening v.inode_array v.fd_table idx out
    → Returns (Catted v name) (elim out.0 [
      | negsuc _ ↦ fail_with "Cannot open\n" (record v { fd_table = out.1 })
      | pos fd ↦ print_file (pos fd) buf (record v { fd_table = out.1 }) >>= λ v'. some (pos 0, v')
    ])
after_open v name buf idx x (pos fd, fds) h room entry at other o =
    let same : o.inode ≡ x = cc (o.at, at) in
    let file : x.type ≡ inode_file = ap (λ (z : Inode). z.type) (sym same) ∙ o.is_file in
    rw o.result (
      Returns-bind (λ w. Catted v name (pos 0, w)) (Catted v name)
        (print_file (pos fd) buf (record v { fd_table = set v.fd_table fd (opened idx) }))
        (λ v'. some (pos 0, v'))
        (print_file-Catted v name h idx x entry at file buf room fd
          (get_elem?-lt v.fd_table fd o.old_at))
        (λ w c. c))
after_open v name buf idx x (negsuc e, fds) h room entry at other (_, same, why) = rw same (
    Returns-mono (Failed "Cannot open\n" v) (Catted v name) (fail_with "Cannot open\n" v)
      (fail_with-Failed "Cannot open\n" v h)
      (λ out f. refused idx x entry at (not_file v idx x h at why) (rw other f)))

-- The rest of `vfs_cat`, after the search.
cat_inode-Catted :
    (v : Vfs) (name buf : List ℕ) (r : ℤ)
    → IsValid v
    → max_file_size < length buf
    → Lookup v.inode_array v.current_dir name r
    → Returns (Catted v name) (cat_inode buf v r)
unfolding cat_inode
cat_inode-Catted v name buf (negsuc e) h room absent =
    Returns-mono (Failed "File not found\n" v) (Catted v name) (fail_with "File not found\n" v)
      (fail_with-Failed "File not found\n" v h) (λ out f. not_found absent.1 f)
cat_inode-Catted v name buf (pos idx) h room (entry, inside) =
    let (x, at) = get_elem?_of_lt v.inode_array idx (omega (arith, h.inodes.count)) in
    elim (Bool-cases (x.type == inode_dir)) [
      | inl dir ↦
          rw (at, dir)
            (Returns-mono (Failed "Is a directory\n" v) (Catted v name)
              (fail_with "Is a directory\n" v) (fail_with-Failed "Is a directory\n" v h)
              (λ out f. refused idx x entry at (λ e. ground arith) (rw dir f)))
      | inr other ↦
          rw (at, other)
            (Returns-bind (Opening v.inode_array v.fd_table idx) (Catted v name)
              (file_open idx v.inode_array v.fd_table) _
              (file_open_lem idx v.inode_array v.fd_table h.inodes h.descriptors)
              (λ out o. after_open v name buf idx x out h room entry at other o))
    ]

-- `vfs_cat` of any C string in a valid file system, with its buffer one byte longer than the largest
-- file. If the first entry of that name in the current directory is a file, it prints the file's
-- bytes before the first NUL, and a new line unless the file is empty or its last byte is one, and
-- returns 0; nothing but the screen and closed descriptors has changed. If it is no file, or there is
-- no such entry, it prints which and returns -1, and nothing but the screen has changed. The file
-- system is valid after it.
pub vfs_cat_lem :
    (name buf : List ℕ) (v : Vfs)
    → IsValid v
    → IsCString name
    → max_file_size < length buf
    → Returns (Catted v name) (vfs_cat name buf v)
unfolding vfs_cat find
vfs_cat_lem name buf v h c room =
    Returns-bind (Lookup v.inode_array v.current_dir name) (Catted v name)
      (find_inode_in_dir v.inode_array v.current_dir name) (cat_inode buf v)
      (find_inode_in_dir_lem v.inode_array v.current_dir name h.inodes c)
      (λ r l. cat_inode-Catted v name buf r h room l)
