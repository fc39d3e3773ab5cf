-- ===== src/Vfs/Print.antt =====
-- `vfs_ls` and `vfs_pwd`: what they print.
use mathlib.Core.Path.{fun_ext}
use anaga.Prelude.{
  ℕ, zero, suc, ◌≤◌, ◌<◌, ◌≡◌, refl, ap, ◌∙◌, inl, inr, Option, none, some, List, [], ◌∷◌, ◌++◌,
  arith, length, get_elem?, get_elem?_of_lt, literal, ◌==◌, if◌then◌else◌, ◌>>=◌, Bool-cases, AllAt,
  Returns, Returns-elim, append-nil,
}
use anaga.CString.Text.{IsCString, text}
use anaga.Display.{Screen, kputc, kprint, put_all}
use anaga.Display.Safety
use anaga.Display.Safety.{print_then, kprint_lem, put_all-IsValid, put_all-append}
use anaga.File.{Inode, max_inodes}
use anaga.File.Valid.{IsInodeArray}
use anaga.Vfs.{Vfs, collect_path, print_path, vfs_pwd, list_entries, vfs_ls}
use anaga.Vfs.Tree.{IsDirAt, PathTo, at_root, below, Collected, collect_path_lem}
use anaga.CString.Text.{IsCString-literal}
use anaga.Vfs.Valid.{IsValid, dir_lt, SameFiles}

-- The name of an inode, as it is printed.
abbrev pub name_at : List Inode → ℕ → List ℕ
name_at a i = elim (get_elem? a i) [ none ↦ [] | some x ↦ text x.name ]

-- `/` and a name for each inode of a path.
pub path_text : List Inode → List ℕ → List ℕ
path_text a [] = []
path_text a (i ∷ path) = b'/' ∷ (name_at a i ++ path_text a path)

-- A name and a new line for each of the first `n` entries.
pub listing : List Inode → ℕ → List ℕ → List ℕ
listing a zero entries = []
listing a (suc n) [] = []
listing a (suc n) (c ∷ entries) = name_at a c ++ (b'\n' ∷ listing a n entries)

-- What `vfs_ls` prints of a directory.
pub ls_text : List Inode → Inode → List ℕ
ls_text a dir =
    if dir.num_entries == 0
    then text (literal "(empty)\n")
    else listing a dir.num_entries dir.dir_entries

-- A call that only prints: it prints `output` on the screen, and changes nothing else.
pub record Printed (v : Vfs) (output : List ℕ) (w : Vfs) : Type 0 where
  pub printed : put_all output v.screen ≡ some w.screen
  pub same : SameFiles v w
  pub same_disk : w.disk ≡ v.disk
  pub valid : IsValid w

put_then :
    (c : ℕ) (ys : List ℕ) (s : Screen) (k : Screen → Option Screen)
    → ((s' : Screen) → k s' ≡ put_all ys s')
    → (kputc c s >>= k) ≡ put_all (c ∷ ys) s
unfolding put_all
put_then c ys s k h = ap (λ (f : Screen → Option Screen). kputc c s >>= f) (fun_ext h)

entry_text :
    (name : List ℕ) (rest : List ℕ) (s : Screen) (k : Screen → Option Screen)
    → IsCString name
    → ((s' : Screen) → k s' ≡ put_all rest s')
    → (kprint (some name) s >>= λ named. kputc b'\n' named >>= k)
      ≡ put_all (text name ++ (b'\n' ∷ rest)) s
entry_text name rest s k c h = rw (kprint_lem name s c) (
    print_then (text name) (b'\n' ∷ rest) s (λ named. kputc b'\n' named >>= k)
      (λ s'. put_then b'\n' rest s' k h))

name_at-some :
    (a : List Inode) (i : ℕ) (x : Inode) → get_elem? a i ≡ some x → name_at a i ≡ text x.name
name_at-some a i x at = rw (at, name_at)

list_entries_lem :
    (a : List Inode) (n : ℕ) (entries : List ℕ) (screen : Screen)
    → IsInodeArray a
    → n ≤ length entries
    → AllAt (λ k c. c < max_inodes) entries
    → list_entries a n entries screen ≡ put_all (listing a n entries) screen
unfolding list_entries listing put_all
list_entries_lem a zero entries screen v h inside = refl
list_entries_lem a (suc n) [] screen v h inside = absurd (omega arith)
list_entries_lem a (suc n) (c ∷ entries) screen v h inside =
    let (x, at) = get_elem?_of_lt a c (omega (arith, inside 0 c refl, v.count)) in
    rw (name_at-some a c x at, at)
      (entry_text x.name (listing a n entries) screen (list_entries a n entries)
        (v.each c x at).name_closed
        (λ s. list_entries_lem a n entries s v (omega arith) (λ k d e. inside (suc k) d e)))

pub put_output :
    (v : Vfs) (output : List ℕ)
    → IsValid v
    → Returns
        (Printed v output)
        (put_all output v.screen >>= λ screen. some (record v { screen = screen }))
put_output v output h =
    let (s, e, valid) =
      Returns-elim (λ s. Safety.IsValid s) (put_all output v.screen)
        (put_all-IsValid output v.screen h.screen) in
    rw e (record {
      printed = e;
      same = record { current_dir = refl; inode_array = refl; fd_table = refl };
      same_disk = refl;
      valid = record {
        inodes = h.inodes;
        tree = h.tree;
        here = h.here;
        descriptors = h.descriptors;
        closed = h.closed;
        screen = valid;
      };
    })

-- `vfs_ls` in a valid file system prints a line with the name of each entry of the current
-- directory, in their order, or `(empty)` where there is none, and changes nothing else.
pub vfs_ls_lem :
    (v : Vfs)
    → IsValid v
    → (dir : Inode) × (get_elem? v.inode_array v.current_dir ≡ some dir)
      × Returns (Printed v (ls_text v.inode_array dir)) (vfs_ls v)
unfolding vfs_ls ls_text
vfs_ls_lem v h =
    let dir = h.here.inode in
    let at = h.here.at in
    let inode = h.inodes.each v.current_dir dir at in
    (
      dir,
      at,
      rw at (elim (Bool-cases (dir.num_entries == 0)) [
        | inl e ↦
            rw (e, kprint_lem (literal "(empty)\n") v.screen (IsCString-literal "(empty)\n"))
              (put_output v (text (literal "(empty)\n")) h)
        | inr e ↦
            rw
              (
                e,
                list_entries_lem v.inode_array dir.num_entries dir.dir_entries v.screen h.inodes
                    (omega (arith, inode.entries_size, inode.entries_used)) inode.entries_in,
              )
              (put_output v (listing v.inode_array dir.num_entries dir.dir_entries) h)
      ]),
    )

-- Each inode of a path exists.
AllIn : List Inode → List ℕ → Type 0
AllIn a [] = Unit
AllIn a (i ∷ path) = ((x : Inode) × (get_elem? a i ≡ some x)) × AllIn a path

AllIn-snoc :
    (a : List Inode) (path : List ℕ) (i : ℕ) (x : Inode)
    → AllIn a path
    → get_elem? a i ≡ some x
    → AllIn a (path ++ i ∷ [])
unfolding AllIn
AllIn-snoc a [] i x h at = ((x, at), tt)
AllIn-snoc a (j ∷ path) i x h at = (h.0, AllIn-snoc a path i x h.1 at)

PathTo-AllIn :
    (a : List Inode) (i : ℕ) (path : List ℕ) → IsDirAt a 0 → PathTo a i path → AllIn a path
unfolding AllIn
PathTo-AllIn a _ _ root at_root = ((root.inode, root.at), tt)
PathTo-AllIn a _ _ root (below i x up path n at to e) =
    rw e (AllIn-snoc a up i x (PathTo-AllIn a x.parent_inode up root to) at)

-- The name of an inode is printed unless it is empty.
path_name :
    (name rest : List ℕ) (s : Screen) (k : Screen → Option Screen)
    → IsCString name
    → ((s' : Screen) → k s' ≡ put_all rest s')
    → (get_elem? name 0 >>= λ c. (if c == 0 then some s else kprint (some name) s) >>= k)
      ≡ put_all (text name ++ rest) s
path_name [] rest s k c h = absurd c
path_name (b ∷ name) rest s k c h = elim (Bool-cases (b == 0)) [
  | inl e ↦ rw e (h s)
  | inr e ↦ rw (e, kprint_lem (b ∷ name) s c, e) (print_then (b ∷ text name) rest s k h)
]

print_path_lem :
    (a : List Inode) (path : List ℕ) (screen : Screen)
    → IsInodeArray a
    → AllIn a path
    → print_path a path screen ≡ put_all (path_text a path) screen
unfolding print_path path_text put_all AllIn
print_path_lem a [] screen v h = refl
print_path_lem a (i ∷ path) screen v ((x, at), h) =
    rw (name_at-some a i x at, at)
      (put_then b'/' (text x.name ++ path_text a path) screen
        (λ slash. get_elem? x.name 0 >>= λ c.
          (if c == 0 then some slash else kprint (some x.name) slash) >>= print_path a path)
        (λ s.
          path_name x.name (path_text a path) s (print_path a path) (v.each i x at).name_closed
            (λ s'. print_path_lem a path s' v h)))

-- `vfs_pwd` in a valid file system prints a slash and a name for each directory on the way from the
-- root to the current one, and changes nothing else.
pub vfs_pwd_lem :
    (v : Vfs)
    → IsValid v
    → (up : List ℕ) × PathTo v.inode_array v.current_dir up
      × Returns (Printed v (path_text v.inode_array up)) (vfs_pwd v)
unfolding vfs_pwd
vfs_pwd_lem v h =
    let (out, e, c) =
      Returns-elim (Collected v.inode_array v.current_dir [])
        (collect_path 32 v.inode_array v.current_dir [])
        (collect_path_lem v.inode_array 32 v.current_dir h.here.inode [] h.tree h.here.at
          (omega (arith, h.here.directory)) (dir_lt v h)) in
    let whole : out ≡ c.up = c.result ∙ append-nil c.up in
    (
      c.up,
      c.path_to,
      rw
          (
            e,
            whole,
            print_path_lem v.inode_array c.up v.screen h.inodes
                (PathTo-AllIn v.inode_array v.current_dir c.up h.tree.root c.path_to),
          )
          (put_output v (path_text v.inode_array c.up) h),
    )
