-- ===== src/Vfs/Navigate.antt =====
-- `vfs_cd`.
use anaga.Prelude.{
  ℕ, ◌≡◌, ◌≢◌, subst, inl, inr, some, List, true, false, arith, get_elem?, get_elem?_of_lt, literal,
  ◌==◌, Bool-cases, eq-cases, eq→==, ne→==, Returns, Returns-bind, Returns-mono, ℤ, pos, negsuc,
}
use anaga.CString.{is_equal}
use anaga.CString.Text.{IsCString, text}
use anaga.CString.Compare.{lex, strcmp_lem, eq_of_lex}
use anaga.File.{Inode, inode_dir, find_inode_in_dir}
use anaga.File.Lookup.{Entry, FirstEntry, Lookup, find_inode_in_dir_lem}
use anaga.Vfs.{Vfs, fail_with, find, cd_to, cd_up, vfs_cd}
use anaga.Vfs.Tree.{IsDirAt}
use anaga.CString.Text.{IsCString-literal}
use anaga.Vfs.Valid.{IsValid, Failed, fail_with-Failed}

-- A valid file system, moved to another directory.
pub moved_to-IsValid :
    (v : Vfs) (d : ℕ) → IsValid v → IsDirAt v.inode_array d → IsValid (record v { current_dir = d })
moved_to-IsValid v d h at = record {
  inodes = h.inodes;
  tree = h.tree;
  here = at;
  descriptors = h.descriptors;
  closed = h.closed;
  screen = h.screen;
}

-- The outcomes of `vfs_cd`.
pub data Changed (v : Vfs) (path : List ℕ) : ℤ × Vfs → Type 0 where
  stayed : text path ≡ text (literal "..") → v.current_dir ≡ 0 → Changed v path (pos 0, v)
  went_up :
      (x : Inode)
      → text path ≡ text (literal "..")
      → v.current_dir ≢ 0
      → get_elem? v.inode_array v.current_dir ≡ some x
      → IsValid (record v { current_dir = x.parent_inode })
      → Changed v path (pos 0, record v { current_dir = x.parent_inode })
  went_home :
      text path ≡ text (literal "/")
      → IsValid (record v { current_dir = 0 })
      → Changed v path (pos 0, record v { current_dir = 0 })
  went_down :
      (d : ℕ)
      → FirstEntry v.inode_array v.current_dir path d
      → IsDirAt v.inode_array d
      → IsValid (record v { current_dir = d })
      → Changed v path (pos 0, record v { current_dir = d })
  not_found :
      (out : ℤ × Vfs)
      → ((child : ℕ) → ¬ Entry v.inode_array v.current_dir path child)
      → Failed "Not found\n" v out
      → Changed v path out
  no_directory :
      (out : ℤ × Vfs) (child : ℕ)
      → FirstEntry v.inode_array v.current_dir path child
      → ¬ IsDirAt v.inode_array child
      → Failed "Not a directory\n" v out
      → Changed v path out

cd_up-Changed :
    (path : List ℕ) (v : Vfs)
    → IsValid v
    → text path ≡ text (literal "..")
    → Returns (Changed v path) (cd_up v)
unfolding cd_up
cd_up-Changed path v h dots = elim (eq-cases v.current_dir 0) [
  | inl e ↦ rw (eq→== v.current_dir 0 e) (stayed dots e)
  | inr e ↦
      let (less, d) =
        h.tree.parent v.current_dir h.here.inode h.here.at (omega (arith, h.here.directory)) e in
      rw (ne→== v.current_dir 0 e, h.here.at)
        (went_up h.here.inode dots e h.here.at (moved_to-IsValid v h.here.inode.parent_inode h d))
]

cd_to-Changed :
    (path : List ℕ) (v : Vfs) (found : ℤ)
    → IsValid v
    → Lookup v.inode_array v.current_dir path found
    → Returns (Changed v path) (cd_to v found)
unfolding cd_to
cd_to-Changed path v (negsuc e) h found =
    Returns-mono (Failed "Not found\n" v) (Changed v path) (fail_with "Not found\n" v)
      (fail_with-Failed "Not found\n" v h) (λ out f. not_found out found.1 f)
cd_to-Changed path v (pos idx) h found =
    let (x, at) = get_elem?_of_lt v.inode_array idx (omega (arith, h.inodes.count)) in
    elim (Bool-cases (x.type == inode_dir)) [
      | inl is_dir ↦
          let d : IsDirAt v.inode_array idx = record {
            inode = x;
            at = at;
            directory = eq_of_test x.type is_dir;
          } in
          rw (at, is_dir) (went_down idx found.0 d (moved_to-IsValid v idx h d))
      | inr other ↦
          rw (at, other)
            (Returns-mono (Failed "Not a directory\n" v) (Changed v path)
              (fail_with "Not a directory\n" v) (fail_with-Failed "Not a directory\n" v h)
              (λ out f. no_directory out idx found.0 (not_dir idx x at other) f))
    ]
  where
    eq_of_test : (k : ℕ) → (k == inode_dir) ≡ true → k ≡ inode_dir
    eq_of_test k e = ground arith

    not_dir :
        (idx : ℕ) (x : Inode)
        → get_elem? v.inode_array idx ≡ some x
        → (x.type == inode_dir) ≡ false
        → ¬ IsDirAt v.inode_array idx
    not_dir idx x at other d =
        let same : d.inode ≡ x = cc (d.at, at) in
        let kind : x.type ≡ inode_dir =
          subst (λ (y : Inode). y.type ≡ inode_dir) same d.directory in
        ground arith

is_equal-eq : (s t : List ℕ) → is_equal (lex s t) ≡ true → s ≡ t
is_equal-eq s t h = eq_of_lex s t (ground arith)

pub vfs_cd_lem :
    (path : List ℕ) (v : Vfs)
    → IsValid v
    → IsCString path
    → Returns (Changed v path) (vfs_cd path v)
unfolding vfs_cd find
vfs_cd_lem path v h c = elim (Bool-cases (is_equal (lex (text path) (text (literal ".."))))) [
  | inl up ↦
      rw (strcmp_lem path (literal "..") c (IsCString-literal ".."), up)
        (cd_up-Changed path v h (is_equal-eq (text path) (text (literal "..")) up))
  | inr not_up ↦ elim (Bool-cases (is_equal (lex (text path) (text (literal "/"))))) [
    | inl home ↦
        rw
          (
            strcmp_lem path (literal "..") c (IsCString-literal ".."),
            not_up,
            strcmp_lem path (literal "/") c (IsCString-literal "/"),
            home,
          )
          (went_home (is_equal-eq (text path) (text (literal "/")) home)
            (moved_to-IsValid v 0 h h.tree.root))
    | inr away ↦
        rw
          (
            strcmp_lem path (literal "..") c (IsCString-literal ".."),
            not_up,
            strcmp_lem path (literal "/") c (IsCString-literal "/"),
            away,
          )
          (Returns-bind (Lookup v.inode_array v.current_dir path) (Changed v path)
            (find_inode_in_dir v.inode_array v.current_dir path) (cd_to v)
            (find_inode_in_dir_lem v.inode_array v.current_dir path h.inodes c)
            (λ found r. cd_to-Changed path v found h r))
  ]
]
