-- ===== src/Vfs/Tree.antt =====
-- The inodes form a tree: they are allocated from the first on, and each but the root stands in a
-- directory that was allocated before it.
use anaga.Prelude.{
  ℕ, zero, suc, ◌≤◌, ◌<◌, ◌≡◌, ◌≢◌, refl, sym, ap, ◌∙◌, subst, inl, inr, some, List, [], ◌∷◌, ◌++◌,
  arith, set, get_elem?, get_elem?-lt, get_elem?-set_cases, get_elem?-set_self, get_elem?-set_ne,
  length-set, eq-cases, lt-cases, eq→==, ne→==, Returns, Returns-mono, append_assoc,
}
use anaga.File.{Inode, inode_free, inode_dir}
use anaga.File.NewInode.{linked}
use anaga.File.Create.{Added}
use anaga.Vfs.{collect_path}

pub record IsDirAt (a : List Inode) (i : ℕ) : Type 0 where
  pub inode : Inode
  pub at : get_elem? a i ≡ some inode
  pub directory : inode.type ≡ inode_dir

pub record IsTree (a : List Inode) : Type 0 where
  pub root : IsDirAt a 0
  pub packed :
      (i j : ℕ) (x y : Inode)
      → i < j
      → get_elem? a i ≡ some x
      → get_elem? a j ≡ some y
      → y.type ≢ inode_free
      → x.type ≢ inode_free
  pub parent :
      (i : ℕ) (x : Inode)
      → get_elem? a i ≡ some x
      → x.type ≢ inode_free
      → i ≢ 0
      → (x.parent_inode < i) × IsDirAt a x.parent_inode

-- Where each inode of the array after an addition comes from.
data Origin (a : List Inode) (p idx : ℕ) (new dir : Inode) (i : ℕ) (x : Inode) : Type 0 where
  is_new : i ≡ idx → x ≡ new → Origin a p idx new dir i x
  is_dir : i ≡ p → x ≡ linked dir idx → Origin a p idx new dir i x
  is_old : i ≢ idx → i ≢ p → get_elem? a i ≡ some x → Origin a p idx new dir i x

origin :
    (a : List Inode) (p idx : ℕ) (new dir : Inode) (i : ℕ) (x : Inode)
    → get_elem? (set (set a idx new) p (linked dir idx)) i ≡ some x
    → Origin a p idx new dir i x
origin a p idx new dir i x h = elim (get_elem?-set_cases (set a idx new) p i (linked dir idx) h) [
  | inl e ↦ is_dir e.0 e.1
  | inr e ↦ elim (get_elem?-set_cases a idx i new e.1) [
    | inl f ↦ is_new f.0 f.1
    | inr f ↦ is_old f.0 e.0 f.1
  ]
]

module _ (type : ℕ) (a : List Inode) (p : ℕ) (name : List ℕ) (idx : ℕ) (a' : List Inode)
    (tree : IsTree a) (h : Added type a p name idx a') (kind : type ≢ inode_free) where
  -- Every inode in use comes before the one that is added.
  used_before : (j : ℕ) (y : Inode) → get_elem? a j ≡ some y → y.type ≢ inode_free → j < idx
  used_before j y at used = elim (lt-cases j idx) [
    | inl before ↦ before
    | inr from ↦ elim (eq-cases idx j) [
      | inl e ↦
          let same : y ≡ h.old = cc (at, h.old_at, e) in
          absurd (used (ap (λ (x : Inode). x.type) same ∙ h.was_free))
      | inr e ↦ absurd (tree.packed idx j h.old y (omega arith) h.old_at at used h.was_free)
    ]
  ]

  p-lt-idx : p < idx
  p-lt-idx = used_before p h.dir h.dir_at (omega (arith, h.directory))

  Origin-after : (i : ℕ) (x : Inode) → get_elem? a' i ≡ some x → Origin a p idx h.new h.dir i x
  Origin-after i x at =
      origin a p idx h.new h.dir i x
        (subst (λ (b : List Inode). get_elem? b i ≡ some x) h.result at)

  at_dir : get_elem? a' p ≡ some (linked h.dir idx)
  at_dir =
      subst (λ (b : List Inode). get_elem? b p ≡ some (linked h.dir idx)) (sym h.result)
        (get_elem?-set_self (set a idx h.new) p (linked h.dir idx)
          (omega (arith, length-set a idx h.new, get_elem?-lt a p h.dir_at)))

  at_old : (i : ℕ) → i ≢ idx → i ≢ p → get_elem? a' i ≡ get_elem? a i
  at_old i n m =
      subst (λ (b : List Inode). get_elem? b i ≡ get_elem? a i) (sym h.result)
        (get_elem?-set_ne (set a idx h.new) (linked h.dir idx) (λ e. m (sym e))
          ∙ get_elem?-set_ne a h.new (λ e. n (sym e)))

  dir_after : (i : ℕ) → IsDirAt a i → IsDirAt a' i
  dir_after i d =
      let before : i < idx = used_before i d.inode d.at (omega (arith, d.directory)) in
      elim (eq-cases i p) [
        | inl e ↦ record { inode = linked h.dir idx; at = rw e at_dir; directory = h.directory }
        | inr e ↦ record {
          inode = d.inode;
          at = at_old i (omega arith) e ∙ d.at;
          directory = d.directory;
        }
      ]

  type_of : (x y : Inode) → x ≡ y → x.type ≡ y.type
  type_of x y e = ap (λ (z : Inode). z.type) e

  used_after : (i : ℕ) (x : Inode) → get_elem? a' i ≡ some x → i < idx → x.type ≢ inode_free
  used_after i x at before = elim (Origin-after i x at) [
    | is_new e f ↦ absurd (omega arith)
    | is_dir e f ↦ λ z. omega (arith, h.directory, type_of x (linked h.dir idx) f)
    | is_old n m old ↦ h.first i x before old
  ]

  in_use_le : (j : ℕ) (y : Inode) → get_elem? a' j ≡ some y → y.type ≢ inode_free → j ≤ idx
  in_use_le j y at used = elim (Origin-after j y at) [
    | is_new e f ↦ omega arith
    | is_dir e f ↦ omega (arith, p-lt-idx)
    | is_old n m old ↦ omega (arith, used_before j y old used)
  ]

  parent_after :
      (i : ℕ) (x : Inode)
      → get_elem? a' i ≡ some x
      → x.type ≢ inode_free
      → i ≢ 0
      → (x.parent_inode < i) × IsDirAt a' x.parent_inode
  parent_after i x at used n = elim (Origin-after i x at) [
    | is_new e f ↦
        let up : x.parent_inode ≡ p =
          ap (λ (z : Inode). z.parent_inode) f ∙ h.is_new.parent_inode in
        rw (up, e)
          (p-lt-idx, dir_after p (record { inode = h.dir; at = h.dir_at; directory = h.directory }))
    | is_dir e f ↦
        let up : x.parent_inode ≡ h.dir.parent_inode = ap (λ (z : Inode). z.parent_inode) f in
        let (less, d) = tree.parent p h.dir h.dir_at (omega (arith, h.directory)) (omega arith) in
        rw (up, e) (less, dir_after h.dir.parent_inode d)
    | is_old m k old ↦
        let (less, d) = tree.parent i x old used n in (less, dir_after x.parent_inode d)
  ]

  -- An addition keeps the tree.
  pub Added-IsTree : IsTree a'
  Added-IsTree = record {
    root = dir_after 0 tree.root;
    packed =
        λ i j x y less ati atj used. used_after i x ati (omega (arith, in_use_le j y atj used));
    parent = parent_after;
  }

  -- A directory is one still.
  pub Added-IsDirAt : (i : ℕ) → IsDirAt a i → IsDirAt a' i
  Added-IsDirAt = dir_after

-- `up` leads from the root down to inode `i`, each in the directory that stands before it.
pub data PathTo (a : List Inode) : ℕ → List ℕ → Type 0 where
  at_root : PathTo a 0 (0 ∷ [])
  below :
      (i : ℕ) (x : Inode) (up path : List ℕ)
      → i ≢ 0
      → get_elem? a i ≡ some x
      → PathTo a x.parent_inode up
      → path ≡ up ++ i ∷ []
      → PathTo a i path

-- What `collect_path` returns: the path to `i`, in front of what was collected.
pub record Collected (a : List Inode) (i : ℕ) (path out : List ℕ) : Type 0 where
  pub up : List ℕ
  pub path_to : PathTo a i up
  pub result : out ≡ up ++ path

-- In a tree the walk from an inode in use to the root ends, within as many words as its number and
-- one more, and lists the way from the root to it.
pub collect_path_lem :
    (a : List Inode) (room i : ℕ) (x : Inode) (path : List ℕ)
    → IsTree a
    → get_elem? a i ≡ some x
    → x.type ≢ inode_free
    → i < room
    → Returns (Collected a i path) (collect_path room a i path)
unfolding collect_path
collect_path_lem a zero i x path tree at used h = elim h [ ]
collect_path_lem a (suc room) i x path tree at used h = elim (eq-cases i 0) [
  | inl e ↦ rw (eq→== i 0 e) (record { up = 0 ∷ []; path_to = rw e at_root; result = rw e })
  | inr e ↦
      let (less, d) = tree.parent i x at used e in
      rw (ne→== i 0 e, at)
        (Returns-mono (Collected a x.parent_inode (i ∷ path)) (Collected a i path)
          (collect_path room a x.parent_inode (i ∷ path))
          (collect_path_lem a room x.parent_inode d.inode (i ∷ path) tree d.at
            (omega (arith, d.directory)) (omega arith))
          (λ out c. record {
            up = c.up ++ i ∷ [];
            path_to = below i x c.up (c.up ++ i ∷ []) e at c.path_to refl;
            result = c.result ∙ sym (append_assoc c.up (i ∷ []) path);
          }))
]
