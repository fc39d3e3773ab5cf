-- ===== src/File/Added.antt =====
-- What a new entry changes of the inode array, and of the entries of directories.
use anaga.Prelude.{
  ℕ, ◌<◌, ◌≡◌, ◌≢◌, sym, ap, ◌∙◌, ◌↔◌, subst, inl, inr, some, List, arith, length, set, get_elem?,
  get_elem?-lt, get_elem?-set_self, get_elem?-set_ne, get_elem?-set_cases, length-set, eq-cases,
  Returns-elim, ℤ, pos, negsuc,
}
use anaga.CString.Text.{IsCString, text}
use anaga.CString.Nul.{take_all}
use anaga.File.{Inode, max_inodes, max_filename, inode_free, inode_dir, find_inode_in_dir}
use anaga.File.Valid.{IsInodeArray, IsInodeArray-set}
use anaga.File.Lookup.{Entry, Lookup, IsNamed, find_inode_in_dir_lem}
use anaga.File.NewInode.{IsNew, linked, linked-IsInode}
use anaga.File.Create.{Added, free-ne-dir}

module _ (type : ℕ) (a : List Inode) (p : ℕ) (name : List ℕ) (idx : ℕ) (v : IsInodeArray a)
    (new dir old : Inode) (is_new : IsNew name type p new) (old_at : get_elem? a idx ≡ some old)
    (free : old.type ≡ inode_free) (dir_at : get_elem? a p ≡ some dir)
    (directory : dir.type ≡ inode_dir) (room : dir.num_entries < 16) where
  abbrev after : List Inode
  after = set (set a idx new) p (linked dir idx)

  idx-ne-p : idx ≢ p
  idx-ne-p = free-ne-dir a p idx dir_at directory old_at free

  idx-lt : idx < max_inodes
  idx-lt = omega (arith, get_elem?-lt a idx old_at, v.count)

  after-IsInodeArray : IsInodeArray after
  after-IsInodeArray =
      IsInodeArray-set (set a idx new) p (linked dir idx)
        (IsInodeArray-set a idx new v is_new.valid)
        (linked-IsInode dir idx (v.each p dir dir_at) room idx-lt)

  at_dir : get_elem? after p ≡ some (linked dir idx)
  at_dir =
      get_elem?-set_self (set a idx new) p (linked dir idx)
        (omega (arith, length-set a idx new, get_elem?-lt a p dir_at))

  at_new : get_elem? after idx ≡ some new
  at_new =
      get_elem?-set_ne (set a idx new) (linked dir idx) (λ e. idx-ne-p (sym e))
      ∙ get_elem?-set_self a idx new (get_elem?-lt a idx old_at)

  at_other : (j : ℕ) → j ≢ idx → j ≢ p → get_elem? after j ≡ get_elem? a j
  at_other j n m =
      get_elem?-set_ne (set a idx new) (linked dir idx) (λ e. m (sym e))
      ∙ get_elem?-set_ne a new (λ e. n (sym e))

  IsNamed-before : (m : List ℕ) (c : ℕ) → c ≢ idx → IsNamed after c m → IsNamed a c m
  IsNamed-before m c n h = elim (eq-cases c p) [
    | inl e ↦
        let same : linked dir idx ≡ h.inode = cc (at_dir, h.at, e) in
        record {
          inode = dir;
          at = rw e dir_at;
          same = subst (λ (x : Inode). text x.name ≡ text m) (sym same) h.same;
        }
    | inr e ↦ record { inode = h.inode; at = sym (at_other c n e) ∙ h.at; same = h.same }
  ]

  IsNamed-after : (m : List ℕ) (c : ℕ) → c ≢ idx → IsNamed a c m → IsNamed after c m
  IsNamed-after m c n h = elim (eq-cases c p) [
    | inl e ↦
        let same : dir ≡ h.inode = cc (dir_at, h.at, e) in
        record {
          inode = linked dir idx;
          at = rw e at_dir;
          same = subst (λ (x : Inode). text x.name ≡ text m) (sym same) h.same;
        }
    | inr e ↦ record { inode = h.inode; at = at_other c n e ∙ h.at; same = h.same }
  ]

  Entry-before : (d : ℕ) (m : List ℕ) (c : ℕ) → c ≢ idx → Entry after d m c → Entry a d m c
  Entry-before d m c n h = elim (eq-cases d p) [
    | inl e ↦
        let same : h.dir ≡ linked dir idx = cc (at_dir, h.at, e) in
        let used = subst (λ (x : Inode). h.slot < x.num_entries) same h.used in
        let entry = subst (λ (x : Inode). get_elem? x.dir_entries h.slot ≡ some c) same h.entry in
        elim (get_elem?-set_cases dir.dir_entries dir.num_entries h.slot idx entry) [
          | inl last ↦ absurd (n last.1)
          | inr kept ↦ record {
            dir = dir;
            at = rw e dir_at;
            directory = directory;
            slot = h.slot;
            used = omega arith;
            entry = kept.1;
            named = IsNamed-before m c n h.named;
          }
        ]
    | inr e ↦ elim (eq-cases d idx) [
      | inl f ↦
          let same : h.dir ≡ new = cc (at_new, h.at, f) in
          let used = subst (λ (x : Inode). h.slot < x.num_entries) same h.used in
          absurd (omega (arith, is_new.num_entries))
      | inr f ↦ record {
        dir = h.dir;
        at = sym (at_other d f e) ∙ h.at;
        directory = h.directory;
        slot = h.slot;
        used = h.used;
        entry = h.entry;
        named = IsNamed-before m c n h.named;
      }
    ]
  ]

  Entry-after : (d : ℕ) (m : List ℕ) (c : ℕ) → c ≢ idx → Entry a d m c → Entry after d m c
  Entry-after d m c n h = elim (eq-cases d p) [
    | inl e ↦
        let same : h.dir ≡ dir = cc (dir_at, h.at, e) in
        let used = subst (λ (x : Inode). h.slot < x.num_entries) same h.used in
        let entry = subst (λ (x : Inode). get_elem? x.dir_entries h.slot ≡ some c) same h.entry in
        record {
          dir = linked dir idx;
          at = rw e at_dir;
          directory = directory;
          slot = h.slot;
          used = omega arith;
          entry = get_elem?-set_ne dir.dir_entries idx (omega arith) ∙ entry;
          named = IsNamed-after m c n h.named;
        }
    | inr e ↦ elim (eq-cases d idx) [
      | inl f ↦
          let same : h.dir ≡ old = cc (old_at, h.at, f) in
          let kind = subst (λ (x : Inode). x.type ≡ inode_dir) same h.directory in
          absurd (omega arith)
      | inr f ↦ record {
        dir = h.dir;
        at = at_other d f e ∙ h.at;
        directory = h.directory;
        slot = h.slot;
        used = h.used;
        entry = h.entry;
        named = IsNamed-after m c n h.named;
      }
    ]
  ]

  new-Entry : length (text name) < max_filename → Entry after p name idx
  new-Entry short = record {
    dir = linked dir idx;
    at = at_dir;
    directory = directory;
    slot = dir.num_entries;
    used = omega arith;
    entry =
        get_elem?-set_self dir.dir_entries dir.num_entries idx
          (omega (arith, (v.each p dir dir_at).entries_size));
    named = record {
      inode = new;
      at = at_new;
      same = is_new.stored ∙ take_all 31 (text name) (omega arith);
    };
  }

-- An array with an entry added is valid.
pub Added-IsInodeArray :
    (type : ℕ) (a : List Inode) (p : ℕ) (name : List ℕ) (idx : ℕ) (a' : List Inode)
    → IsInodeArray a
    → Added type a p name idx a'
    → IsInodeArray a'
Added-IsInodeArray type a p name idx a' v h = subst IsInodeArray (sym h.result) (
    after-IsInodeArray type a p name idx v h.new h.dir h.old h.is_new h.old_at h.was_free h.dir_at
      h.directory h.room)

-- Every entry of every directory but the new one is there after just if it was there before.
pub Entry-Added_iff :
    (type : ℕ) (a : List Inode) (p : ℕ) (name : List ℕ) (idx : ℕ) (a' : List Inode)
    → IsInodeArray a
    → Added type a p name idx a'
    → (d : ℕ) (m : List ℕ) (child : ℕ) → child ≢ idx
    → Entry a' d m child ↔ Entry a d m child
Entry-Added_iff type a p name idx a' v h d m child n = (
  λ e.
      Entry-before type a p name idx v h.new h.dir h.old h.is_new h.old_at h.was_free h.dir_at
        h.directory h.room d m child n (subst (λ (b : List Inode). Entry b d m child) h.result e),
  λ e.
      subst (λ (b : List Inode). Entry b d m child) (sym h.result)
        (Entry-after type a p name idx v h.new h.dir h.old h.is_new h.old_at h.was_free h.dir_at
          h.directory h.room d m child n e),
)

found_new :
    (type : ℕ) (a : List Inode) (p : ℕ) (name : List ℕ) (idx : ℕ) (a' : List Inode) (r : ℤ)
    → IsInodeArray a
    → Added type a p name idx a'
    → Entry a' p name idx
    → Lookup a' p name r
    → r ≡ pos idx
found_new type a p name idx a' (negsuc e) v h new r = absurd (r.1 idx new)
found_new type a p name idx a' (pos c) v h new r = elim (eq-cases c idx) [
  | inl e ↦ ap pos e
  | inr e ↦ absurd (h.absent c ((Entry-Added_iff type a p name idx a' v h p name c e).0 r.0.here))
]

-- After an entry is added, the search of that directory for a name of at most 31 bytes finds it.
pub Added-find :
    (type : ℕ) (a : List Inode) (p : ℕ) (name : List ℕ) (idx : ℕ) (a' : List Inode)
    → IsInodeArray a
    → IsCString name
    → length (text name) < max_filename
    → Added type a p name idx a'
    → find_inode_in_dir a' p name ≡ some (pos idx)
Added-find type a p name idx a' v c short h =
    let v' = Added-IsInodeArray type a p name idx a' v h in
    let new =
      subst (λ (b : List Inode). Entry b p name idx) (sym h.result)
        (new-Entry type a p name idx v h.new h.dir h.old h.is_new h.old_at h.was_free h.dir_at
          h.directory h.room short) in
    let (r, e, found) =
      Returns-elim (Lookup a' p name) (find_inode_in_dir a' p name)
        (find_inode_in_dir_lem a' p name v' c) in
    e ∙ ap some (found_new type a p name idx a' r v h new found)
