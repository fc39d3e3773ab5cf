-- ===== src/File/Lookup.antt =====
-- `find_inode_in_dir`: the search of a directory for an entry by its name.
use anaga.Prelude.{
  ℕ, zero, suc, ◌≤◌, ◌<◌, ◌≡◌, refl, ◌↔◌, inl, inr, subst, some, List, [], ◌∷◌, Bool, true, false,
  arith, length, get_elem?, get_elem?_of_lt, get_elem?-lt, ◌==◌, ltb, if◌then◌else◌, Bool-cases,
  lt-cases, leb-true, leb-false, Returns, Returns-bind, Returns-mono, ℤ, pos, negsuc,
}
use anaga.CString.{Diff, equal, less, more, is_equal}
use anaga.CString.Text.{IsCString, text}
use anaga.CString.Compare.{lex, strcmp_lem, lex_self, eq_of_lex}
use anaga.File.{Inode, max_inodes, inode_dir, has_name, find_entry, find_inode_in_dir}
use anaga.File.Valid.{IsInodeArray}

-- Inode `child` exists and has the text of `name` for its name.
pub record IsNamed (a : List Inode) (child : ℕ) (name : List ℕ) : Type 0 where
  pub inode : Inode
  pub at : get_elem? a child ≡ some inode
  pub same : text inode.name ≡ text name

IsNamed-lex :
    (a : List Inode) (child : ℕ) (name : List ℕ) (x : Inode)
    → get_elem? a child ≡ some x
    → IsNamed a child name
    → lex (text x.name) (text name) ≡ equal
IsNamed-lex a child name x at n =
    let same : n.inode ≡ x = cc (n.at, at) in rw (← same, n.same) (lex_self (text name))

-- Texts that compare as equal, and the name at the index: the same thing.
is_equal-IsNamed :
    (a : List Inode) (child : ℕ) (name : List ℕ) (x : Inode) (d : Diff)
    → lex (text x.name) (text name) ≡ d
    → get_elem? a child ≡ some x
    → (is_equal d ≡ true) ↔ IsNamed a child name
is_equal-IsNamed a child name x equal e at =
    (λ _. record { inode = x; at = at; same = eq_of_lex (text x.name) (text name) e }, λ _. refl)
is_equal-IsNamed a child name x (less k) e at =
    (λ f. cc, λ n. cc (e, IsNamed-lex a child name x at n))
is_equal-IsNamed a child name x (more k) e at =
    (λ f. cc, λ n. cc (e, IsNamed-lex a child name x at n))

pub has_name_lem :
    (a : List Inode) (child : ℕ) (name : List ℕ)
    → IsInodeArray a
    → IsCString name
    → child < max_inodes
    → Returns (λ b. (b ≡ true) ↔ IsNamed a child name) (has_name a child name)
unfolding has_name
has_name_lem a child name v c h =
    let (x, at) = get_elem?_of_lt a child (omega (arith, v.count)) in
    rw (at, strcmp_lem x.name name (v.each child x at).name_closed c)
      (is_equal-IsNamed a child name x (lex (text x.name) (text name)) refl at)

-- The result of a search of the first `n` of some entries for a name.
abbrev pub Match : List Inode → List ℕ → ℕ → List ℕ → ℤ → Type 0
Match a name n entries (pos c) =
    (k : ℕ) × (k < n)
    × (get_elem? entries k ≡ some c)
    × (c < max_inodes)
    × IsNamed a c name
    × ((j : ℕ) (e : ℕ) → j < k → get_elem? entries j ≡ some e → e < max_inodes → ¬ IsNamed a e name)
Match a name n entries (negsuc e) =
    (e ≡ 0)
    × ((k : ℕ) (c : ℕ) → k < n → get_elem? entries k ≡ some c → c < max_inodes → ¬ IsNamed a c name)

no_match_after :
    (a : List Inode) (name : List ℕ) (n child : ℕ) (entries : List ℕ)
    → (child < max_inodes → ¬ IsNamed a child name)
    → ((k : ℕ) (c : ℕ) → k < n → get_elem? entries k ≡ some c → c < max_inodes → ¬ IsNamed a c name)
    → (k : ℕ) (c : ℕ) → k < suc n
    → get_elem? (child ∷ entries) k ≡ some c
    → c < max_inodes
    → ¬ IsNamed a c name
no_match_after a name n child entries skip rest zero c p e h =
    let same : child ≡ c = cc in subst (λ d. ¬ IsNamed a d name) same (skip (omega arith))
no_match_after a name n child entries skip rest (suc k) c p e h = rest k c (omega arith) e h

Match-skip :
    (a : List Inode) (name : List ℕ) (n child : ℕ) (entries : List ℕ) (r : ℤ)
    → (child < max_inodes → ¬ IsNamed a child name)
    → Match a name n entries r
    → Match a name (suc n) (child ∷ entries) r
Match-skip a name n child entries (pos c) skip (k, below, at, inside, named, first) =
    (suc k, omega arith, at, inside, named, no_match_after a name k child entries skip first)
Match-skip a name n child entries (negsuc e) skip (z, rest) =
    (z, no_match_after a name n child entries skip rest)

entry_step :
    (a : List Inode) (name : List ℕ) (n child : ℕ) (entries : List ℕ) (b : Bool)
    → child < max_inodes
    → (b ≡ true) ↔ IsNamed a child name
    → Returns (Match a name n entries) (find_entry a name n entries)
    → Returns
        (Match a name (suc n) (child ∷ entries))
        (if b then some (pos child) else find_entry a name n entries)
entry_step a name n child entries true h named later =
    (0, omega arith, refl, h, named.0 refl, λ j e less. absurd (omega arith))
entry_step a name n child entries false h named later =
    Returns-mono (Match a name n entries) (Match a name (suc n) (child ∷ entries)) _ later
      (λ r. Match-skip a name n child entries r (λ _ m. cc (named.1 m)))

find_entry_lem :
    (a : List Inode) (name : List ℕ) (n : ℕ) (entries : List ℕ)
    → IsInodeArray a
    → IsCString name
    → n ≤ length entries
    → Returns (Match a name n entries) (find_entry a name n entries)
unfolding find_entry
find_entry_lem a name zero entries v c h = (refl, λ k d p. absurd (omega arith))
find_entry_lem a name (suc n) [] v c h = absurd (omega arith)
find_entry_lem a name (suc n) (child ∷ entries) v c h =
    let later = find_entry_lem a name n entries v c (omega arith) in
    elim (Bool-cases (ltb child max_inodes)) [
      | inr outside ↦ rw outside (
          Returns-mono (Match a name n entries) (Match a name (suc n) (child ∷ entries)) _ later
            (λ r. Match-skip a name n child entries r (λ inside. ground arith)))
      | inl within ↦
          let inside : child < max_inodes = ground arith in
          rw within (
            Returns-bind (λ b. (b ≡ true) ↔ IsNamed a child name)
              (Match a name (suc n) (child ∷ entries)) (has_name a child name) _
              (has_name_lem a child name v c inside)
              (λ b named. entry_step a name n child entries b inside named later))
    ]

-- The directory `d` has a used entry for inode `child`, whose name is `name`.
pub record Entry (a : List Inode) (d : ℕ) (name : List ℕ) (child : ℕ) : Type 0 where
  pub dir : Inode
  pub at : get_elem? a d ≡ some dir
  pub directory : dir.type ≡ inode_dir
  pub slot : ℕ
  pub used : slot < dir.num_entries
  pub entry : get_elem? dir.dir_entries slot ≡ some child
  pub named : IsNamed a child name

-- The first such entry of the directory, in the order of its slots.
pub record FirstEntry (a : List Inode) (d : ℕ) (name : List ℕ) (child : ℕ) : Type 0 where
  pub here : Entry a d name child
  pub before :
      (j c : ℕ) → j < here.slot → get_elem? here.dir.dir_entries j ≡ some c → ¬ IsNamed a c name

abbrev pub Lookup : List Inode → ℕ → List ℕ → ℤ → Type 0
Lookup a d name (pos child) = FirstEntry a d name child × (child < max_inodes)
Lookup a d name (negsuc e) = (e ≡ 0) × ((child : ℕ) → ¬ Entry a d name child)

Match-Lookup :
    (a : List Inode) (d : ℕ) (name : List ℕ) (dir : Inode) (r : ℤ)
    → IsInodeArray a
    → get_elem? a d ≡ some dir
    → dir.type ≡ inode_dir
    → Match a name dir.num_entries dir.dir_entries r
    → Lookup a d name r
Match-Lookup a d name dir (pos c) v at t (k, used, e, inside, named, first) = (
  record {
    here = record {
      dir = dir;
      at = at;
      directory = t;
      slot = k;
      used = used;
      entry = e;
      named = named;
    };
    before = λ j c less there. first j c less there ((v.each d dir at).entries_in j c there);
  },
  inside,
)
Match-Lookup a d name dir (negsuc e) v at t (z, none_matches) = (
  z,
  λ child found.
      let same : found.dir ≡ dir = cc (found.at, at) in
      none_matches found.slot child (rw same at found.used) (rw same at found.entry)
        ((v.each d dir at).entries_in found.slot child (rw same at found.entry)) found.named,
)

-- In a valid inode array, and for any C string, `find_inode_in_dir` reads no byte outside an array;
-- it returns the child of the first entry of that name if the inode is a directory with such an entry,
-- and -1 if there is none.
pub find_inode_in_dir_lem :
    (a : List Inode) (d : ℕ) (name : List ℕ)
    → IsInodeArray a
    → IsCString name
    → Returns (Lookup a d name) (find_inode_in_dir a d name)
unfolding find_inode_in_dir
find_inode_in_dir_lem a d name v c = elim (lt-cases d max_inodes) [
  | inr out ↦
      rw (leb-true max_inodes d out)
        (refl, λ child found. let in_range = get_elem?-lt a d found.at in omega (arith, v.count))
  | inl inside ↦
      let (dir, at) = get_elem?_of_lt a d (omega (arith, v.count)) in
      elim (Bool-cases (dir.type == inode_dir)) [
        | inl yes_dir ↦
            rw (leb-false max_inodes d inside, at, yes_dir)
              (Returns-mono (Match a name dir.num_entries dir.dir_entries) (Lookup a d name) _
                (find_entry_lem a name dir.num_entries dir.dir_entries v c
                  (omega (arith, (v.each d dir at).entries_size, (v.each d dir at).entries_used)))
                (λ r. Match-Lookup a d name dir r v at (ground arith)))
        | inr not_dir ↦
            rw (leb-false max_inodes d inside, at, not_dir)
              (
                refl,
                λ child found.
                    let same : found.dir ≡ dir = cc (found.at, at) in
                    let t : dir.type ≡ inode_dir = rw same at found.directory in ground arith,
              )
      ]
]
