-- ===== src/Command/Dispatch.antt =====
-- `handle_command`: the choice of the command, and what it is called with.
use anaga.Prelude.{
  ℕ, zero, suc, ◌<◌, ◌≡◌, ◌≢◌, refl, sym, ap, ◌∙◌, subst, inl, inr, List, [], ◌∷◌, ◌++◌, Option,
  none, some, true, false, arith, length, get_elem?, ◌==◌, ◌>>=◌, Bool-cases, literal, Returns,
  Returns-bind, Returns-mono, Returns-elim, Returns-intro,
}
use anaga.CString.{Diff, equal, is_equal}
use anaga.CString.Text.{IsCString, text, tail-IsCString}
use anaga.CString.Compare.{lex, lex_self, eq_of_lex, strcmp_lem}
use anaga.Display.{Screen, put_all}
use anaga.Display.Safety
use anaga.Display.Safety.{kprint_lem, put_all-IsValid, put_all-append}
use anaga.File.{max_file_size}
use anaga.Vfs.{Vfs}
use anaga.CString.Text.{IsCString-literal}
use anaga.Vfs.Valid.{IsValid}
use anaga.Vfs.Print.{Printed}
use anaga.Command.{
  CmdFn, Cmd, cmds, print, not_found, skip_spaces, parse, find_command, Next, stays, call, dispatch,
  handle_command,
}
use anaga.Command.Parse.{Parsed, first_word, argument, text_of, parse_lem}
use anaga.Command.Printing.{AreStrings, cmds-AreStrings}
use anaga.Command.Safety.{IsArgument, NextIsValid, call-IsValid}

-- The argument is a C string, or NULL, and the array keeps its length.
skip_spaces-IsArgument : (s : List ℕ) → IsCString s → Returns IsArgument (skip_spaces s)
unfolding skip_spaces
skip_spaces-IsArgument [] h = h
skip_spaces-IsArgument (c ∷ s) h = elim (Bool-cases (c == b' ')) [
  | inl sp ↦
      let n : (c == 0) ≡ false = ground arith in
      rw sp (skip_spaces-IsArgument s (tail-IsCString c s h n))
  | inr w ↦ elim (Bool-cases (c == 0)) [ inl e ↦ rw (w, e) tt | inr e ↦ rw (w, e) h ]
]

record Split (s : List ℕ) (r : List ℕ × Option (List ℕ)) : Type 0 where
  name : IsCString r.0
  args : IsArgument r.1
  size : length r.0 ≡ length s

parse-Split : (s : List ℕ) → IsCString s → Returns (Split s) (parse s)
unfolding parse
parse-Split [] h = h
parse-Split (c ∷ s) h = elim (Bool-cases (c == 0)) [
  | inl e ↦ rw e (record { name = h; args = tt; size = refl })
  | inr e ↦ elim (Bool-cases (c == b' ')) [
    | inl sp ↦
        rw (e, sp)
          (Returns-bind IsArgument (Split (c ∷ s)) (skip_spaces s) (λ args. some (0 ∷ s, args))
            (skip_spaces-IsArgument s (tail-IsCString c s h e))
            (λ a k. record { name = inl refl; args = k; size = refl }))
    | inr w ↦
        rw (e, w)
          (Returns-bind (Split s) (Split (c ∷ s)) (parse s) (λ r. some (c ∷ r.0, r.1))
            (parse-Split s (tail-IsCString c s h e))
            (λ r k. record { name = inr k.name; args = k.args; size = ap suc k.size }))
  ]
]

-- No command before index `k` has the name.
abbrev NoneBefore : List ℕ → List Cmd → ℕ → Type 0
NoneBefore name table k =
    (j : ℕ) (c : Cmd) → j < k → get_elem? table j ≡ some c → text c.name ≢ name

-- The first command of a name.
pub record FirstNamed (name : List ℕ) (table : List Cmd) (fn : CmdFn) : Type 0 where
  pub index : ℕ
  pub command : Cmd
  pub at : get_elem? table index ≡ some command
  pub named : text command.name ≡ name
  pub first : NoneBefore name table index
  pub runs : command.fn ≡ fn

abbrev pub Choice : List ℕ → List Cmd → Option CmdFn → Type 0
Choice name table none = (j : ℕ) (c : Cmd) → get_elem? table j ≡ some c → text c.name ≢ name
Choice name table (some fn) = FirstNamed name table fn

equal_texts : (s t : List ℕ) (d : Diff) → lex s t ≡ d → is_equal d ≡ true → t ≡ s
equal_texts s t equal e h = sym (eq_of_lex s t e)
equal_texts s t (Diff.less k) e h = cc
equal_texts s t (Diff.more k) e h = cc

other_texts : (s t : List ℕ) (d : Diff) → lex s t ≡ d → is_equal d ≡ false → t ≢ s
other_texts s t equal e h same = cc
other_texts s t (Diff.less k) e h same = cc (lex_self s, subst (λ u. lex s u ≡ Diff.less k) same e)
other_texts s t (Diff.more k) e h same = cc (lex_self s, subst (λ u. lex s u ≡ Diff.more k) same e)

absent-cons :
    (name : List ℕ) (c : Cmd) (table : List Cmd)
    → text c.name ≢ name
    → Choice name table none
    → Choice name (c ∷ table) none
absent-cons name c table other h zero d at same =
    other (subst (λ (x : Cmd). text x.name ≡ name) (sym (let e : c ≡ d = cc in e)) same)
absent-cons name c table other h (suc j) d at same = h j d at same

NoneBefore-cons :
    (name : List ℕ) (c : Cmd) (table : List Cmd) (k : ℕ)
    → text c.name ≢ name
    → NoneBefore name table k
    → NoneBefore name (c ∷ table) (suc k)
NoneBefore-cons name c table k other h zero d less at same =
    other (subst (λ (x : Cmd). text x.name ≡ name) (sym (let e : c ≡ d = cc in e)) same)
NoneBefore-cons name c table k other h (suc j) d less at same = h j d (omega arith) at same

Choice-cons :
    (name : List ℕ) (c : Cmd) (table : List Cmd) (found : Option CmdFn)
    → text c.name ≢ name
    → Choice name table found
    → Choice name (c ∷ table) found
Choice-cons name c table none other h = absent-cons name c table other h
Choice-cons name c table (some fn) other h = record {
  index = suc h.index;
  command = h.command;
  at = h.at;
  named = h.named;
  first = NoneBefore-cons name c table h.index other h.first;
  runs = h.runs;
}

find_command_lem :
    (name : List ℕ) (table : List Cmd)
    → IsCString name
    → AreStrings table
    → Returns (Choice (text name) table) (find_command name table)
unfolding find_command AreStrings
find_command_lem name [] h k = λ j c at. cc
find_command_lem name (c ∷ table) h (k, _, rest) =
    let d = lex (text name) (text c.name) in
    rw (strcmp_lem name c.name h k) (elim (Bool-cases (is_equal d)) [
      | inl e ↦ rw e (record {
        index = 0;
        command = c;
        at = refl;
        named = equal_texts (text name) (text c.name) d refl e;
        first = λ j x less. absurd (omega arith);
        runs = refl;
      })
      | inr e ↦ rw e (
          Returns-mono (Choice (text name) table) (Choice (text name) (c ∷ table))
            (find_command name table) (find_command_lem name table h rest)
            (λ found q.
              Choice-cons (text name) c table found (other_texts (text name) (text c.name) d refl e)
                q))
    ])

not_found_lem :
    (name : List ℕ) (v : Vfs)
    → IsCString name
    → IsValid v
    → Returns (Printed v (text name ++ text (literal ": not found\n"))) (not_found name v)
unfolding not_found print
not_found_lem name v c h =
    let V = λ (s : Screen). Safety.IsValid s in
    let tail = literal ": not found\n" in
    let (s1, e1, v1) =
      Returns-elim V (put_all (text name) v.screen)
        (put_all-IsValid (text name) v.screen h.screen) in
    let (s2, e2, v2) =
      Returns-elim V (put_all (text tail) s1) (put_all-IsValid (text tail) s1 v1) in
    rw (kprint_lem name v.screen c, e1, kprint_lem tail s1 (IsCString-literal ": not found\n"), e2)
      (record {
        printed =
            put_all-append (text name) (text tail) v.screen
            ∙ ap (λ m. m >>= put_all (text tail)) e1
            ∙ e2;
        same = record { current_dir = refl; inode_array = refl; fd_table = refl };
        same_disk = refl;
        valid = record {
          inodes = h.inodes;
          tree = h.tree;
          here = h.here;
          descriptors = h.descriptors;
          closed = h.closed;
          screen = v2;
        };
      })

-- The outcomes of `handle_command`: the caller's array afterwards, and what follows.
pub data HandledCommand (buf cmd : List ℕ) (v : Vfs) (out : List ℕ × Next) : Type 0 where
  empty_line : text cmd ≡ [] → out.0 ≡ cmd → out.1 ≡ stays v → HandledCommand buf cmd v out
  ran :
      (fn : CmdFn) (a : Option (List ℕ))
      → FirstNamed (first_word (text cmd)) cmds fn
      → text_of a ≡ argument (text cmd)
      → call buf fn a v ≡ some out.1
      → HandledCommand buf cmd v out
  unknown :
      (w : Vfs)
      → Choice (first_word (text cmd)) cmds none
      → Printed v (first_word (text cmd) ++ text (literal ": not found\n")) w
      → out.1 ≡ stays w
      → HandledCommand buf cmd v out

-- What the shell relies on after a command.
pub record Kept (cmd : List ℕ) (out : List ℕ × Next) : Type 0 where
  pub size : length out.0 ≡ length cmd
  pub valid : NextIsValid out.1

dispatch_found :
    (buf cmd : List ℕ) (v : Vfs) (p : List ℕ × Option (List ℕ)) (found : Option CmdFn)
    → max_file_size < length buf
    → IsValid v
    → Parsed cmd p
    → Split cmd p
    → Choice (text p.0) cmds found
    → Returns
        (λ next. HandledCommand buf cmd v (p.0, next) × Kept cmd (p.0, next))
        (elim found [
          | some fn ↦ call buf fn p.1 v
          | none ↦ not_found p.0 v >>= λ w. some (stays w)
        ])
dispatch_found buf cmd v p none room h q k c =
    Returns-bind (Printed v (text p.0 ++ text (literal ": not found\n")))
      (λ next. HandledCommand buf cmd v (p.0, next) × Kept cmd (p.0, next)) (not_found p.0 v)
      (λ w. some (stays w)) (not_found_lem p.0 v k.name h)
      (λ w d. (
        unknown w (subst (λ n. Choice n cmds none) q.name c)
            (subst (λ n. Printed v (n ++ text (literal ": not found\n")) w) q.name d) refl,
        record { size = k.size; valid = d.valid },
      ))
dispatch_found buf cmd v p (some fn) room h q k c =
    let (next, e, valid) =
      Returns-elim NextIsValid (call buf fn p.1 v) (call-IsValid buf fn p.1 v room k.args h) in
    Returns-intro (λ next. HandledCommand buf cmd v (p.0, next) × Kept cmd (p.0, next))
      (call buf fn p.1 v) e
      (
        ran fn p.1 (subst (λ n. FirstNamed n cmds fn) q.name c) q.args e,
        record { size = k.size; valid = valid },
      )

dispatch_lem :
    (buf cmd : List ℕ) (v : Vfs) (p : List ℕ × Option (List ℕ))
    → max_file_size < length buf
    → IsValid v
    → Parsed cmd p
    → Split cmd p
    → Returns
        (λ next. HandledCommand buf cmd v (p.0, next) × Kept cmd (p.0, next))
        (dispatch buf p.0 p.1 v)
unfolding dispatch
dispatch_lem buf cmd v p room h q k =
    Returns-bind (Choice (text p.0) cmds)
      (λ next. HandledCommand buf cmd v (p.0, next) × Kept cmd (p.0, next)) (find_command p.0 cmds)
      _ (find_command_lem p.0 cmds k.name cmds-AreStrings)
      (λ found c. dispatch_found buf cmd v p found room h q k c)

pub handle_command_lem :
    (buf cmd : List ℕ) (v : Vfs)
    → max_file_size < length buf
    → IsCString cmd
    → IsValid v
    → Returns (λ out. HandledCommand buf cmd v out × Kept cmd out) (handle_command buf cmd v)
unfolding handle_command
handle_command_lem buf [] v room c h = absurd c
handle_command_lem buf (b ∷ str) v room c h = elim (Bool-cases (b == 0)) [
  | inl e ↦ rw e (empty_line (rw e refl) refl refl, record { size = refl; valid = h })
  | inr e ↦
      let cmd = b ∷ str in
      let (p, at, q) = Returns-elim (Parsed cmd) (parse cmd) (parse_lem cmd c) in
      let (p', at', k') = Returns-elim (Split cmd) (parse cmd) (parse-Split cmd c) in
      let same : p' ≡ p = cc (at, at') in
      let k = subst (Split cmd) same k' in
      rw (e, at)
        (Returns-bind (λ next. HandledCommand buf cmd v (p.0, next) × Kept cmd (p.0, next))
          (λ out. HandledCommand buf cmd v out × Kept cmd out) (dispatch buf p.0 p.1 v)
          (λ next. some (p.0, next)) (dispatch_lem buf cmd v p room h q k) (λ next r. r))
]
