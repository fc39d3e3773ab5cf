-- ===== src/Command/Safety.antt =====
-- The commands keep the file system and the screen valid.
use anaga.Prelude.{
  ℕ, ◌<◌, inl, inr, List, [], ◌∷◌, Option, none, some, String, arith, length, ◌==◌, ◌>>=◌,
  Bool-cases, literal, ℤ, Returns, Returns-bind, Returns-mono,
}
use anaga.CString.Text.{IsCString}
use anaga.Display.{kclean_display}
use anaga.Display.Safety
use anaga.Display.Safety.{kputc-IsValid, kprint-IsValid, put_all-IsValid}
use anaga.Display.Scroll.{Cleaned, kclean_display_lem}
use anaga.Version.{print_kernel_version}
use anaga.File.{max_file_size}
use anaga.Vfs.{Vfs, vfs_ls, vfs_pwd, vfs_cd, vfs_cat, vfs_mkdir, vfs_touch}
use anaga.CString.Text.{IsCString-literal}
use anaga.Vfs.Valid.{IsValid}
use anaga.Vfs.Print.{Printed, ls_text, path_text, vfs_ls_lem, vfs_pwd_lem}
use anaga.Vfs.Cat.{Catted, vfs_cat_lem}
use anaga.Vfs.Mkdir.{MadeDir, vfs_mkdir_lem}
use anaga.Vfs.Create.{Touched, vfs_touch_lem}
use anaga.Vfs.Navigate.{
  Changed, stayed, went_up, went_home, went_down, not_found, no_directory, vfs_cd_lem,
}
use anaga.Command.{
  CmdFn, cmd_help, cmd_ls, cmd_pwd, cmd_cd, cmd_cat, cmd_mkdir, cmd_touch, cmd_echo, cmd_clear,
  cmd_uname, cmd_version, cmd_run, cmd_poweroff, cmd_reboot, cmds, print, put, has_text,
  with_argument, Next, stays, leaves, call_cd, call_echo, call_run, call,
}
use anaga.Command.Printing.{
  with_screen, print-IsValid, put-IsValid, and_then, help-IsValid, cmds-AreStrings, version-IsValid,
}

-- The argument of a command: NULL or a C string.
abbrev pub IsArgument : Option (List ℕ) → Type 0
IsArgument none = Unit
IsArgument (some a) = IsCString a

-- The shell's state, and that of a command that takes over.
abbrev pub NextIsValid : Next → Type 0
NextIsValid (stays v) = IsValid v
NextIsValid (leaves fn a v) = IsValid v

and_stay-IsValid :
    (m : Option Vfs) → Returns (λ w. IsValid w) m → Returns NextIsValid (m >>= λ v. some (stays v))
and_stay-IsValid m h =
    Returns-bind (λ w. IsValid w) NextIsValid m (λ v. some (stays v)) h (λ w k. k)

-- A command that prints its usage when it has no argument.
with_argument-IsValid :
    (f : List ℕ → Vfs → Option (ℤ × Vfs)) (usage : String) (a : Option (List ℕ)) (v : Vfs)
    → ((name : List ℕ) → IsCString name → Returns (λ r. IsValid r.1) (f name v))
    → IsArgument a
    → IsValid v
    → Returns (λ w. IsValid w) (with_argument f usage a v)
unfolding with_argument has_text
with_argument-IsValid f usage none v k c h =
    print-IsValid (literal usage) v (IsCString-literal usage) h
with_argument-IsValid f usage (some []) v k c h = absurd c
with_argument-IsValid f usage (some (b ∷ a)) v k c h = elim (Bool-cases (b == 0)) [
  | inl e ↦ rw e (print-IsValid (literal usage) v (IsCString-literal usage) h)
  | inr e ↦ rw e (
      Returns-bind (λ r. IsValid r.1) (λ w. IsValid w) (f (b ∷ a) v) (λ r. some r.1) (k (b ∷ a) c)
        (λ r q. q))
]

call_echo-IsValid :
    (a : Option (List ℕ)) (v : Vfs)
    → IsArgument a
    → IsValid v
    → Returns (λ w. IsValid w) (call_echo a v)
unfolding call_echo
call_echo-IsValid none v c h = put-IsValid b'\n' v h
call_echo-IsValid (some a) v c h =
    and_then (print a v) (put b'\n') (print-IsValid a v c h) (λ w k. put-IsValid b'\n' w k)

call_run-IsValid :
    (a : Option (List ℕ)) (v : Vfs) → IsArgument a → IsValid v → Returns NextIsValid (call_run a v)
unfolding call_run has_text
call_run-IsValid none v c h =
    and_stay-IsValid _
      (print-IsValid (literal "Usage: run <path>\n") v (IsCString-literal "Usage: run <path>\n") h)
call_run-IsValid (some []) v c h = absurd c
call_run-IsValid (some (b ∷ a)) v c h = elim (Bool-cases (b == 0)) [
  | inl e ↦ rw e (
      and_stay-IsValid _ (
        print-IsValid (literal "Usage: run <path>\n") v (IsCString-literal "Usage: run <path>\n")
          h))
  | inr e ↦ rw e h
]

vfs_ls-IsValid : (v : Vfs) → IsValid v → Returns (λ w. IsValid w) (vfs_ls v)
vfs_ls-IsValid v h =
    let (dir, at, r) = vfs_ls_lem v h in
    Returns-mono (Printed v (ls_text v.inode_array dir)) (λ w. IsValid w) (vfs_ls v) r
      (λ w k. k.valid)

vfs_pwd-IsValid : (v : Vfs) → IsValid v → Returns (λ w. IsValid w) (vfs_pwd v)
vfs_pwd-IsValid v h =
    let (up, to, r) = vfs_pwd_lem v h in
    Returns-mono (Printed v (path_text v.inode_array up)) (λ w. IsValid w) (vfs_pwd v) r
      (λ w k. k.valid)

Changed-IsValid :
    (v : Vfs) (path : List ℕ) (out : ℤ × Vfs) → IsValid v → Changed v path out → IsValid out.1
Changed-IsValid v path _ h (stayed dots root) = h
Changed-IsValid v path _ h (went_up x dots ne at valid) = valid
Changed-IsValid v path _ h (went_home slash valid) = valid
Changed-IsValid v path _ h (went_down d entry dir valid) = valid
Changed-IsValid v path _ h (not_found out absent failed) = failed.valid
Changed-IsValid v path _ h (no_directory out child entry other failed) = failed.valid

MadeDir-IsValid : (v : Vfs) (name : List ℕ) (out : ℤ × Vfs) → MadeDir v name out → IsValid out.1
MadeDir-IsValid v name _ (MadeDir.made idx w m) = m.valid
MadeDir-IsValid v name _ (MadeDir.refused out why failed) = failed.valid

Touched-IsValid : (v : Vfs) (name : List ℕ) (out : ℤ × Vfs) → Touched v name out → IsValid out.1
Touched-IsValid v name _ (Touched.made idx w m) = m.valid
Touched-IsValid v name _ (Touched.refused out why failed) = failed.valid

Catted-IsValid : (v : Vfs) (name : List ℕ) (out : ℤ × Vfs) → Catted v name out → IsValid out.1
Catted-IsValid v name out (Catted.not_found absent failed) = failed.valid
Catted-IsValid v name out (Catted.refused idx x entry at other failed) = failed.valid
Catted-IsValid v name out (Catted.shown idx x entry at file code printed same dir disk valid) =
    valid

cd-IsValid :
    (path : List ℕ) (v : Vfs)
    → IsCString path
    → IsValid v
    → Returns (λ w. IsValid w) (vfs_cd path v >>= λ r. some r.1)
cd-IsValid path v c h =
    Returns-bind (Changed v path) (λ w. IsValid w) (vfs_cd path v) (λ r. some r.1)
      (vfs_cd_lem path v h c) (λ out k. Changed-IsValid v path out h k)

call_cd-IsValid :
    (a : Option (List ℕ)) (v : Vfs)
    → IsArgument a
    → IsValid v
    → Returns (λ w. IsValid w) (call_cd a v)
unfolding call_cd has_text
call_cd-IsValid none v c h = cd-IsValid (literal "/") v (IsCString-literal "/") h
call_cd-IsValid (some []) v c h = absurd c
call_cd-IsValid (some (b ∷ a)) v c h = elim (Bool-cases (b == 0)) [
  | inl e ↦ rw e (cd-IsValid (literal "/") v (IsCString-literal "/") h)
  | inr e ↦ rw e (cd-IsValid (b ∷ a) v c h)
]

-- Every function of the table, at a C string or NULL, returns, and the file system is valid after it.
pub call-IsValid :
    (buf : List ℕ) (fn : CmdFn) (a : Option (List ℕ)) (v : Vfs)
    → max_file_size < length buf
    → IsArgument a
    → IsValid v
    → Returns NextIsValid (call buf fn a v)
unfolding call
call-IsValid buf cmd_help a v room c h = and_stay-IsValid _ (help-IsValid cmds v cmds-AreStrings h)
call-IsValid buf cmd_ls a v room c h = and_stay-IsValid _ (vfs_ls-IsValid v h)
call-IsValid buf cmd_pwd a v room c h =
    and_stay-IsValid _
      (and_then (vfs_pwd v) (put b'\n') (vfs_pwd-IsValid v h) (λ w k. put-IsValid b'\n' w k))
call-IsValid buf cmd_cd a v room c h = and_stay-IsValid _ (call_cd-IsValid a v c h)
call-IsValid buf cmd_cat a v room c h = and_stay-IsValid _ (
    with_argument-IsValid (λ name v. vfs_cat name buf v) "Usage: cat <file>\n" a v
      (λ name k.
        Returns-mono (Catted v name) (λ r. IsValid r.1) (vfs_cat name buf v)
          (vfs_cat_lem name buf v h k room) (Catted-IsValid v name))
      c h)
call-IsValid buf cmd_mkdir a v room c h = and_stay-IsValid _ (
    with_argument-IsValid vfs_mkdir "Usage: mkdir <dir>\n" a v
      (λ name k.
        Returns-mono (MadeDir v name) (λ r. IsValid r.1) (vfs_mkdir name v)
          (vfs_mkdir_lem name v h k) (MadeDir-IsValid v name))
      c h)
call-IsValid buf cmd_touch a v room c h = and_stay-IsValid _ (
    with_argument-IsValid vfs_touch "Usage: touch <file>\n" a v
      (λ name k.
        Returns-mono (Touched v name) (λ r. IsValid r.1) (vfs_touch name v)
          (vfs_touch_lem name v h k) (Touched-IsValid v name))
      c h)
call-IsValid buf cmd_echo a v room c h = and_stay-IsValid _ (call_echo-IsValid a v c h)
call-IsValid buf cmd_clear a v room c h = and_stay-IsValid _ (
    with_screen v (kclean_display v.screen) h (
      Returns-mono Cleaned (λ s. Safety.IsValid s) (kclean_display v.screen)
        (kclean_display_lem v.screen h.screen.size)
        (λ s k. omega (arith, k.size, k.home_x, k.home_y))))
call-IsValid buf cmd_uname a v room c h =
    and_stay-IsValid _
      (print-IsValid (literal "Anaga x86 i686\n") v (IsCString-literal "Anaga x86 i686\n") h)
call-IsValid buf cmd_version a v room c h =
    and_stay-IsValid _
      (with_screen v (print_kernel_version v.screen) h (version-IsValid v.screen h.screen))
call-IsValid buf cmd_run a v room c h = call_run-IsValid a v c h
call-IsValid buf cmd_poweroff a v room c h = h
call-IsValid buf cmd_reboot a v room c h = h
