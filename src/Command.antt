-- ===== src/Command.antt =====
-- drivers/command/command.c: the command line and its dispatch.
pub mod Parse
pub mod Printing
pub mod Safety
pub mod Dispatch
pub mod Run
use anaga.Prelude.{
  ℕ, zero, suc, ◌-◌, List, [], ◌∷◌, Option, none, some, Bool, true, false, String, ◌==◌,
  if◌then◌else◌, ◌>>=◌, literal, ℤ,
}
use anaga.CString.{strcmp, strlen, is_equal}
use anaga.Display.{kputc, kprint, kclean_display}
use anaga.Version.{print_kernel_version}
use anaga.Vfs.{Vfs, vfs_ls, vfs_pwd, vfs_cd, vfs_cat, vfs_mkdir, vfs_touch}

-- The functions of the table.
pub data CmdFn : Type 0 where
  cmd_help : CmdFn
  cmd_ls : CmdFn
  cmd_pwd : CmdFn
  cmd_cd : CmdFn
  cmd_cat : CmdFn
  cmd_mkdir : CmdFn
  cmd_touch : CmdFn
  cmd_echo : CmdFn
  cmd_clear : CmdFn
  cmd_uname : CmdFn
  cmd_version : CmdFn
  cmd_run : CmdFn
  cmd_poweroff : CmdFn
  cmd_reboot : CmdFn

pub record Cmd : Type 0 where
  pub name : List ℕ
  pub fn : CmdFn
  pub desc : List ℕ

cmd : String → CmdFn → String → Cmd
cmd name fn desc = record { name = literal name; fn = fn; desc = literal desc }

unfoldable pub cmds : List Cmd
unfolding cmd
cmds =
    cmd "help" cmd_help "Show help"
    ∷ cmd "ls" cmd_ls "List files"
    ∷ cmd "pwd" cmd_pwd "Print directory"
    ∷ cmd "cd" cmd_cd "Change directory"
    ∷ cmd "cat" cmd_cat "Show file"
    ∷ cmd "mkdir" cmd_mkdir "Create directory"
    ∷ cmd "touch" cmd_touch "Create file"
    ∷ cmd "echo" cmd_echo "Echo text"
    ∷ cmd "clear" cmd_clear "Clear screen"
    ∷ cmd "uname" cmd_uname "System info"
    ∷ cmd "version" cmd_version "Show version"
    ∷ cmd "run" cmd_run "Run ELF binary"
    ∷ cmd "poweroff" cmd_poweroff "Shutdown"
    ∷ cmd "reboot" cmd_reboot "Reboot"
    ∷ []

-- `kprint` and `kputc` on the screen of the file system's state
unfoldable pub print : List ℕ → Vfs → Option Vfs
print str v = kprint (some str) v.screen >>= λ s. some (record v { screen = s })

unfoldable pub put : ℕ → Vfs → Option Vfs
put c v = kputc c v.screen >>= λ s. some (record v { screen = s })

-- `while (pad-- > 0) kputc(' ');`
unfoldable pub pad_with : ℕ → Vfs → Option Vfs
pad_with zero v = some v
pad_with (suc pad) v = put b' ' v >>= pad_with pad

unfoldable pub help : List Cmd → Vfs → Option Vfs
unfolding print put
help [] v = some v
help (c ∷ table) v = print (literal "  ") v >>= print c.name >>= λ named. strlen c.name >>= λ n.
    pad_with (10 - n) named >>= print (literal "- ") >>= print c.desc >>= put b'\n' >>= help table

-- `a && *a`
unfoldable pub has_text : Option (List ℕ) → Option Bool
has_text none = some false
has_text (some []) = none
has_text (some (c ∷ a)) = some (if c == 0 then false else true)

-- `if (a && *a) f(a); else kprint(usage);`
unfoldable pub with_argument :
    (List ℕ → Vfs → Option (ℤ × Vfs)) → String → Option (List ℕ) → Vfs → Option Vfs
with_argument f usage a v = has_text a >>= λ given. elim a [
  | none ↦ print (literal usage) v
  | some str ↦ if given then (f str v >>= λ r. some r.1) else print (literal usage) v
]

-- What a command comes to: the shell goes on, or another part of the kernel takes over, which is
-- so for `run`, `poweroff` and `reboot`.
pub data Next : Type 0 where
  stays : Vfs → Next
  leaves : CmdFn → Option (List ℕ) → Vfs → Next

-- `vfs_cd(a && *a ? a : "/")`
unfoldable pub call_cd : Option (List ℕ) → Vfs → Option Vfs
unfolding has_text
call_cd none v = vfs_cd (literal "/") v >>= λ r. some r.1
call_cd (some a) v =
    has_text (some a) >>= λ given. vfs_cd (if given then a else literal "/") v >>= λ r. some r.1

-- `if (a) kprint(a); kputc('\n');`
unfoldable pub call_echo : Option (List ℕ) → Vfs → Option Vfs
unfolding print put
call_echo none v = put b'\n' v
call_echo (some str) v = print str v >>= put b'\n'

-- `if (!a || !*a) { kprint("Usage: run <path>\n"); return; }`
unfoldable pub call_run : Option (List ℕ) → Vfs → Option Next
unfolding has_text print
call_run a v = has_text a >>= λ given.
    if given
    then some (leaves cmd_run a v)
    else print (literal "Usage: run <path>\n") v >>= λ w. some (stays w)

abbrev and_stay : Option Vfs → Option Next
and_stay m = m >>= λ v. some (stays v)

-- A function of the table; `buf` is what the local buffer of `vfs_cat` holds before the call.
unfoldable pub call : List ℕ → CmdFn → Option (List ℕ) → Vfs → Option Next
unfolding print put
call buf cmd_help a v = and_stay (help cmds v)
call buf cmd_ls a v = and_stay (vfs_ls v)
call buf cmd_pwd a v = and_stay (vfs_pwd v >>= put b'\n')
call buf cmd_cd a v = and_stay (call_cd a v)
call buf cmd_cat a v =
    and_stay (with_argument (λ name v. vfs_cat name buf v) "Usage: cat <file>\n" a v)
call buf cmd_mkdir a v = and_stay (with_argument vfs_mkdir "Usage: mkdir <dir>\n" a v)
call buf cmd_touch a v = and_stay (with_argument vfs_touch "Usage: touch <file>\n" a v)
call buf cmd_echo a v = and_stay (call_echo a v)
call buf cmd_clear a v = and_stay (kclean_display v.screen >>= λ s. some (record v { screen = s }))
call buf cmd_uname a v = and_stay (print (literal "Anaga x86 i686\n") v)
call buf cmd_version a v =
    and_stay (print_kernel_version v.screen >>= λ s. some (record v { screen = s }))
call buf cmd_run a v = call_run a v
call buf cmd_poweroff a v = some (leaves cmd_poweroff a v)
call buf cmd_reboot a v = some (leaves cmd_reboot a v)

-- `while (*s == ' ') s++; if (*s) *args = s;`
unfoldable pub skip_spaces : List ℕ → Option (Option (List ℕ))
skip_spaces [] = none
skip_spaces (c ∷ s) =
    let after = skip_spaces s in
    if c == b' ' then after else if c == 0 then some none else some (some (c ∷ s))

-- The string after the call, which `*name` points at, and `*args`, `none` for NULL.
unfoldable pub parse : List ℕ → Option (List ℕ × Option (List ℕ))
parse [] = none
parse (c ∷ s) =
    let after = parse s >>= λ r. some (c ∷ r.0, r.1) in
    let split = skip_spaces s >>= λ args. some (0 ∷ s, args) in
    if c == 0 then some (c ∷ s, none) else if c == b' ' then split else after

-- The loop of `handle_command`: the first command of that name.
unfoldable pub find_command : List ℕ → List Cmd → Option (Option CmdFn)
find_command name [] = some none
find_command name (c ∷ table) =
    let later = find_command name table in
    strcmp name c.name >>= λ d. if is_equal d then some (some c.fn) else later

-- A name that is not in the table
unfoldable pub not_found : List ℕ → Vfs → Option Vfs
unfolding print
not_found name v = print name v >>= print (literal ": not found\n")

-- What `handle_command` does with the name and the argument.
unfoldable pub dispatch : List ℕ → List ℕ → Option (List ℕ) → Vfs → Option Next
unfolding not_found
dispatch buf name args v = find_command name cmds >>= λ found. elim found [
  | some fn ↦ call buf fn args v
  | none ↦ not_found name v >>= λ w. some (stays w)
]

-- The caller's array as `parse` leaves it, and what the command comes to.
unfoldable pub handle_command : List ℕ → List ℕ → Vfs → Option (List ℕ × Next)
unfolding dispatch
handle_command buf [] v = none
handle_command buf (c ∷ str) v =
    if c == 0
    then some (c ∷ str, stays v)
    else parse (c ∷ str) >>= λ p. dispatch buf p.0 p.1 v >>= λ next. some (p.0, next)
