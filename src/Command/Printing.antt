-- ===== src/Command/Printing.antt =====
-- The commands that only print keep the file system and the screen valid.
use anaga.Prelude.{
  ℕ, zero, suc, ◌-◌, ◌^◌, ◌<◌, List, [], ◌∷◌, ◌++◌, Option, some, arith, length, ◌>>=◌, literal,
  Returns, Returns-bind, pos,
}
use anaga.CString.Text.{IsCString, text, strlen_lem}
use anaga.Display.{Screen, kputc, kprint, kprint_num}
use anaga.Display.Safety
use anaga.Display.Safety.{kputc-IsValid, kprint-IsValid, put_all-IsValid}
use anaga.Display.Numbers.{kprint_num_lem, sign}
use anaga.Version.{print_kernel_version}
use anaga.Vfs.{Vfs}
use anaga.CString.Text.{IsCString-literal}
use anaga.Vfs.Valid.{IsValid}
use anaga.Command.{Cmd, cmds, print, put, pad_with, help}

-- A file system with another screen.
pub with_screen :
    (v : Vfs) (m : Option Screen)
    → IsValid v
    → Returns (λ s. Safety.IsValid s) m
    → Returns (λ w. IsValid w) (m >>= λ s. some (record v { screen = s }))
with_screen v m h k =
    Returns-bind (λ s. Safety.IsValid s) (λ w. IsValid w) m (λ s. some (record v { screen = s })) k
      (λ s valid. record {
        inodes = h.inodes;
        tree = h.tree;
        here = h.here;
        descriptors = h.descriptors;
        closed = h.closed;
        screen = valid;
      })

pub print-IsValid :
    (str : List ℕ) (v : Vfs) → IsCString str → IsValid v → Returns (λ w. IsValid w) (print str v)
unfolding print
print-IsValid str v c h =
    with_screen v (kprint (some str) v.screen) h (kprint-IsValid str v.screen c h.screen)

pub put-IsValid : (c : ℕ) (v : Vfs) → IsValid v → Returns (λ w. IsValid w) (put c v)
unfolding put
put-IsValid c v h = with_screen v (kputc c v.screen) h (kputc-IsValid c v.screen h.screen)

-- Two steps that keep it.
pub and_then :
    (m : Option Vfs) (f : Vfs → Option Vfs)
    → Returns (λ w. IsValid w) m
    → ((w : Vfs) → IsValid w → Returns (λ u. IsValid u) (f w))
    → Returns (λ u. IsValid u) (m >>= f)
and_then m f = Returns-bind (λ w. IsValid w) (λ u. IsValid u) m f

pad_with-IsValid : (pad : ℕ) (v : Vfs) → IsValid v → Returns (λ w. IsValid w) (pad_with pad v)
unfolding pad_with
pad_with-IsValid zero v h = h
pad_with-IsValid (suc pad) v h =
    and_then (put b' ' v) (pad_with pad) (put-IsValid b' ' v h) (pad_with-IsValid pad)

-- The texts of a table are C strings.
unfoldable pub AreStrings : List Cmd → Type 0
AreStrings [] = Unit
AreStrings (c ∷ table) = IsCString c.name × IsCString c.desc × AreStrings table

pub help-IsValid :
    (table : List Cmd) (v : Vfs)
    → AreStrings table
    → IsValid v
    → Returns (λ w. IsValid w) (help table v)
unfolding help AreStrings
help-IsValid [] v k h = h
help-IsValid (c ∷ table) v (name, desc, rest) h =
    Returns-bind (λ w. IsValid w) (λ u. IsValid u) (print (literal "  ") v >>= print c.name) _
      (and_then (print (literal "  ") v) (print c.name)
        (print-IsValid (literal "  ") v (IsCString-literal "  ") h)
        (λ w k. print-IsValid c.name w name k))
      (λ w k.
        let padded = pad_with (10 - length (text c.name)) w in
        let dash = padded >>= print (literal "- ") in
        let described = dash >>= print c.desc in
        rw (strlen_lem c.name name) (
          and_then (described >>= put b'\n') (help table)
            (and_then described (put b'\n')
              (and_then dash (print c.desc)
                (and_then padded (print (literal "- "))
                  (pad_with-IsValid (10 - length (text c.name)) w k)
                  (λ u q. print-IsValid (literal "- ") u (IsCString-literal "- ") q))
                (λ u q. print-IsValid c.desc u desc q))
              (λ u q. put-IsValid b'\n' u q))
            (λ u q. help-IsValid table u rest q)))

pub cmds-AreStrings : AreStrings cmds
unfolding AreStrings cmds
cmds-AreStrings =
    let s = IsCString-literal in
    (
      s "help",
      s "Show help",
      (
        s "ls",
        s "List files",
        (
          s "pwd",
          s "Print directory",
          (
            s "cd",
            s "Change directory",
            (
              s "cat",
              s "Show file",
              (
                s "mkdir",
                s "Create directory",
                (
                  s "touch",
                  s "Create file",
                  (
                    s "echo",
                    s "Echo text",
                    (
                      s "clear",
                      s "Clear screen",
                      (
                        s "uname",
                        s "System info",
                        (
                          s "version",
                          s "Show version",
                          (
                            s "run",
                            s "Run ELF binary",
                            (s "poweroff", s "Shutdown", (s "reboot", s "Reboot", tt)),
                          ),
                        ),
                      ),
                    ),
                  ),
                ),
              ),
            ),
          ),
        ),
      ),
    )

num-IsValid :
    (n : ℕ) (s : Screen)
    → n < 2 ^ 32
    → Safety.IsValid s
    → Returns (λ t. Safety.IsValid t) (kprint_num (pos n) s)
num-IsValid n s small h =
    let (digits, e, _) = kprint_num_lem (pos n) s small in
    rw e (put_all-IsValid (sign (pos n) ++ digits) s h)

pub version-IsValid :
    (s : Screen) → Safety.IsValid s → Returns (λ t. Safety.IsValid t) (print_kernel_version s)
unfolding print_kernel_version
version-IsValid s h =
    let V = λ (t : Screen). Safety.IsValid t in
    Returns-bind V V (kprint (some (literal "Anaga Kernel v")) s) _
      (kprint-IsValid (literal "Anaga Kernel v") s (IsCString-literal "Anaga Kernel v") h)
      λ s1 h1.
        Returns-bind V V (kprint_num (pos 0) s1) _ (num-IsValid 0 s1 (omega arith) h1) λ s2 h2.
          Returns-bind V V (kputc b'.' s2) _ (kputc-IsValid b'.' s2 h2) λ s3 h3.
            Returns-bind V V (kprint_num (pos 0) s3) _ (num-IsValid 0 s3 (omega arith) h3) λ s4 h4.
              Returns-bind V V (kputc b'.' s4) _ (kputc-IsValid b'.' s4 h4) λ s5 h5.
                Returns-bind V V (kprint_num (pos 0) s5) _ (num-IsValid 0 s5 (omega arith) h5)
                  λ s6 h6. Returns-bind V V (kputc b'.' s6) _ (kputc-IsValid b'.' s6 h6) λ s7 h7.
                    Returns-bind V V (kprint_num (pos 1) s7) _ (num-IsValid 1 s7 (omega arith) h7)
                      λ s8 h8. kputc-IsValid b'\n' s8 h8
