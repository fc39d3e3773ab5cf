-- ===== src/Kernel/Loop.antt =====
-- A round of the loop of `kmain`.
use anaga.Prelude.{
  ℕ, suc, ◌≤◌, ◌<◌, ◌≡◌, ◌≢◌, refl, ap, inl, inr, List, [], ◌∷◌, some, arith, length, length-take,
  ◌==◌, if◌then◌else◌, ◌>>=◌, Bool, Bool-cases, literal, Returns, Returns-bind, Returns-elim,
  Returns-intro,
}
use anaga.CString.Text.{IsCString, text}
use anaga.Display.{kprint}
use anaga.Display.Safety
use anaga.Display.Safety.{kprint-IsValid}
use anaga.File.{max_file_size}
use anaga.Keyboard.{getchar}
use anaga.Input.{Terminal, input_prompt, input_poll}
use anaga.Input.Line.{line, edit, IsReady}
use anaga.Input.Poll.{Polled, line_key, Polled-start, getchar-Returns, input_poll_lem}
use anaga.CString.Text.{IsCString-literal}
use anaga.Vfs.Valid.{IsValid, SameFiles}
use anaga.Command.{Next, stays, leaves, handle_command}
use anaga.Command.Safety.{NextIsValid}
use anaga.Command.Dispatch.{HandledCommand, Kept, handle_command_lem}
use anaga.Kernel.{
  max_command_len, Shell, terminal, with_terminal, Status, running, left, prompt_again, step,
}

-- Between two keys: the file system and the screen are valid, the index stands inside the array, and
-- no NUL stands before it.
pub record IsShell (s : Shell) : Type 0 where
  pub files : IsValid s.vfs
  pub ready : IsReady max_command_len (terminal s)

abbrev pub StatusIsValid : Status → Type 0
StatusIsValid (running s) = IsShell s
StatusIsValid (left fn a v) = IsValid v

-- An array that is longer than its text holds a NUL.
IsCString-of-lt : (s : List ℕ) → length (text s) < length s → IsCString s
IsCString-of-lt [] h = absurd (omega arith)
IsCString-of-lt (c ∷ s) h = elim (Bool-cases (c == 0)) [
  | inl e ↦ inl (ground arith)
  | inr e ↦
      let q : suc (length (text s)) < suc (length s) = rw e at h in
      inr (IsCString-of-lt s (omega arith))
]

with_terminal-IsValid :
    (s : Shell) (t : Terminal)
    → IsValid s.vfs
    → Safety.IsValid t.screen
    → IsValid (with_terminal s t).vfs
with_terminal-IsValid s t h k = record {
  inodes = h.inodes;
  tree = h.tree;
  here = h.here;
  descriptors = h.descriptors;
  closed = h.closed;
  screen = k;
}

prompt_again-IsValid :
    (s : Shell) (cmd : List ℕ) (next : Next)
    → IsShell s
    → s.idx ≡ 0
    → max_command_len ≤ length cmd
    → NextIsValid next
    → Returns StatusIsValid (prompt_again s cmd next)
unfolding prompt_again input_prompt
prompt_again-IsValid s cmd (leaves fn a v) h z room k = k
prompt_again-IsValid s cmd (stays v) h z room k =
    Returns-bind (λ screen. Safety.IsValid screen) StatusIsValid
      (kprint (some (literal "> ")) v.screen) _
      (kprint-IsValid (literal "> ") v.screen (IsCString-literal "> ") k.screen)
      (λ screen valid. record {
        files = record {
          inodes = k.inodes;
          tree = k.tree;
          here = k.here;
          descriptors = k.descriptors;
          closed = k.closed;
          screen = valid;
        };
        ready = record {
          screen_valid = valid;
          inside = h.ready.inside;
          room = room;
          no_nul = rw z tt;
        };
      })

-- What one key does: it edits the line, or it closes the line, which is handled as a command.
pub data Stepped (buf : List ℕ) (s : Shell) (c : ℕ) (st : Status) : Type 0 where
  typed :
      (s' : Shell)
      → line_key c ≢ b'\n'
      → st ≡ running s'
      → line (terminal s') ≡ (
          if c == 0
          then line (terminal s)
          else edit max_command_len (line_key c) (line (terminal s)))
      → SameFiles s.vfs s'.vfs
      → Stepped buf s c st
  entered :
      (s' : Shell) (out : List ℕ × Next)
      → line_key c ≡ b'\n'
      → text s'.cmd ≡ line (terminal s)
      → s'.idx ≡ 0
      → SameFiles s.vfs s'.vfs
      → HandledCommand buf s'.cmd s'.vfs out
      → prompt_again s' out.0 out.1 ≡ some st
      → Stepped buf s c st

pub record StepResult (buf : List ℕ) (s : Shell) (c : ℕ) (st : Status) : Type 0 where
  pub stepped : Stepped buf s c st
  pub valid : StatusIsValid st

with_terminal-SameFiles : (s : Shell) (t : Terminal) → SameFiles s.vfs (with_terminal s t).vfs
with_terminal-SameFiles s t = record { current_dir = refl; inode_array = refl; fd_table = refl }

entered_line :
    (buf : List ℕ) (s : Shell) (c : ℕ) (r : ℕ × Terminal)
    → max_file_size < length buf
    → IsShell s
    → Polled max_command_len c (terminal s) r
    → line_key c ≡ b'\n'
    → Returns (StepResult buf s c) (
        handle_command buf r.1.buffer (with_terminal s r.1).vfs >>= λ (cmd, next).
        prompt_again (with_terminal s r.1) cmd next)
entered_line buf s c r room h p enter =
    let s' = with_terminal s r.1 in
    let files = with_terminal-IsValid s r.1 h.files p.ready.screen_valid in
    let whole : text r.1.buffer ≡ line (terminal s) = p.closed enter in
    let short : length (line (terminal s)) ≡ s.idx =
      length-take s.idx s.cmd (omega (arith, h.ready.inside, h.ready.room)) in
    let closed : IsCString r.1.buffer =
      IsCString-of-lt r.1.buffer
        (omega (arith, ap length whole, short, h.ready.inside, p.ready.room)) in
    let start = Polled-start max_command_len c (terminal s) r p enter in
    Returns-bind (λ out. HandledCommand buf r.1.buffer s'.vfs out × Kept r.1.buffer out)
      (StepResult buf s c) (handle_command buf r.1.buffer s'.vfs) _
      (handle_command_lem buf r.1.buffer s'.vfs room closed files)
      (λ out k.
        let ready : IsShell s' = record { files = files; ready = p.ready } in
        let (st, e, valid) = Returns-elim StatusIsValid (prompt_again s' out.0 out.1) (
          prompt_again-IsValid s' out.0 out.1 ready start (omega (arith, k.1.size, p.ready.room))
            k.1.valid) in
        Returns-intro (StepResult buf s c) (prompt_again s' out.0 out.1) e (record {
          stepped = entered s' out enter whole start (with_terminal-SameFiles s r.1) k.0 e;
          valid = valid;
        }))

step_body :
    (buf : List ℕ) (s : Shell) (c : ℕ) (r : ℕ × Terminal)
    → max_file_size < length buf
    → IsShell s
    → Polled max_command_len c (terminal s) r
    → Returns (StepResult buf s c) (
        if r.0 == 0
        then some (running (with_terminal s r.1))
        else handle_command buf r.1.buffer (with_terminal s r.1).vfs >>= λ (cmd, next).
            prompt_again (with_terminal s r.1) cmd next)
step_body buf s c r room h p = elim (Bool-cases (line_key c == b'\n')) [
  | inl e ↦
      let done : r.0 ≡ 1 = rw e at p.result in
      rw done (entered_line buf s c r room h p (ground arith))
  | inr e ↦
      let more : r.0 ≡ 0 = rw e at p.result in
      rw more (record {
        stepped =
            typed (with_terminal s r.1) (λ k. ground arith) refl p.edited
              (with_terminal-SameFiles s r.1);
        valid = record {
          files = with_terminal-IsValid s r.1 h.files p.ready.screen_valid;
          ready = p.ready;
        };
      })
]

-- One round of the loop at any scancode, in a valid state: it returns, and the state is valid after
-- it. With `c` the character of the scancode: where that is no new line, the line is edited and the
-- files stay as they are; at a new line the text of the line is handled as a command, and the loop
-- goes on with an empty line and a prompt, or the command hands over to another part of the kernel.
pub step_lem :
    (buf : List ℕ) (scancode : ℕ) (s : Shell)
    → max_file_size < length buf
    → IsShell s
    → (key : ℕ × Bool) × (getchar scancode s.shift_state ≡ some key)
      × Returns (StepResult buf s key.0) (step buf scancode s)
unfolding step
step_lem buf scancode s room h =
    let (key, e, _) =
      Returns-elim (λ key. Unit {0}) (getchar scancode s.shift_state)
        (getchar-Returns scancode s.shift_state) in
    (
      key,
      e,
      Returns-bind (Polled max_command_len key.0 (terminal s)) (StepResult buf s key.0)
          (input_poll max_command_len scancode (terminal s)) _
          (input_poll_lem max_command_len scancode (terminal s) key h.ready (omega arith) e)
          (λ r p. step_body buf s key.0 r room h p),
    )
