-- ===== src/Examples/Kernel.antt =====
-- The theorems about the screen, the keyboard, strings, the heap and system calls, at small inputs.
use anaga.Prelude.{
  ◌≤◌, get_elem?, ℕ, ◌≡◌, refl, List, [], ◌∷◌, some, true, false, arith, take, inl, inr, literal,
  Returns,
}
use anaga.CString.{strcmp}
use anaga.CString.Text.{text}
use anaga.CString.Compare.{lex, strcmp_lem}
use anaga.CString.Text.{IsCString-literal}
use anaga.Display.{Screen, kputc, put_all}
use anaga.Display.Safety
use anaga.Display.Safety.{kputc-IsValid}
use anaga.Keyboard.{getchar, key_code, is_press}
use anaga.Input.{Terminal, input_poll}
use anaga.Input.Line.{IsReady}
use anaga.Input.Poll.{Polled, input_poll_lem}
use anaga.Heap.{Block, kheap_init, round_up, kmalloc, kfree}
use anaga.Heap.Layout.{Tiles, Holds, Outcome, IsHeap, kmalloc_lem, kmalloc-wrap}
use anaga.Heap.Free.{Freed, kfree_lem}
use anaga.Syscall.{Regs, resumes, syscall_handler}
use anaga.Syscall.Dispatch.{syscall_handler-write}
use anaga.Examples.State.{blank_screen, blank_screen-IsValid}

kputc_example : Returns Safety.IsValid (kputc b'a' blank_screen)
kputc_example = kputc-IsValid b'a' blank_screen blank_screen-IsValid

strcmp_example :
    strcmp (literal "ab") (literal "ac") ≡ some (lex (text (literal "ab")) (text (literal "ac")))
strcmp_example =
    strcmp_lem (literal "ab") (literal "ac") (IsCString-literal "ab") (IsCString-literal "ac")

abbrev room_for_four : List ℕ
room_for_four = b'a' ∷ 0 ∷ 7 ∷ 7 ∷ []

abbrev prompt : Terminal
prompt = record { shift_state = false; idx = 1; buffer = b'l' ∷ 0 ∷ 0 ∷ []; screen = blank_screen }

prompt-IsReady : IsReady 3 prompt
prompt-IsReady = record {
  screen_valid = blank_screen-IsValid;
  inside = omega arith;
  room = omega arith;
  no_nul = ((λ e. omega arith), tt);
}

poll_s : getchar 0x1f false ≡ some (b's', false)
unfolding getchar key_code is_press
poll_s = refl

input_poll_example : Returns (Polled 3 b's' prompt) (input_poll 3 0x1f prompt)
input_poll_example = input_poll_lem 3 0x1f prompt (b's', false) prompt-IsReady (omega arith) poll_s

no_blocks-IsHeap : IsHeap []
unfolding IsHeap
no_blocks-IsHeap = inl refl

kmalloc_example :
    IsHeap (kmalloc 5 []).1 × (5 ≤ round_up 5) × Outcome (round_up 5) (kheap_init []) (kmalloc 5 [])
kmalloc_example = kmalloc_lem 5 [] no_blocks-IsHeap (λ e. omega arith) (omega arith)

-- Two blocks in use and the rest of the heap.
abbrev two_blocks : List Block
two_blocks =
    record { addr = 0x100000; size = 8; free = false }
    ∷ record { addr = 0x100014; size = 16; free = false }
    ∷ record { addr = 0x100030; size = 0x3fffc4; free = true }
    ∷ []

two_blocks-IsHeap : IsHeap two_blocks
unfolding IsHeap Tiles
two_blocks-IsHeap = inr (refl, (refl, (refl, refl)))

second_held : Holds 0x100020 16 two_blocks
unfolding Holds
second_held = inr (inl (refl, refl, omega arith))

kfree_example : Returns (Freed 0x100020 16 two_blocks) (kfree 0x100020 two_blocks)
kfree_example = kfree_lem 0x100020 16 two_blocks two_blocks-IsHeap second_held

abbrev pub regs : ℕ → Regs
regs n = record {
  gs = 0;
  fs = 0;
  es = 0;
  ds = 0;
  edi = 0;
  esi = 0;
  ebp = 0;
  esp = 0;
  ebx = 1;
  edx = 2;
  ecx = 0;
  eax = n;
  int_no = 0x80;
  err_code = 0;
  eip = 0;
  cs = 0x1b;
  eflags = 0;
  useresp = 0;
  ss = 0x23;
}

abbrev pub memory : ℕ → List ℕ
memory n = literal "hello"

syscall_handler-write_example :
    (s' : Screen) × (put_all (take 2 (text (memory 0))) blank_screen ≡ some s')
    × Safety.IsValid s'
    × (syscall_handler memory (regs 2) blank_screen
        ≡ some (resumes (record (regs 2) { eax = 2 }) s'))
syscall_handler-write_example =
    syscall_handler-write memory (regs 2) blank_screen refl refl (omega arith)
      (IsCString-literal "hello") blank_screen-IsValid

kmalloc-wrap_example :
    ((kmalloc 0xffffffff []).0 ≡ 0x10000c)
    × (get_elem? (kmalloc 0xffffffff []).1 0
        ≡ some (record { addr = 0x100000; size = 0; free = false }))
kmalloc-wrap_example = kmalloc-wrap 0xffffffff (omega arith) (omega arith)
