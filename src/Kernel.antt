-- ===== src/Kernel.antt =====
-- kernel/main.c: the start of the kernel, and the loop of `kmain`, the shell.
pub mod Loop
pub mod Boot
use anaga.Prelude.{
  ℕ, zero, suc, List, [], ◌∷◌, Option, none, some, Bool, false, ◌==◌, if◌then◌else◌, ◌>>=◌, literal,
}
use anaga.Display.{Screen, kprint, kclean_display}
use anaga.Version.{print_kernel_version}
use anaga.Input.{Terminal, input_prompt, input_poll}
use anaga.Vfs.{Vfs, vfs_init}
use anaga.Ports.{Ports}
use anaga.Paging.{Paging, paging_init}
use anaga.Tss.{tss_init}
use anaga.Interrupts.{IdtEntry, IdtPtr, EntryPoints, idt_init}
use anaga.System.{system_init_timer}
use anaga.Pci.{Locals, pci_scan}
use anaga.Drive.{drive_init}
use anaga.Command.{CmdFn, Next, stays, leaves, handle_command}

abbrev pub max_command_len : ℕ
max_command_len = 128

-- The state that the loop works on: that of the keyboard and of `input_poll`, the local array `cmd`,
-- and the file system with the screen.
pub record Shell : Type 0 where
  pub shift_state : Bool
  pub idx : ℕ
  pub cmd : List ℕ
  pub vfs : Vfs

-- What `kmain` prints once `kinit` is done.
unfoldable pub greet : Screen → Option Screen
greet s =
    print_kernel_version s
    >>= kprint (some (literal "Syscalls ready (int 0x80)\n"))
    >>= input_prompt

-- The part of the state that `input_poll` works on, and the state with that part changed.
abbrev pub terminal : Shell → Terminal
terminal s = record {
  shift_state = s.shift_state;
  idx = s.idx;
  buffer = s.cmd;
  screen = s.vfs.screen;
}

abbrev pub with_terminal : Shell → Terminal → Shell
with_terminal s t = record {
  shift_state = t.shift_state;
  idx = t.idx;
  cmd = t.buffer;
  vfs = record (s.vfs) { screen = t.screen };
}

-- The loop goes on, or a command has handed over to another part of the kernel.
pub data Status : Type 0 where
  running : Shell → Status
  left : CmdFn → Option (List ℕ) → Vfs → Status

-- `input_prompt()` behind a command
unfoldable pub prompt_again : Shell → List ℕ → Next → Option Status
prompt_again s cmd (stays v) = input_prompt v.screen >>= λ screen.
    some (running (record s { cmd = cmd; vfs = record v { screen = screen } }))
prompt_again s cmd (leaves fn a v) = some (left fn a v)

-- The body of the loop, at the scancode that the keyboard gives; `buf` is what the local buffer of
-- `vfs_cat` holds.
unfoldable pub step : List ℕ → ℕ → Shell → Option Status
unfolding prompt_again
step buf scancode s = input_poll max_command_len scancode (terminal s) >>= λ (done, t).
    let s' = with_terminal s t in
    if done == 0
    then some (running s')
    else handle_command buf s'.cmd s'.vfs >>= λ (cmd, next). prompt_again s' cmd next

-- What the linker and the stack give: the addresses of objects, the entry points of isr.asm, and what
-- the local objects of `pci_handle_network` hold.
pub record Layout : Type 0 where
  pub first_page_table : ℕ
  pub idt : ℕ
  pub stack_top : ℕ
  pub entry_points : EntryPoints
  pub locals : Locals

-- The static objects, the devices and the text buffer; `vfs` has the last.
pub record Machine (p : Ports) : Type 0 where
  pub device : p.Device
  pub paging : Paging
  pub idt_ptr : IdtPtr
  pub idt : List IdtEntry
  pub tss : List ℕ
  pub timer_ticks : ℕ
  pub vfs : Vfs

module _ (p : Ports) where
  -- `syscall_init` does nothing, and `tss_flush` is assembly.
  unfoldable pub kinit : Layout → Machine p → Option (Machine p)
  kinit l m = paging_init l.first_page_table m.paging >>= λ paging.
      idt_init p l.entry_points l.idt m.idt m.device >>= λ (idt_ptr, idt, device).
      tss_init l.stack_top m.tss >>= λ tss.
      let (device, timer_ticks) = system_init_timer p device in
      pci_scan p l.locals device m.vfs.screen >>= λ (device, screen).
      drive_init p device screen >>= λ (device, screen).
      vfs_init (record (m.vfs) { screen = screen }) >>= λ vfs. some (record {
        device = device;
        paging = paging;
        idt_ptr = idt_ptr;
        idt = idt;
        tss = tss;
        timer_ticks = timer_ticks;
        vfs = vfs;
      })

  -- `kmain` up to its loop, where `cmd` is what the local array holds.
  unfoldable pub kmain_start : Layout → List ℕ → Machine p → Option (Machine p × Shell)
  kmain_start l cmd m = kclean_display m.vfs.screen >>= λ screen.
      kinit l (record m { vfs = record (m.vfs) { screen = screen } }) >>= λ m.
      greet m.vfs.screen >>= λ screen.
      let vfs = record (m.vfs) { screen = screen } in
      some (record m { vfs = vfs }, record { shift_state = false; idx = 0; cmd = cmd; vfs = vfs })
