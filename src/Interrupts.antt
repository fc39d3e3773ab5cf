-- ===== src/Interrupts.antt =====
-- interrupts/idt.h and interrupts/idt.c: the interrupt descriptor table and the interrupt controllers.
pub mod Gates
use Prim.Native.Nat.{bit_and, bit_or}
use anaga.Prelude.{ℕ, zero, suc, ◌+◌, ◌-◌, ◌*◌, ◌/◌, ◌^◌, List, Option, some, ◌>>=◌, store}
use anaga.Ports.{Ports}

abbrev pub idt_entries : ℕ
idt_entries = 256

abbrev pub idt_flag_present : ℕ
idt_flag_present = 0x80

abbrev pub idt_flag_dpl0 : ℕ
idt_flag_dpl0 = 0x00

abbrev pub idt_flag_dpl3 : ℕ
idt_flag_dpl3 = 0x60

abbrev pub idt_flag_gate_32 : ℕ
idt_flag_gate_32 = 0x0E

abbrev pub int_timer : ℕ
int_timer = 32

abbrev pub int_syscall : ℕ
int_syscall = 0x80

-- `idt_entry_t`
pub record IdtEntry : Type 0 where
  pub base_low : ℕ
  pub selector : ℕ
  pub zero : ℕ
  pub flags : ℕ
  pub base_high : ℕ

unfoldable pub idt_set_gate : ℕ → ℕ → ℕ → ℕ → List IdtEntry → Option (List IdtEntry)
idt_set_gate num base selector flags idt = store idt num (record {
  base_low = bit_and base 0xFFFF;
  selector = selector;
  zero = 0;
  flags = bit_or flags idt_flag_present;
  base_high = bit_and (base / 2 ^ 16) 0xFFFF;
})

abbrev pub pic1_cmd : ℕ
pic1_cmd = 0x20

abbrev pub pic1_data : ℕ
pic1_data = 0x21

abbrev pub pic2_cmd : ℕ
pic2_cmd = 0xA0

abbrev pub pic2_data : ℕ
pic2_data = 0xA1

abbrev no_entry : IdtEntry
no_entry = record { base_low = 0; selector = 0; zero = 0; flags = 0; base_high = 0 }

-- The loop that clears the entries, `n` rounds from entry `i` on.
unfoldable pub clear_entries : ℕ → ℕ → List IdtEntry → Option (List IdtEntry)
clear_entries zero i idt = some idt
clear_entries (suc n) i idt = store idt i no_entry >>= clear_entries n (i + 1)

-- The gates of the exceptions, 32 of them from number 0 on: the code has a call for each.
unfoldable pub set_exceptions : (ℕ → ℕ) → ℕ → ℕ → List IdtEntry → Option (List IdtEntry)
set_exceptions isr zero i idt = some idt
set_exceptions isr (suc n) i idt =
    idt_set_gate i (isr i) 0x08 (bit_or idt_flag_gate_32 idt_flag_dpl0) idt
    >>= set_exceptions isr n (i + 1)

-- The addresses of the entry points that interrupts/isr.asm defines.
pub record EntryPoints : Type 0 where
  pub isr : ℕ → ℕ
  pub isr_timer : ℕ
  pub isr_syscall : ℕ

-- `idt_ptr_t`
pub record IdtPtr : Type 0 where
  pub limit : ℕ
  pub base : ℕ

module _ (p : Ports) where
  open p use {Device, outb}

  unfoldable pub pic_remap : Device → Device
  pic_remap d =
      let d = outb pic1_cmd 0x11 d in
      let d = outb pic2_cmd 0x11 d in
      let d = outb pic1_data 0x20 d in
      let d = outb pic2_data 0x28 d in
      let d = outb pic1_data 0x04 d in
      let d = outb pic2_data 0x02 d in
      let d = outb pic1_data 0x01 d in
      let d = outb pic2_data 0x01 d in let d = outb pic1_data 0xFE d in outb pic2_data 0xFF d

  -- `idt_init`, where `address` is that of the table. The result is the pointer that `lidt` loads,
  -- the table and the controllers.
  unfoldable pub idt_init :
      EntryPoints → ℕ → List IdtEntry → Device → Option (IdtPtr × List IdtEntry × Device)
  idt_init e address idt d = do
    idt ← clear_entries idt_entries 0 idt
    let d = pic_remap d
    idt ← set_exceptions e.isr 32 0 idt
    idt ← idt_set_gate int_timer e.isr_timer 0x08 (bit_or idt_flag_gate_32 idt_flag_dpl0) idt
    idt ← idt_set_gate int_syscall e.isr_syscall 0x08 (bit_or idt_flag_gate_32 idt_flag_dpl3) idt
    some (record { limit = 8 * idt_entries - 1; base = address }, idt, d)
