-- ===== src/Exception.antt =====
-- interrupts/exception.c: what the kernel does at an exception and at a system call.
pub mod Panic
use anaga.Prelude.{
  ℕ, List, [], ◌∷◌, Option, none, some, ◌==◌, ltb, if◌then◌else◌, ◌>>=◌, get_elem?, literal,
}
use anaga.Display.{Screen}
use anaga.Display.Printf.{word, str, kprintf}
use anaga.Syscall.{Regs, Handled, resumes, stops, syscall_handler}

abbrev pub exception_messages : List (List ℕ)
exception_messages =
    literal "Division By Zero"
    ∷ literal "Debug"
    ∷ literal "Non Maskable Interrupt"
    ∷ literal "Breakpoint"
    ∷ literal "Into Detected Overflow"
    ∷ literal "Out of Bounds"
    ∷ literal "Invalid Opcode"
    ∷ literal "No Coprocessor"
    ∷ literal "Double Fault"
    ∷ literal "Coprocessor Segment Overrun"
    ∷ literal "Bad TSS"
    ∷ literal "Segment Not Present"
    ∷ literal "Stack Fault"
    ∷ literal "General Protection Fault"
    ∷ literal "Page Fault"
    ∷ literal "Unknown Interrupt"
    ∷ literal "Coprocessor Fault"
    ∷ literal "Alignment Check"
    ∷ literal "Machine Check"
    ∷ literal "SIMD Floating-Point Exception"
    ∷ literal "Virtualization Exception"
    ∷ literal "Reserved"
    ∷ literal "Reserved"
    ∷ literal "Reserved"
    ∷ literal "Reserved"
    ∷ literal "Reserved"
    ∷ literal "Reserved"
    ∷ literal "Security Exception"
    ∷ literal "Reserved"
    ∷ literal "Triple Fault?"
    ∷ literal "Reserved"
    ∷ []

-- The calls under `if (r)`
unfoldable pub print_regs : Regs → Screen → Option Screen
print_regs r s = do
  s ← kprintf (literal "INT: 0x%x  ERR: 0x%x\n") (word r.int_no ∷ word r.err_code ∷ []) s
  s ←
      kprintf (literal "EIP: 0x%x  CS:  0x%x  EFLAGS: 0x%x\n")
        (word r.eip ∷ word r.cs ∷ word r.eflags ∷ []) s
  s ←
      kprintf (literal "EAX: 0x%x  EBX: 0x%x  ECX: 0x%x  EDX: 0x%x\n")
        (word r.eax ∷ word r.ebx ∷ word r.ecx ∷ word r.edx ∷ []) s
  s ←
      kprintf (literal "ESI: 0x%x  EDI: 0x%x  EBP: 0x%x\n")
        (word r.esi ∷ word r.edi ∷ word r.ebp ∷ []) s
  s ← kprintf (literal "UESP:0x%x  SS:  0x%x\n") (word r.useresp ∷ word r.ss ∷ []) s
  s ←
      kprintf (literal "DS:  0x%x  ES:  0x%x  FS:  0x%x  GS: 0x%x\n")
        (word r.ds ∷ word r.es ∷ word r.fs ∷ word r.gs ∷ []) s
  some s

-- `none` for a NULL pointer to the registers. The processor halts at the end.
unfoldable pub kernel_panic : Option (List ℕ) → Option Regs → Screen → Option Screen
kernel_panic msg none s = kprintf (literal "\n!!! KERNEL PANIC: %s !!!\n") (str msg ∷ []) s
kernel_panic msg (some r) s =
    kprintf (literal "\n!!! KERNEL PANIC: %s !!!\n") (str msg ∷ []) s >>= print_regs r

unfoldable pub exception_handler : (ℕ → List ℕ) → Regs → Screen → Option Handled
exception_handler memory r s =
    if r.int_no == 0x80
    then syscall_handler memory r s
    else if ltb r.int_no 32
    then (get_elem? exception_messages r.int_no >>= λ msg.
        kernel_panic (some msg) (some r) s >>= λ s'. some (stops s'))
    else some (resumes r s)
