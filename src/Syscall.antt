-- ===== src/Syscall.antt =====
-- syscall/syscall.c and syscall/syscall.h: the dispatch of the system calls.
pub mod Dispatch
use anaga.Prelude.{
  ℕ, zero, suc, ◌+◌, ◌-◌, ◌^◌, List, [], ◌∷◌, Option, none, some, Bool, ◌&&◌, ◌||◌, ◌==◌, ltb, leb,
  if◌then◌else◌, ◌>>=◌, ℤ, pos, negsuc, literal,
}
use anaga.Display.{Screen, kputc}
use anaga.Display.Printf.{word, signed, kprintf}

abbrev pub syscall_max : ℕ
syscall_max = 6

-- `regs_t`
pub record Regs : Type 0 where
  pub gs : ℕ
  pub fs : ℕ
  pub es : ℕ
  pub ds : ℕ
  pub edi : ℕ
  pub esi : ℕ
  pub ebp : ℕ
  pub esp : ℕ
  pub ebx : ℕ
  pub edx : ℕ
  pub ecx : ℕ
  pub eax : ℕ
  pub int_no : ℕ
  pub err_code : ℕ
  pub eip : ℕ
  pub cs : ℕ
  pub eflags : ℕ
  pub useresp : ℕ
  pub ss : ℕ

-- What a call does: it returns an `int`, or the processor halts for ever.
pub data Outcome : Type 0 where
  returns : ℤ → Screen → Outcome
  halts : Screen → Outcome

-- `(uint32_t)i` of an `int`
abbrev pub unsigned : ℤ → ℕ
unsigned (pos n) = n
unsigned (negsuc n) = 2 ^ 32 - n - 1

unfoldable pub sys_exit : Regs → Screen → Option Outcome
sys_exit r s =
    kprintf (literal "Process exited with code %d\n") (word r.ebx ∷ []) s >>= λ s'. some (halts s')

unfoldable pub sys_read : Regs → Screen → Option Outcome
sys_read r s = some (returns (negsuc 0) s)

-- `for (int i = 0; i < count && buf[i]; i++) kputc(buf[i]);`, `count` rounds. What ends before
-- the loop does is an access outside the caller's memory.
unfoldable pub write_bytes : ℕ → List ℕ → Screen → Option Screen
write_bytes zero buf s = some s
write_bytes (suc count) [] s = none
write_bytes (suc count) (c ∷ buf) s =
    let rest = kputc c s >>= write_bytes count buf in if c == 0 then some s else rest

-- The rounds of a loop up to an `int`.
abbrev pub rounds : ℤ → ℕ
rounds (pos n) = n
rounds (negsuc n) = 0

-- `memory` is what stands from an address on.
unfoldable pub sys_write : (ℕ → List ℕ) → Regs → Screen → Option Outcome
sys_write memory r s =
    if r.ebx == 1 || r.ebx == 2
    then (write_bytes (rounds (signed r.edx)) (memory r.ecx) s >>= λ s'.
        some (returns (signed r.edx) s'))
    else some (returns (negsuc 0) s)

unfoldable pub sys_open : Regs → Screen → Option Outcome
sys_open r s = some (returns (negsuc 0) s)

unfoldable pub sys_close : Regs → Screen → Option Outcome
sys_close r s = some (returns (pos 0) s)

unfoldable pub sys_getpid : Regs → Screen → Option Outcome
sys_getpid r s = some (returns (pos 1) s)

-- `syscall_table[eax](regs)`
unfoldable pub call_entry : (ℕ → List ℕ) → ℕ → Regs → Screen → Option Outcome
call_entry memory n r s =
    if n == 0
    then sys_exit r s
    else if n == 1
    then sys_read r s
    else if n == 2
    then sys_write memory r s
    else if n == 3
    then sys_open r s
    else if n == 4
    then sys_close r s
    else if n == 5
    then sys_getpid r s
    else none

-- The registers and the screen when a handler is done, or the screen when the processor halts.
pub data Handled : Type 0 where
  resumes : Regs → Screen → Handled
  stops : Screen → Handled

abbrev pub set_result : Regs → Outcome → Handled
set_result r (returns v s) = resumes (record r { eax = unsigned v }) s
set_result r (halts s) = stops s

unfoldable pub syscall_handler : (ℕ → List ℕ) → Regs → Screen → Option Handled
syscall_handler memory r s =
    if leb syscall_max r.eax
    then some (resumes (record r { eax = unsigned (negsuc 0) }) s)
    else call_entry memory r.eax r s >>= λ o. some (set_result r o)
