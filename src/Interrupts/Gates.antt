-- ===== src/Interrupts/Gates.antt =====
-- What `idt_init` makes of the interrupt descriptor table.
use mathlib.Core.Path.{fun_ext}
use Prim.Native.Nat.{bit_and, bit_or}
use anaga.Prelude.{
  ltb-true, ltb-false, subst, Returns-elim, ne→==, ℕ, zero, suc, ◌+◌, ◌*◌, ◌/◌, ◌%◌, ◌^◌, ◌≤◌, ◌<◌,
  ◌≡◌, ◌≢◌, refl, sym, ap, ◌∙◌, inl, inr, List, Option, some, arith, ◌==◌, ltb, if◌then◌else◌,
  ◌>>=◌, get_elem?, get_elem?-set_self, get_elem?-set_ne, set, store, store_lem, length, length-set,
  eq-cases, lt-cases, Returns,
}
use anaga.Prelude.Bits.{bit_and-low}
use anaga.Prelude.Fill.{fill, Filled, fill_lem}
use anaga.Ports.{Ports}
use anaga.Interrupts.{
  IdtEntry, EntryPoints, IdtPtr, idt_entries, int_timer, int_syscall, no_entry, idt_set_gate,
  clear_entries, set_exceptions, idt_init,
}

-- A gate as the processor reads it: where the handler stands, the selector of its segment, the type
-- of the gate, the privilege that may call it, and whether it is present.
pub data Gate : Type 0 where
  absent : Gate
  present : (handler selector type privilege : ℕ) → Gate

unfoldable pub gate_of : IdtEntry → Gate
gate_of e =
    if e.flags / 2 ^ 7 % 2 == 0
    then absent
    else present (e.base_high * 2 ^ 16 + e.base_low) e.selector (e.flags % 2 ^ 4)
        (e.flags / 2 ^ 5 % 4)

-- The gate of every number: an interrupt gate into the kernel's code segment for each exception, for
-- the timer, and, open to user programs, for system calls.
unfoldable pub gate_at : EntryPoints → ℕ → Gate
gate_at e n =
    if ltb n 32
    then present (e.isr n) 0x08 0x0E 0
    else if n == int_timer
    then present e.isr_timer 0x08 0x0E 0
    else if n == int_syscall
    then present e.isr_syscall 0x08 0x0E 3
    else absent

abbrev entry_of : ℕ → ℕ → IdtEntry
entry_of base flags = record {
  base_low = bit_and base 0xFFFF;
  selector = 0x08;
  zero = 0;
  flags = bit_or flags 0x80;
  base_high = bit_and (base / 2 ^ 16) 0xFFFF;
}

halves :
    (base : ℕ)
    → base < 2 ^ 32
    → bit_and (base / 2 ^ 16) 0xFFFF * 2 ^ 16 + bit_and base 0xFFFF ≡ base
halves base h = omega (arith, bit_and-low 16 (base / 2 ^ 16), bit_and-low 16 base)

kernel_gate : (base : ℕ) → base < 2 ^ 32 → gate_of (entry_of base 0x0E) ≡ present base 0x08 0x0E 0
unfolding gate_of
kernel_gate base h = ap (λ b. present b 0x08 0x0E 0) (halves base h)

user_gate : (base : ℕ) → base < 2 ^ 32 → gate_of (entry_of base 0x6E) ≡ present base 0x08 0x0E 3
unfolding gate_of
user_gate base h = ap (λ b. present b 0x08 0x0E 3) (halves base h)

clear_entries-fill :
    (n i : ℕ) (idt : List IdtEntry) → clear_entries n i idt ≡ fill (λ j. no_entry) n i idt
unfolding clear_entries fill
clear_entries-fill zero i idt = refl
clear_entries-fill (suc n) i idt =
    ap (λ (f : List IdtEntry → Option (List IdtEntry)). store idt i no_entry >>= f)
      (fun_ext (clear_entries-fill n (i + 1)))

set_exceptions-fill :
    (isr : ℕ → ℕ) (n i : ℕ) (idt : List IdtEntry)
    → set_exceptions isr n i idt ≡ fill (λ j. entry_of (isr j) 0x0E) n i idt
unfolding set_exceptions fill idt_set_gate
set_exceptions-fill isr zero i idt = refl
set_exceptions-fill isr (suc n) i idt =
    ap (λ (f : List IdtEntry → Option (List IdtEntry)). store idt i (entry_of (isr i) 0x0E) >>= f)
      (fun_ext (set_exceptions-fill isr n (i + 1)))

set_gate_lem :
    (n base flags : ℕ) (idt : List IdtEntry)
    → n < length idt
    → idt_set_gate n base 0x08 flags idt ≡ some (set idt n (entry_of base flags))
unfolding idt_set_gate
set_gate_lem n base flags idt h = store_lem idt n (entry_of base flags) h

-- Every address is a word.
pub record AreWords (e : EntryPoints) : Type 0 where
  pub isr : (n : ℕ) → e.isr n < 2 ^ 32
  pub timer : e.isr_timer < 2 ^ 32
  pub syscall : e.isr_syscall < 2 ^ 32

-- The entries behind the two loops and the two calls.
abbrev final : EntryPoints → List IdtEntry → List IdtEntry
final e idt =
    set (set idt int_timer (entry_of e.isr_timer 0x0E)) int_syscall (entry_of e.isr_syscall 0x6E)

-- An entry of the final table is that of the number asked for.
abbrev HasGate : EntryPoints → List IdtEntry → ℕ → Type 0
HasGate e out n = (x : IdtEntry) × (get_elem? out n ≡ some x) × (gate_of x ≡ gate_at e n)

absent_gate : gate_of no_entry ≡ absent
unfolding gate_of
absent_gate = refl

module _ (e : EntryPoints) (idt xs ys : List IdtEntry) (w : AreWords e)
    (c : Filled (λ j. no_entry) 256 0 idt xs) (k : Filled (λ j. entry_of (e.isr j) 0x0E) 32 0 xs ys)
    (size : length idt ≡ 256) where
  syscall_at : HasGate e (final e ys) int_syscall
  unfolding gate_at
  syscall_at =
      let timer = set ys int_timer (entry_of e.isr_timer 0x0E) in
      let inside : int_syscall < length timer =
        omega (arith, length-set ys int_timer (entry_of e.isr_timer 0x0E), k.size, c.size) in
      (
        entry_of e.isr_syscall 0x6E,
        get_elem?-set_self timer int_syscall (entry_of e.isr_syscall 0x6E) inside,
        user_gate e.isr_syscall w.syscall,
      )

  -- Below the gate of the system calls, and above it, the timer's table stands.
  below :
      (n : ℕ)
      → int_syscall ≢ n
      → get_elem? (final e ys) n ≡ get_elem? (set ys int_timer (entry_of e.isr_timer 0x0E)) n
  below n ne =
      get_elem?-set_ne (set ys int_timer (entry_of e.isr_timer 0x0E)) (entry_of e.isr_syscall 0x6E)
        ne

  timer_at : HasGate e (final e ys) int_timer
  unfolding gate_at
  timer_at = (
    entry_of e.isr_timer 0x0E,
    below int_timer (λ e. omega arith)
        ∙ get_elem?-set_self ys int_timer (entry_of e.isr_timer 0x0E)
            (omega (arith, k.size, c.size)),
    kernel_gate e.isr_timer w.timer,
  )

  exception_at : (n : ℕ) → n < 32 → HasGate e (final e ys) n
  unfolding gate_at
  exception_at n low = (
    entry_of (e.isr n) 0x0E,
    below n (λ e. omega arith)
        ∙ get_elem?-set_ne ys (entry_of e.isr_timer 0x0E) (λ e. omega arith)
        ∙ k.set n (omega arith) (omega arith),
    rw (ltb-true n 32 low) (kernel_gate (e.isr n) (w.isr n)),
  )

  absent_at :
      (n : ℕ) → 32 ≤ n → n < 256 → int_timer ≢ n → int_syscall ≢ n → HasGate e (final e ys) n
  unfolding gate_at
  absent_at n high small timer syscall = (
    no_entry,
    below n syscall
        ∙ get_elem?-set_ne ys (entry_of e.isr_timer 0x0E) timer
        ∙ k.above n (omega arith)
        ∙ c.set n (omega arith) (omega arith),
    rw (ltb-false n 32 high, ne→== n 32 (λ e. timer (sym e)), ne→== n 128 (λ e. syscall (sym e)))
        absent_gate,
  )

  final_at : (n : ℕ) → n < 256 → HasGate e (final e ys) n
  final_at n h = elim (eq-cases int_syscall n) [
    | inl is ↦ subst (HasGate e (final e ys)) is syscall_at
    | inr ne ↦ elim (eq-cases int_timer n) [
      | inl is ↦ subst (HasGate e (final e ys)) is timer_at
      | inr other ↦ elim (lt-cases n 32) [
        | inl low ↦ exception_at n low
        | inr high ↦ absent_at n high h other ne
      ]
    ]
  ]

-- What `idt_init` leaves: the pointer to the whole table, and each of its gates.
pub record Installed (e : EntryPoints) (address : ℕ) (ptr : IdtPtr) (out : List IdtEntry)
    : Type 0 where
  pub base : ptr.base ≡ address
  pub limit : ptr.limit + 1 ≡ 8 * length out
  pub gates : (n : ℕ) → n < idt_entries → HasGate e out n

-- `idt_init` returns, whatever the table holds: the pointer that the processor loads spans the table,
-- and of its 256 gates each exception, the timer and the system calls have the one that leads to
-- their entry point, the last open to user programs, and every other is absent.
pub idt_init_lem :
    (p : Ports) (e : EntryPoints) (address : ℕ) (idt : List IdtEntry) (d : p.Device)
    → length idt ≡ idt_entries
    → AreWords e
    → Returns
        (λ (out : IdtPtr × List IdtEntry × p.Device). Installed e address out.0 out.1)
        (idt_init p e address idt d)
unfolding idt_init
idt_init_lem p e address idt d size w =
    let (xs, made, c) =
      Returns-elim (Filled (λ j. no_entry) 256 0 idt) (fill (λ j. no_entry) 256 0 idt)
        (fill_lem (λ j. no_entry) 256 0 idt (omega arith)) in
    let exception = λ (j : ℕ). entry_of (e.isr j) 0x0E in
    let (ys, set', k) =
      Returns-elim (Filled exception 32 0 xs) (fill exception 32 0 xs)
        (fill_lem exception 32 0 xs (omega (arith, c.size))) in
    let timer = set ys int_timer (entry_of e.isr_timer 0x0E) in
    let timer_size = length-set ys int_timer (entry_of e.isr_timer 0x0E) in
    rw
      (
        clear_entries-fill 256 0 idt,
        made,
        set_exceptions-fill e.isr 32 0 xs,
        set',
        set_gate_lem int_timer e.isr_timer 0x0E ys (omega (arith, k.size, c.size)),
        set_gate_lem int_syscall e.isr_syscall 0x6E timer
            (omega (arith, timer_size, k.size, c.size)),
      )
      (record {
        base = refl;
        limit = omega (
          arith,
          length-set timer int_syscall (entry_of e.isr_syscall 0x6E),
          timer_size,
          k.size,
          c.size,
        );
        gates = final_at e idt xs ys w c k size;
      })
