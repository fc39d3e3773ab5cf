-- ===== src/Examples/Machine.antt =====
-- The theorems about `kprintf` and the parts of the kernel next to the processor, at small inputs.
use anaga.Prelude.{
  length-set, get_elem?-set_self, get_elem?-set_ne, get_elem?-replicate, set, ◌∙◌, ℕ, ◌≡◌, refl,
  List, [], ◌∷◌, some, none, arith, replicate, length-replicate, literal, Returns, get_elem?, ltb,
  if◌then◌else◌, ◌>>=◌,
}
use anaga.CString.Text.{IsCString-literal}
use anaga.Display.{Screen, put_all}
use anaga.Display.Safety
use anaga.Display.Printf.{Arg, word, str, kprintf}
use anaga.Display.Format.{Expands, Fits}
use anaga.Display.Expansion.{kprintf_lem}
use anaga.Display.Lines.{Lines}
use anaga.Ports.{Ports}
use anaga.Paging.{Paging, paging_init, paging_map_page}
use anaga.Paging.Identity.{IsMapped, walk, paging_init_lem}
use anaga.Paging.Map.{mapped, paging_map_page_lem}
use anaga.Tss.{tss_init, tss_set_kernel_stack}
use anaga.Tss.Fields.{tss_bytes, ready, tss_init-set}
use anaga.Interrupts.{IdtEntry, EntryPoints}
use anaga.Interrupts.Gates
use anaga.Interrupts.Gates.{Installed, idt_init_lem}
use anaga.Syscall.{Regs, stops}
use anaga.Exception.{exception_messages, exception_handler}
use anaga.Exception.Panic.{AreWords, report, exception_handler-panic}
use anaga.Examples.State.{blank_screen, blank_screen-IsValid}
use anaga.Examples.Kernel.{regs, memory}

abbrev format : List ℕ
format = literal "%s at 0x%lx\n"

abbrev format_args : List Arg
format_args = str (some (literal "fault")) ∷ word 0xdead ∷ []

format-Fits : Fits format format_args
unfolding Fits
format-Fits = ((refl, IsCString-literal "fault"), ((omega arith, refl), tt))

kprintf_example :
    (out : List ℕ) × Expands format format_args out
    × (kprintf format format_args blank_screen ≡ put_all out blank_screen)
kprintf_example = kprintf_lem format format_args blank_screen format-Fits

abbrev tables : Paging
tables = record { page_directory = replicate 1024 9; first_page_table = replicate 1024 9 }

paging_init_example :
    Returns
      (λ q.
        IsMapped 0x8000 q
        × (walk 0x8000 q 0x1234 ≡ (if ltb 0x1234 0x400000 then some 0x1234 else none)))
      (paging_init 0x8000 tables)
paging_init_example =
    paging_init_lem 0x8000 tables 0x1234 refl (length-replicate 1024 9) (length-replicate 1024 9)
      (omega arith)

abbrev one_table : Paging
one_table = record {
  page_directory = set (replicate 1024 0) 0 0x8007;
  first_page_table = replicate 1024 9;
}

one_table-IsMapped : IsMapped 0x8000 one_table
one_table-IsMapped = record {
  entries = length-set (replicate 1024 0) 0 0x8007 ∙ length-replicate 1024 0;
  pages = length-replicate 1024 9;
  first =
      get_elem?-set_self (replicate 1024 0) 0 0x8007
        (omega (arith, length-replicate {A = ℕ} 1024 0));
  others = λ j lo hi.
      get_elem?-set_ne (replicate 1024 0) 0x8007 (λ e. omega arith)
      ∙ get_elem?-replicate 1024 j 0 (omega arith);
}

paging_map_page_example :
    Returns
      (λ q.
        IsMapped 0x8000 q × (walk 0x8000 q 0x1234 ≡ mapped 0x8000 one_table 0x1000 0x5000 0x1234))
      (paging_map_page 0x8000 0x1000 0x5000 3 one_table)
paging_map_page_example =
    paging_map_page_lem 0x8000 one_table 0x1000 0x5000 3 0x1234 refl (omega arith)
      one_table-IsMapped (omega arith) (omega arith) (omega arith)

tss_init-set_example :
    (tss_init 0x9000 (replicate 104 7) ≡ some (tss_bytes (ready 0x9000)))
    × ((tss_init 0x9000 (replicate 104 7) >>= tss_set_kernel_stack 0xa000)
        ≡ some (tss_bytes (ready 0xa000)))
tss_init-set_example = tss_init-set 0x9000 0xa000 (replicate 104 7) (length-replicate 104 7)

-- Ports that no device answers.
abbrev no_ports : Ports
no_ports = record {
  Device = Unit {0};
  inb = λ port d. (0xff, d);
  outb = λ port v d. d;
  inw = λ port d. (0xffff, d);
  outw = λ port v d. d;
  inl = λ port d. (0xffffffff, d);
  outl = λ port v d. d;
}

abbrev pub entry_points : EntryPoints
entry_points = record { isr = λ n. 0x100000; isr_timer = 0x100100; isr_syscall = 0x100200 }

pub entry_points-AreWords : Gates.AreWords entry_points
entry_points-AreWords = record {
  isr = λ n. omega arith;
  timer = omega arith;
  syscall = omega arith;
}

abbrev pub old_entry : IdtEntry
old_entry = record { base_low = 1; selector = 2; zero = 3; flags = 4; base_high = 5 }

abbrev fault : Regs
fault = record (regs 0) { int_no = 14; err_code = 2; eip = 0x1000 }

fault-AreWords : AreWords fault
fault-AreWords = omega arith

exception_handler-panic_example :
    (msg : List ℕ) × (out : List ℕ) × (s' : Screen) × (get_elem? exception_messages fault.int_no
      ≡ some msg)
    × Lines (report msg fault) out
    × (put_all out blank_screen ≡ some s')
    × Safety.IsValid s'
    × (exception_handler memory fault blank_screen ≡ some (stops s'))
exception_handler-panic_example =
    exception_handler-panic memory fault blank_screen (omega arith) fault-AreWords
      blank_screen-IsValid
