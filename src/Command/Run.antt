-- ===== src/Command/Run.antt =====
-- `cmd_run` of drivers/command/command.c behind the test of its argument, where `call` hands over.
use anaga.Prelude.{
  ℕ, zero, suc, ◌≡◌, ap, ◌∙◌, List, [], ◌∷◌, Option, none, some, ◌>>=◌, literal, ℤ, pos, negsuc,
  Returns-elim,
}
use anaga.CString.Text.{IsCString, text}
use anaga.Display.{put_all}
use anaga.Display.Printf.{word, kprintf}
use anaga.File.Lookup.{Entry}
use anaga.Vfs.Valid.{IsValid, SameFiles}
use anaga.Elf.{Loader, Out, elf_load}
use anaga.Elf.Missing.{NotLoaded, elf_load-missing}

-- The command returns to the loop of the shell, or the program at an address takes over.
pub data Ran : Type 0 where
  returns : Loader → Ran
  executes : ℕ → Loader → Ran

-- `if (elf_load(a, &entry) == 0) { ... }`, with what `elf_load` has returned and set
unfoldable pub start_program : Option ℕ → ℤ → Loader → Option Ran
start_program entry (negsuc n) s = some (returns s)
start_program entry (pos (suc n)) s = some (returns s)
start_program none (pos zero) s = none
start_program (some entry) (pos zero) s =
    kprintf (literal "Executing ELF at 0x%x...\n") (word entry ∷ []) s.vfs.screen >>= λ screen.
    some (executes entry (record s { vfs = record (s.vfs) { screen = screen } }))

unfoldable pub run_file : List ℕ → Loader → Option Ran
run_file path s = elf_load path s >>= λ (entry, out). start_program entry out.0 out.1

-- `run` of a name that the current directory of a valid file system does not have returns to the
-- shell. It has printed that the header could not be read; nothing else has changed, the memory
-- included, and the file system is valid.
pub run_file-missing :
    (path : List ℕ) (s : Loader)
    → IsValid s.vfs
    → IsCString path
    → ((child : ℕ) → ¬ Entry s.vfs.inode_array s.vfs.current_dir path child)
    → (s' : Loader) × (run_file path s ≡ some (returns s'))
      × (s'.memory ≡ s.memory)
      × SameFiles s.vfs s'.vfs
      × (s'.vfs.disk ≡ s.vfs.disk)
      × (put_all (text (literal "ELF: Failed to read header\n")) s.vfs.screen ≡ some s'.vfs.screen)
      × IsValid s'.vfs
unfolding run_file start_program
run_file-missing path s h c absent =
    let (r, e, n) =
      Returns-elim (NotLoaded s) (elf_load path s) (elf_load-missing path s h c absent) in
    (
      r.1.1,
      ap (λ (m : Option (Option ℕ × Out)). m >>= λ r. start_program r.0 r.1.0 r.1.1) e
          ∙ ap (λ code. start_program r.0 code r.1.1) n.code,
      n.same_memory,
      n.same_files,
      n.same_disk,
      n.printed,
      n.valid,
    )
