-- ===== src/Elf/Missing.antt =====
-- `elf_load` of a name that the current directory does not have.
use anaga.Prelude.{
  ℕ, ◌≡◌, refl, sym, ◌∙◌, ap, List, Option, none, some, ℤ, pos, negsuc, literal, replicate, Returns,
  Returns-elim,
}
use anaga.CString.Text.{IsCString, text}
use anaga.Display.{kprint, put_all}
use anaga.Display.Safety
use anaga.Display.Safety.{kprint-IsValid, kprint_lem}
use anaga.File.{find_inode_in_dir}
use anaga.File.Lookup.{Entry, Lookup, find_inode_in_dir_lem}
use anaga.Vfs.{Vfs, find, read_named, vfs_read_at}
use anaga.CString.Text.{IsCString-literal}
use anaga.Vfs.Valid.{IsValid, SameFiles}
use anaga.Elf.{Loader, Out, say, fail, elf_load, ehdr_size}

-- The call fails: no entry point, -1, and only the screen has changed.
pub record NotLoaded (s : Loader) (r : Option ℕ × Out) : Type 0 where
  pub no_entry : r.0 ≡ none
  pub code : r.1.0 ≡ negsuc 0
  pub same_memory : r.1.1.memory ≡ s.memory
  pub same_files : SameFiles s.vfs r.1.1.vfs
  pub same_disk : r.1.1.vfs.disk ≡ s.vfs.disk
  pub printed :
      put_all (text (literal "ELF: Failed to read header\n")) s.vfs.screen ≡ some r.1.1.vfs.screen
  pub valid : IsValid r.1.1.vfs

missing_code :
    (v : Vfs) (path : List ℕ) (r : ℤ)
    → ((child : ℕ) → ¬ Entry v.inode_array v.current_dir path child)
    → Lookup v.inode_array v.current_dir path r
    → r ≡ negsuc 0
missing_code v path (pos c) absent h = absurd (absent c h.0.here)
missing_code v path (negsuc e) absent h = ap negsuc h.0

vfs_read_at-missing :
    (path buffer : List ℕ) (size offset : ℕ) (v : Vfs)
    → IsValid v
    → IsCString path
    → ((child : ℕ) → ¬ Entry v.inode_array v.current_dir path child)
    → vfs_read_at path buffer size offset v ≡ some (negsuc 0, buffer, v)
unfolding vfs_read_at read_named find
vfs_read_at-missing path buffer size offset v h c absent =
    let (r, e, found) =
      Returns-elim (Lookup v.inode_array v.current_dir path)
        (find_inode_in_dir v.inode_array v.current_dir path)
        (find_inode_in_dir_lem v.inode_array v.current_dir path h.inodes c) in
    let code = missing_code v path r absent found in rw (e, code) refl

-- In a valid file system, where the current directory has no entry of the name, `elf_load` returns:
-- -1, with no entry point set, the memory and the files as they were, its message printed, and the
-- file system valid.
pub elf_load-missing :
    (path : List ℕ) (s : Loader)
    → IsValid s.vfs
    → IsCString path
    → ((child : ℕ) → ¬ Entry s.vfs.inode_array s.vfs.current_dir path child)
    → Returns (NotLoaded s) (elf_load path s)
unfolding elf_load fail say
elf_load-missing path s h c absent =
    let message = literal "ELF: Failed to read header\n" in
    let (screen, e, valid) =
      Returns-elim (λ s. Safety.IsValid s) (kprint (some message) s.vfs.screen)
        (kprint-IsValid message s.vfs.screen (IsCString-literal "ELF: Failed to read header\n")
          h.screen) in
    rw (vfs_read_at-missing path (replicate ehdr_size 0) ehdr_size 0 s.vfs h c absent, e)
      (record {
        no_entry = refl;
        code = refl;
        same_memory = refl;
        same_files = record { current_dir = refl; inode_array = refl; fd_table = refl };
        same_disk = refl;
        printed =
            sym (kprint_lem message s.vfs.screen (IsCString-literal "ELF: Failed to read header\n"))
            ∙ e;
        valid = record {
          inodes = h.inodes;
          tree = h.tree;
          here = h.here;
          descriptors = h.descriptors;
          closed = h.closed;
          screen = valid;
        };
      })
