-- ===== src/Elf.antt =====
-- fs/elf.h and fs/elf.c: the loader of ELF files.
pub mod Missing
use anaga.Prelude.{
  ℕ, zero, suc, ◌+◌, ◌-◌, ◌*◌, ◌%◌, ◌^◌, List, [], ◌∷◌, ◌++◌, Option, none, some, Bool, true, false,
  not, ◌&&◌, ◌==◌, ltb, leb, if◌then◌else◌, ◌>>=◌, get_elem?, take, drop, replicate, literal, ℤ,
  pos, negsuc,
}
use anaga.CString.{memset}
use anaga.Display.{kprint}
use anaga.Display.Printf.{word, kprintf}
use anaga.Vfs.{Vfs, vfs_read_at}

abbrev pub pt_load : ℕ
pt_load = 1

-- The little-endian numbers at an offset
unfoldable pub half_at : List ℕ → ℕ → Option ℕ
half_at bytes o = get_elem? bytes o >>= λ a. get_elem? bytes (o + 1) >>= λ b. some (a + b * 2 ^ 8)

unfoldable pub word_at : List ℕ → ℕ → Option ℕ
word_at bytes o = half_at bytes o >>= λ a. half_at bytes (o + 2) >>= λ b. some (a + b * 2 ^ 16)

pub record Elf32Ehdr : Type 0 where
  pub e_ident : List ℕ
  pub e_type : ℕ
  pub e_machine : ℕ
  pub e_version : ℕ
  pub e_entry : ℕ
  pub e_phoff : ℕ
  pub e_shoff : ℕ
  pub e_flags : ℕ
  pub e_ehsize : ℕ
  pub e_phentsize : ℕ
  pub e_phnum : ℕ
  pub e_shentsize : ℕ
  pub e_shnum : ℕ
  pub e_shstrndx : ℕ

abbrev pub ehdr_size : ℕ
ehdr_size = 52

-- The structure in its bytes
unfoldable pub ehdr_of : List ℕ → Option Elf32Ehdr
ehdr_of bytes = do
  e_type ← half_at bytes 16
  e_machine ← half_at bytes 18
  e_version ← word_at bytes 20
  e_entry ← word_at bytes 24
  e_phoff ← word_at bytes 28
  e_shoff ← word_at bytes 32
  e_flags ← word_at bytes 36
  e_ehsize ← half_at bytes 40
  e_phentsize ← half_at bytes 42
  e_phnum ← half_at bytes 44
  e_shentsize ← half_at bytes 46
  e_shnum ← half_at bytes 48
  e_shstrndx ← half_at bytes 50
  some (record {
    e_ident = take 16 bytes;
    e_type = e_type;
    e_machine = e_machine;
    e_version = e_version;
    e_entry = e_entry;
    e_phoff = e_phoff;
    e_shoff = e_shoff;
    e_flags = e_flags;
    e_ehsize = e_ehsize;
    e_phentsize = e_phentsize;
    e_phnum = e_phnum;
    e_shentsize = e_shentsize;
    e_shnum = e_shnum;
    e_shstrndx = e_shstrndx;
  })

pub record Elf32Phdr : Type 0 where
  pub p_type : ℕ
  pub p_offset : ℕ
  pub p_vaddr : ℕ
  pub p_paddr : ℕ
  pub p_filesz : ℕ
  pub p_memsz : ℕ
  pub p_flags : ℕ
  pub p_align : ℕ

abbrev pub phdr_size : ℕ
phdr_size = 32

unfoldable pub phdr_of : List ℕ → Option Elf32Phdr
phdr_of bytes = do
  p_type ← word_at bytes 0
  p_offset ← word_at bytes 4
  p_vaddr ← word_at bytes 8
  p_paddr ← word_at bytes 12
  p_filesz ← word_at bytes 16
  p_memsz ← word_at bytes 20
  p_flags ← word_at bytes 24
  p_align ← word_at bytes 28
  some (record {
    p_type = p_type;
    p_offset = p_offset;
    p_vaddr = p_vaddr;
    p_paddr = p_paddr;
    p_filesz = p_filesz;
    p_memsz = p_memsz;
    p_flags = p_flags;
    p_align = p_align;
  })

-- The four tests of the magic number, in their order
unfoldable pub has_magic : List ℕ → Option Bool
has_magic ident = do
  a ← get_elem? ident 0
  b ← get_elem? ident 1
  c ← get_elem? ident 2
  d ← get_elem? ident 3
  some (a == 0x7f && (b == b'E' && (c == b'L' && d == b'F')))

-- `memory` is what an address stands for: the bytes from address 0 on.
pub record Loader : Type 0 where
  pub vfs : Vfs
  pub memory : List ℕ

-- What a call or a loop gives: its result, and the state.
abbrev pub Out : Type 0
Out = ℤ × Loader

-- `read < 0 || (uint32_t)read != size`; a negative result is no size of a structure either.
abbrev pub is_size : ℤ → ℕ → Bool
is_size (pos n) size = n == size
is_size (negsuc n) size = false

unfoldable pub say : List ℕ → Loader → Option Loader
say message s = kprint (some message) s.vfs.screen >>= λ screen.
    some (record s { vfs = record (s.vfs) { screen = screen } })

unfoldable pub fail : List ℕ → Loader → Option Out
unfolding say
fail message s = say message s >>= λ s'. some (negsuc 0, s')

-- an `int` passed to `kprintf`
abbrev pub as_word : ℤ → ℕ
as_word (pos n) = n
as_word (negsuc n) = 2 ^ 32 - n - 1

unfoldable pub say_two : List ℕ → ℕ → ℕ → Loader → Option Loader
say_two format a b s = kprintf format (word a ∷ word b ∷ []) s.vfs.screen >>= λ screen.
    some (record s { vfs = record (s.vfs) { screen = screen } })

-- `memset((void*)(p_vaddr + p_filesz), 0, p_memsz - p_filesz)`; `memset` counts an `int` down to 0, so
-- a count of 2 ^ 31 or more leaves the memory.
unfoldable pub clear_rest : Elf32Phdr → Loader → Option Loader
clear_rest phdr s =
    let start = (phdr.p_vaddr + phdr.p_filesz) % 2 ^ 32 in
    if ltb phdr.p_filesz phdr.p_memsz
    then (memset (drop start s.memory) 0 (phdr.p_memsz - phdr.p_filesz) >>= λ cleared.
        some (record s { memory = take start s.memory ++ cleared }))
    else some s

-- The body of `if (phdr.p_type == PT_LOAD)`; a result of -1 leaves `elf_load`.
unfoldable pub load_segment : List ℕ → Elf32Phdr → Loader → Option Out
unfolding say_two clear_rest
load_segment path phdr s = do
  told ← say_two (literal "ELF: Loading segment at 0x%x (size: %d)\n") phdr.p_vaddr phdr.p_filesz s
  (read, out, vfs) ←
      vfs_read_at path (drop phdr.p_vaddr told.memory) phdr.p_filesz phdr.p_offset told.vfs
  let now : Loader = record { vfs = vfs; memory = take phdr.p_vaddr told.memory ++ out }
  if is_size read phdr.p_filesz
      then (clear_rest phdr now >>= λ done. some (pos 0, done))
      else say_two (literal "ELF: Failed to load segment (read %d of %d)\n") (as_word read)
          phdr.p_filesz now
        >>= λ done. some (negsuc 0, done)

-- The local header holds zeros before it is read; what it holds is not used unless all of it is read.
unfoldable pub load_header : List ℕ → ℕ → Loader → Option Out
unfolding fail load_segment
load_header path offset s = do
  (read, bytes, vfs) ← vfs_read_at path (replicate phdr_size 0) phdr_size offset s.vfs
  let now = record s { vfs = vfs }
  if is_size read phdr_size
      then (phdr_of bytes >>= λ phdr.
          if phdr.p_type == pt_load then load_segment path phdr now else some (pos 0, now))
      else fail (literal "ELF: Failed to read phdr\n") now

-- The loop, `n` rounds from round `i` on; `i * header.e_phentsize` is a product of `int`s, which
-- may overflow.
unfoldable pub load_headers : ℕ → ℕ → List ℕ → Elf32Ehdr → Loader → Option Out
load_headers zero i path header s = some (pos 0, s)
load_headers (suc n) i path header s =
    let first =
      if leb (2 ^ 31) (i * header.e_phentsize)
      then none
      else load_header path ((header.e_phoff + i * header.e_phentsize) % 2 ^ 32) s in
    first >>= λ (code, s'). elim code [
      | negsuc k ↦ some (negsuc k, s')
      | pos k ↦ load_headers n (i + 1) path header s'
    ]

-- `elf_load` behind the first read; `none` for the entry point where `*entry_point` is not set.
unfoldable pub load_file : List ℕ → List ℕ → Loader → Option (Option ℕ × Out)
unfolding fail
load_file path bytes s = do
  header ← ehdr_of bytes
  magic ← has_magic header.e_ident
  if magic
      then (load_headers header.e_phnum 0 path header s >>= λ out. some (some header.e_entry, out))
      else fail (literal "ELF: Invalid magic\n") s >>= λ out. some (none, out)

unfoldable pub elf_load : List ℕ → Loader → Option (Option ℕ × Out)
unfolding fail
elf_load path s = do
  (read, bytes, vfs) ← vfs_read_at path (replicate ehdr_size 0) ehdr_size 0 s.vfs
  let now = record s { vfs = vfs }
  if is_size read ehdr_size
      then load_file path bytes now
      else fail (literal "ELF: Failed to read header\n") now >>= λ out. some (none, out)
