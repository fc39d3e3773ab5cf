-- ===== src/Kernel/Boot.antt =====
-- The start of the kernel: what `kinit` and `kmain` leave, and that the loop can go on from there.
use anaga.Prelude.{
  ltb, if◌then◌else◌, ℕ, ◌*◌, ◌%◌, ◌^◌, ◌<◌, ◌≡◌, refl, List, none, some, false, arith, length,
  get_elem?, literal, ◌>>=◌, Returns, Returns-bind, Returns-elim,
}
use anaga.CString.Text.{IsCString-literal}
use anaga.Display.{Screen, kprint, kclean_display, vga_width, vga_height}
use anaga.Display.Safety
use anaga.Display.Safety.{kprint-IsValid}
use anaga.Display.Scroll.{Cleaned, kclean_display_lem}
use anaga.Ports.{Ports}
use anaga.Paging.{page_entries, page_size, paging_init}
use anaga.Paging.Identity.{IsMapped, walk, paging_init_lem}
use anaga.Tss.{tss_size}
use anaga.Tss.Fields.{tss_bytes, ready, tss_init_lem}
use anaga.Interrupts.{idt_entries, idt_init}
use anaga.Interrupts.Gates
use anaga.Interrupts.Gates.{Installed, idt_init_lem}
use anaga.System.{system_init_timer}
use anaga.E1000.{rx_ring_size, tx_ring_size}
use anaga.Pci.Config.{IsPci}
use anaga.Pci.Scan.{pci_scan_lem}
use anaga.Drive.{drive_init}
use anaga.File.{Inode, FileDescriptor}
use anaga.File.Valid.{IsInodeArray, IsFdTable}
use anaga.Disk.{vfs_load}
use anaga.Vfs.{vfs_init}
use anaga.Vfs.Tree.{IsTree}
use anaga.Vfs.Init.{formatted, vfs_init_lem}
use anaga.Vfs.Valid.{IsValid}
use anaga.Input.{input_prompt}
use anaga.Version.{print_kernel_version}
use anaga.Command.Printing.{version-IsValid}
use anaga.Kernel.{Layout, Machine, Shell, max_command_len, greet, kinit, kmain_start}
use anaga.Kernel.Loop.{IsShell}

greet-IsValid : (s : Screen) → Safety.IsValid s → Returns (λ t. Safety.IsValid t) (greet s)
unfolding greet input_prompt
greet-IsValid s v =
    let V = λ (t : Screen). Safety.IsValid t in
    Returns-bind V V
      (print_kernel_version s >>= kprint (some (literal "Syscalls ready (int 0x80)\n")))
      (kprint (some (literal "> ")))
      (Returns-bind V V (print_kernel_version s)
        (kprint (some (literal "Syscalls ready (int 0x80)\n"))) (version-IsValid s v)
        (λ t w.
          kprint-IsValid (literal "Syscalls ready (int 0x80)\n") t
            (IsCString-literal "Syscalls ready (int 0x80)\n") w))
      (λ t w. kprint-IsValid (literal "> ") t (IsCString-literal "> ") w)

module _ (p : Ports) where
  drive_init-IsValid :
      (d : p.Device) (s : Screen)
      → Safety.IsValid s
      → Returns (λ (out : p.Device × Screen). Safety.IsValid out.1) (drive_init p d s)
  unfolding drive_init
  drive_init-IsValid d s v =
      let V = λ (t : Screen). Safety.IsValid t in
      let Q = λ (out : p.Device × Screen). Safety.IsValid out.1 in
      Returns-bind V Q (kprint (some (literal "ATA Drive initializing...\n")) s) _
        (kprint-IsValid (literal "ATA Drive initializing...\n") s
          (IsCString-literal "ATA Drive initializing...\n") v)
        (λ t w.
          Returns-bind V Q (kprint (some (literal "ATA Drive initialized (Master)\n")) t) _
            (kprint-IsValid (literal "ATA Drive initialized (Master)\n") t
              (IsCString-literal "ATA Drive initialized (Master)\n") w)
            (λ u x. x))

  -- What the objects of the kernel hold when it starts: each has its size, no file is open, and the
  -- disk, with an empty root where it has none, has the inodes of a tree.
  pub record IsStart (l : Layout) (m : Machine p) (a : List Inode) : Type 0 where
    pub directory : length m.paging.page_directory ≡ page_entries
    pub table : length m.paging.first_page_table ≡ page_entries
    pub aligned : l.first_page_table % page_size ≡ 0
    pub gates : length m.idt ≡ idt_entries
    pub entries : Gates.AreWords l.entry_points
    pub segment : length m.tss ≡ tss_size
    pub rx : length l.locals.rx ≡ rx_ring_size
    pub tx : length l.locals.tx ≡ tx_ring_size
    pub cells : length m.vfs.screen.vga ≡ vga_width * vga_height
    pub disk : vfs_load m.vfs.disk m.vfs.inode_array ≡ some a
    pub inodes : IsInodeArray a
    pub tree : IsTree (formatted a)
    pub descriptors : IsFdTable m.vfs.fd_table
    pub closed :
        (j : ℕ) (d : FileDescriptor) → get_elem? m.vfs.fd_table j ≡ some d → d.in_use ≡ false

  -- The machine when `kinit` is done.
  pub record IsReady (l : Layout) (a : List Inode) (m : Machine p) : Type 0 where
    pub pages : IsMapped l.first_page_table m.paging
    pub identity :
        (virt : ℕ)
        → virt < 2 ^ 32
        → walk l.first_page_table m.paging virt ≡ (if ltb virt 0x400000 then some virt else none)
    pub gates : Installed l.entry_points l.idt m.idt_ptr m.idt
    pub segment : m.tss ≡ tss_bytes (ready l.stack_top)
    pub inodes : m.vfs.inode_array ≡ formatted a
    pub at_root : m.vfs.current_dir ≡ 0
    pub files : IsValid m.vfs

  -- Clearing the screen changes nothing of that.
  cleared-IsStart :
      (l : Layout) (m : Machine p) (a : List Inode) (s : Screen)
      → IsStart l m a
      → length s.vga ≡ vga_width * vga_height
      → IsStart l (record m { vfs = record (m.vfs) { screen = s } }) a
  cleared-IsStart l m a s h size = record {
    directory = h.directory;
    table = h.table;
    aligned = h.aligned;
    gates = h.gates;
    entries = h.entries;
    segment = h.segment;
    rx = h.rx;
    tx = h.tx;
    cells = size;
    disk = h.disk;
    inodes = h.inodes;
    tree = h.tree;
    descriptors = h.descriptors;
    closed = h.closed;
  }

  module _ (c : IsPci p) where
    kinit_lem :
        (l : Layout) (m : Machine p) (a : List Inode)
        → IsStart l m a
        → Safety.IsValid m.vfs.screen
        → Returns (IsReady l a) (kinit p l m)
    unfolding kinit
    kinit_lem l m a h v =
        let (paging, e1, mapped) = Returns-elim _ (paging_init l.first_page_table m.paging) (
          paging_init_lem l.first_page_table m.paging 0 h.aligned h.directory h.table
            (omega arith)) in
        let (idt, e2, installed) =
          Returns-elim _ (idt_init p l.entry_points l.idt m.idt m.device)
            (idt_init_lem p l.entry_points l.idt m.idt m.device h.gates h.entries) in
        let e3 = tss_init_lem l.stack_top m.tss h.segment in
        let d1 = (system_init_timer p idt.2).0 in
        let (d2, out, s2, same, written, shown, put, v2, e4) =
          pci_scan_lem p c l.locals d1 m.vfs.screen h.rx h.tx v in
        let (drive, e5, v3) = Returns-elim _ (drive_init p d2 s2) (drive_init-IsValid d2 s2 v2) in
        let (vfs, e6, started) = Returns-elim _ (vfs_init (record (m.vfs) { screen = drive.1 })) (
          vfs_init_lem (record (m.vfs) { screen = drive.1 }) a h.disk h.inodes h.tree h.descriptors
            h.closed v3) in
        rw (e1, e2, e3, e4, e5, e6)
          (record {
            pages = mapped.0;
            identity = λ virt small.
                let there =
                  paging_init_lem l.first_page_table m.paging virt h.aligned h.directory h.table
                    small in
                let same = rw e1 at there in same.1;
            gates = installed;
            segment = refl;
            inodes = started.inodes;
            at_root = started.at_root;
            files = started.valid;
          })

    -- `kmain` up to its loop returns, from objects of the right sizes, a disk that holds a tree, any
    -- screen and any bus that follows the documentation, whose UHCI controllers have ports apart from
    -- those of the configuration mechanism: the page tables map the first 4 MiB to themselves and
    -- nothing else, the gates of the interrupts are installed, the task state segment is ready, the
    -- current directory is the root of the tree that the disk holds, and the state of the loop is
    -- valid.
    pub kmain_start_lem :
        (l : Layout) (cmd : List ℕ) (m : Machine p) (a : List Inode)
        → IsStart l m a
        → length cmd ≡ max_command_len
        → Returns
            (λ (out : Machine p × Shell).
              IsReady l a out.0 × IsShell out.1 × (out.1.vfs ≡ out.0.vfs))
            (kmain_start p l cmd m)
    unfolding kmain_start
    kmain_start_lem l cmd m a h room =
        let (s0, e0, cleaned) =
          Returns-elim Cleaned (kclean_display m.vfs.screen)
            (kclean_display_lem m.vfs.screen h.cells) in
        let v0 : Safety.IsValid s0 = record {
          size = cleaned.size;
          column = omega (arith, cleaned.home_x);
          row = omega (arith, cleaned.home_y);
        } in
        let m0 = record m { vfs = record (m.vfs) { screen = s0 } } in
        let (m1, e1, r) =
          Returns-elim (IsReady l a) (kinit p l m0)
            (kinit_lem l m0 a (cleared-IsStart l m a s0 h cleaned.size) v0) in
        let (s2, e2, v2) =
          Returns-elim _ (greet m1.vfs.screen) (greet-IsValid m1.vfs.screen r.files.screen) in
        let files : IsValid (record (m1.vfs) { screen = s2 }) = record {
          inodes = r.files.inodes;
          tree = r.files.tree;
          here = r.files.here;
          descriptors = r.files.descriptors;
          closed = r.files.closed;
          screen = v2;
        } in
        rw (e0, e1, e2)
          (
            record {
              pages = r.pages;
              identity = r.identity;
              gates = r.gates;
              segment = r.segment;
              inodes = r.inodes;
              at_root = r.at_root;
              files = files;
            },
            record {
              files = files;
              ready = record {
                screen_valid = v2;
                inside = omega arith;
                room = omega (arith, room);
                no_nul = tt;
              };
            },
            refl,
          )
