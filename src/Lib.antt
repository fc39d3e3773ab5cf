-- ===== src/Lib.antt =====
-- The verification of the anaga kernel: its strings, its heap, its text display, its keyboard and
-- line input, its files and directories on a disk, its commands and the shell that reads them, its
-- system calls, its paging, segments and interrupts, and the drivers of its devices.
--
-- How the parts of the program work together. The functions of include/string.h are used
-- everywhere. display/display.c writes characters into the VGA text buffer and prints numbers
-- with them. drivers/keyboard/keyboard.c turns scancodes into characters, from which
-- io/kinput.c builds the line that is typed, echoing it with kputc. fs/file.c keeps files and
-- directories in an array of 32 inodes that its caller passes, and a table of 32 open files.
-- fs/vfs.c owns the inode array and the current directory, loads and stores them through
-- drivers/drive, and prints its messages on the display. drivers/command parses a line and runs
-- the command it names. kernel/main.c loops: it polls a key, and hands each line that is
-- complete to drivers/command. syscall/syscall.c dispatches system calls, of which write prints
-- on the display. include/stdlib.h is the kernel's heap. mm, interrupts and system set up the
-- processor and the machine, drivers/pci finds the devices and starts drivers/usb and
-- drivers/network, and drivers/drive moves sectors; all of these use the ports of io/io.h.
--
-- The files:
-- Prelude: shared tests, lists as C arrays, and results that may be undefined.
-- CString: include/string.h. Text: the text of a C string. Compare, Copy, Nul: what the
--   functions do on texts and objects.
-- Display: display/display.c. Scroll, Safety, Typing, Digits, Numbers: scrolling, memory
--   safety, typing and erasing, numerals. Printf: kprintf; Format, Conversions, Expansion: what
--   a format stands for and that it is printed. Lines: calls one after another.
-- Keyboard: drivers/keyboard. Keyboard/Wait: the wait for a key. Input: io/kinput.c; Input/Line,
--   Input/Poll: the line editor.
-- Heap: include/stdlib.h. Heap/Layout: kmalloc; Heap/Free: kfree.
-- File: fs/file.h and fs/file.c. Valid: the invariants. Search, Lookup, NewInode, Create,
--   Added, Session: searching and creating. Descriptors, Transfer: open files.
-- Disk: vfs_load and vfs_sync of fs/vfs.c. Sync, Sectors, Image, Load: what they write and
--   read back. Vfs: its other functions. Tree: the inodes as a tree; Valid: the invariant;
--   Create, Mkdir, Navigate: vfs_touch, vfs_mkdir, vfs_cd; Print, Cat: vfs_ls, vfs_pwd,
--   vfs_cat; Init: vfs_init.
-- Syscall: syscall/syscall.c. Syscall/Dispatch: what each call does.
-- Version: version/version.h and version/version.c.
-- Command: drivers/command/command.c. Command/Parse: the words of a command line; Printing,
--   Safety: the commands keep the state valid; Dispatch: the choice of the command; Run: the
--   rest of run.
-- Kernel: kinit, and kmain up to its loop and at a scancode, in kernel/main.c. Kernel/Boot: what
--   the start leaves; Kernel/Loop: what each key does.
-- Elf: fs/elf.h and fs/elf.c. Elf/Missing: a load that fails.
-- Paging: mm/paging.h and mm/paging.c. Identity, Map: the addresses after paging_init and after
--   paging_map_page. Tss: mm/tss.h and mm/tss.c. Tss/Fields: the bytes of the segment.
-- Interrupts: interrupts/idt.h and interrupts/idt.c. Interrupts/Gates: the table.
-- Exception: interrupts/exception.c. Exception/Panic: what a panic prints.
-- Ports: io/io.h, the interface of the drivers to the devices.
-- Drive: drivers/drive/drive.h and drive.c. Protocol: what an ATA drive does at its ports;
--   Access: a command to it; Transfer: the sectors that are read and written.
-- Pci: drivers/pci/pci.c, pci_defs.h and vendor.h. Config: what the configuration space does at
--   the ports; Listing: what a scan lists; Fit, Reports, Devices, Scan: that it does.
-- Usb: drivers/usb. E1000: drivers/network. E1000/Rings: the rings after e1000_init.
-- System: system/system.h and system.c. Tables, Sleep: the searches in the tables of the
--   firmware; Power: shutdown and restart; Timer: the wait.
-- Examples: concrete states, and the theorems at them.
--
-- How state and operations correspond. A definition has the name of the C function it models,
-- and smaller definitions are named loops, branches or repeated statements of it, which a
-- comment quotes. Global variables are arguments and results: vga, cursor_x and cursor_y are a
-- Screen, the inode array and the descriptor table are lists, the current directory, these two,
-- the screen and the disk are a Vfs, the static index of input_poll is in a Terminal, and a
-- Shell has both with the array of kmain that they share. A function that accesses memory
-- returns an Option: none is an access outside the object that the code works on, which C
-- leaves undefined, or a NULL pointer used. A theorem of the form Returns P (f x) says that f x
-- is not none and its result satisfies P. Signed integers are values of a type of integers,
-- unsigned ones natural numbers with the wrap at 2 ^ 32 written out where the code can reach
-- it. Loops are structural: over the bytes of an object, or over a number of rounds that the
-- code's bound gives. The loop of vfs_pwd has the 32 words of its array for fuel: there are 32
-- inodes, and each was made in a directory with a smaller number. A loop that waits for a device
-- has a number of polls for fuel, and its theorem a device that is busy for fewer; system_wait
-- has the interrupts that end its halts.
--
-- Devices. The six instructions of io/io.h are the record Ports: a state of the devices, and a
-- function for each instruction. What the answers are is open; a theorem that depends on it takes
-- a record of laws, which say what the documentation of the device says: IsPci, IsAta,
-- TakesCommands and HasKeys. A round of the loop of kmain has the scancode that get_scancode
-- gives as an argument. The file system has the drive as a function from sector numbers to bytes that
-- drive_read_sector reads and drive_write_sector replaces; Drive/Transfer proves that the code
-- at the ports of an ATA drive does that.
--
-- What is not modelled. Assembly: the loads of control registers and of descriptor tables, cpuid,
-- hlt, the entry points of isr.asm, process_exec and the system calls of the user programs; what
-- they give is an argument where the code uses it. A halt for ever is the end of a run. The
-- commands run, poweroff and reboot hand over to another part of the kernel: handle_command
-- returns which, with the state. run_file of Command/Run goes on with elf_load and returns to the
-- shell where that fails; system_shutdown and system_reboot go on with the others. The loop of
-- kmain is modelled as a round at a scancode, up to such a command. What the local array of vfs_cat holds at
-- first is an argument, since C leaves it undefined.
pub mod CString
pub mod Command
pub mod Disk
pub mod Display
pub mod Drive
pub mod E1000
pub mod Elf
pub mod Examples
pub mod Exception
pub mod File
pub mod Heap
pub mod Input
pub mod Kernel
pub mod Keyboard
pub mod Prelude
pub mod Syscall
pub mod System
pub mod Usb
pub mod Version
pub mod Vfs
pub mod Paging
pub mod Interrupts
pub mod Pci
pub mod Ports
pub mod Tss
