-- ===== src/Examples/Boot.antt =====
-- The theorems about the start of the kernel, at a machine with a network card and a disk with nothing
-- but the root directory.
use anaga.Prelude.{
  ℕ, ◌≡◌, refl, sym, subst, List, some, replicate, length-replicate, Returns, Returns-elim,
}
use anaga.Display.{blank}
use anaga.E1000.Rings.{empty_rx, empty_tx}
use anaga.Disk.{Disk, vfs_load, vfs_sync}
use anaga.Disk.Load.{vfs_sync-load}
use anaga.Vfs.Init.{formatted}
use anaga.Vfs.Tree.{IsTree}
use anaga.Kernel.{Layout, Machine, Shell, max_command_len, kmain_start}
use anaga.Kernel.Loop.{IsShell}
use anaga.Kernel.Boot.{IsStart, IsReady, kmain_start_lem}
use anaga.Examples.State.{
  root_only, root_only-IsInodeArray, root_only-IsTree, closed_fds-IsFdTable, fresh, fresh-IsValid,
}
use anaga.Examples.Devices.{card_ports, card_ports-IsPci, scan_locals, started_bus}
use anaga.Examples.Machine.{entry_points, entry_points-AreWords, old_entry}

-- The disk that `vfs_sync` leaves.
root_disk :
    (disk : Disk) × (vfs_sync root_only fresh.disk ≡ some disk)
    × (vfs_load disk root_only ≡ some root_only)
root_disk =
    Returns-elim (λ (disk : Disk). vfs_load disk root_only ≡ some root_only)
      (vfs_sync root_only fresh.disk)
      (vfs_sync-load root_only root_only fresh.disk root_only-IsInodeArray root_only-IsInodeArray)

abbrev layout : Layout
layout = record {
  first_page_table = 0x8000;
  idt = 0x7000;
  stack_top = 0x9000;
  entry_points = entry_points;
  locals = scan_locals;
}

abbrev machine : Machine card_ports
machine = record {
  device = started_bus;
  paging = record { page_directory = replicate 1024 9; first_page_table = replicate 1024 9 };
  idt_ptr = record { limit = 0; base = 0 };
  idt = replicate 256 old_entry;
  tss = replicate 104 7;
  timer_ticks = 0;
  vfs = record fresh { disk = root_disk.0 };
}

root_only-formatted : formatted root_only ≡ root_only
unfolding formatted replicate
root_only-formatted = refl

machine-IsStart : IsStart card_ports layout machine root_only
machine-IsStart = record {
  directory = length-replicate {A = ℕ} 1024 9;
  table = length-replicate {A = ℕ} 1024 9;
  aligned = refl;
  gates = length-replicate 256 old_entry;
  entries = entry_points-AreWords;
  segment = length-replicate {A = ℕ} 104 7;
  rx = length-replicate 128 (record empty_rx { status = 7 });
  tx = length-replicate 128 (record empty_tx { cmd = 9 });
  cells = length-replicate 2000 blank;
  disk = root_disk.2;
  inodes = root_only-IsInodeArray;
  tree = subst IsTree (sym root_only-formatted) root_only-IsTree;
  descriptors = closed_fds-IsFdTable;
  closed = fresh-IsValid.closed;
}

abbrev line_array : List ℕ
line_array = replicate max_command_len 7

kmain_start_example :
    Returns
      (λ (out : Machine card_ports × Shell).
        IsReady card_ports layout root_only out.0 × IsShell out.1 × (out.1.vfs ≡ out.0.vfs))
      (kmain_start card_ports layout line_array machine)
kmain_start_example =
    kmain_start_lem card_ports card_ports-IsPci layout line_array machine root_only machine-IsStart
      (length-replicate {A = ℕ} max_command_len 7)
