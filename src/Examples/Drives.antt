-- ===== src/Examples/Drives.antt =====
-- The theorems about the drive, at a small one.
use Prim.Native.Nat.{bit_and}
use anaga.Prelude.{
  ap, ◌∙◌, ℕ, suc, ◌≤◌, ◌≡◌, ◌≢◌, refl, List, [], ◌∷◌, Bool, true, false, some, ◌==◌, arith, length,
  replicate, length-replicate, ne→==,
}
use anaga.Ports.{Ports}
use anaga.Disk
use anaga.Drive.{drive_read_sector, drive_write_sector}
use anaga.Drive.Protocol.{Phase, sending, receiving, Ata, write_register, take_word, IsAta}
use anaga.Drive.Transfer.{bytes_of, disk_of, drive_read_sector_lem, drive_write_sector_lem}

-- A drive that is busy for one poll behind each command.
record SmallDrive : Type 0 where
  ata : Ata
  busy : Bool

abbrev asks : Phase → Bool
asks (sending []) = false
asks (sending (w ∷ ws)) = true
asks (receiving lba ws) = true

abbrev status : Bool → Bool → ℕ
status true asking = 0x80
status false true = 0x58
status false false = 0x50

abbrev read_data : SmallDrive → Phase → ℕ × SmallDrive
read_data d (sending []) = (0xffff, d)
read_data d (sending (w ∷ ws)) = (w, record d { ata = record (d.ata) { phase = sending ws } })
read_data d (receiving lba ws) = (0xffff, d)

abbrev write_data : SmallDrive → ℕ → Phase → SmallDrive
write_data d v (sending ws) = d
write_data d v (receiving lba ws) = record d {
  ata = take_word lba ws v d.ata;
  busy = length ws == 255;
}

abbrev small_ports : Ports
small_ports = record {
  Device = SmallDrive;
  inb = λ port d. (status d.busy (asks d.ata.phase), record d { busy = false });
  outb = λ port v d. record d { ata = write_register port v d.ata; busy = port == 0x1F7 };
  inw = λ port d. read_data d d.ata.phase;
  outw = λ port v d. write_data d v d.ata.phase;
  inl = λ port d. (0xffffffff, d);
  outl = λ port v d. d;
}

abbrev delay_of : Bool → ℕ
delay_of true = 1
delay_of false = 0

delay_of-le : (b : Bool) → delay_of b ≤ 1
delay_of-le true = omega arith
delay_of-le false = omega arith

status_busy : (b a : Bool) (n : ℕ) → delay_of b ≡ suc n → bit_and (status b a) 0x80 ≢ 0
status_busy true a n e = λ z. omega arith
status_busy false a n e = absurd (omega arith)

status_ready : (b a : Bool) → delay_of b ≡ 0 → bit_and (status b a) 0x80 ≡ 0
status_ready true a e = absurd (omega arith)
status_ready false true e = refl
status_ready false false e = refl

status_asks : (b a : Bool) → delay_of b ≡ 0 → a ≡ true → bit_and (status b a) 0x08 ≢ 0
status_asks true a e k = absurd (omega arith)
status_asks false true e k = λ z. omega arith
status_asks false false e k = cc

polled_once : (b : Bool) (n : ℕ) → delay_of b ≡ suc n → 0 ≡ n
polled_once true n e = omega arith
polled_once false n e = absurd (omega arith)

instance small_ports-IsAta : IsAta small_ports
small_ports-IsAta = record {
  view = λ d. d.ata;
  delay = λ d. delay_of d.busy;
  patience = 1;
  patient = λ d. delay_of-le d.busy;
  busy = λ d. status_busy d.busy (asks d.ata.phase);
  ready = λ d. status_ready d.busy (asks d.ata.phase);
  polled = λ d. polled_once d.busy;
  polled_ready = λ d e. refl;
  status_keeps = λ d. refl;
  asks_read = λ d w ws r e. status_asks d.busy (asks d.ata.phase) r (ap asks e);
  asks_write = λ d lba ws r e. status_asks d.busy (asks d.ata.phase) r (ap asks e);
  register = λ d port v r. refl;
  register_ready = λ d port v ne r. ap delay_of (ne→== port 0x1F7 ne);
  sends = λ d w ws r e.
      let k = ap (read_data d) e in
      (ap (λ t. t.0) k, ap (λ t. t.1.ata) k, ap (λ t. delay_of t.1.busy) k ∙ r);
  receives = λ d lba ws v r e. ap (λ t. t.ata) (ap (write_data d v) e);
  receives_ready = λ d lba ws v r e h.
      ap (λ t. delay_of t.busy) (ap (write_data d v) e)
      ∙ ap delay_of (ne→== (length ws) 255 (λ z. omega arith));
}

-- The first drive of a machine that has just started.
abbrev idle_drive : SmallDrive
idle_drive = record {
  ata = record {
    sectors = λ k. replicate 256 7;
    count = 0;
    low = 0;
    mid = 0;
    high = 0;
    select = 0;
    phase = sending [];
  };
  busy = true;
}

drive_read_sector_example :
    (out : List ℕ) × (d' : SmallDrive) × (drive_read_sector small_ports 2 5
        (replicate 256 0)
        idle_drive
      ≡ some (out, d'))
    × (bytes_of out ≡ Disk.drive_read_sector 5 (disk_of small_ports small_ports-IsAta idle_drive))
    × (disk_of small_ports small_ports-IsAta d' ≡ disk_of small_ports small_ports-IsAta idle_drive)
unfolding small_ports-IsAta
drive_read_sector_example =
    drive_read_sector_lem small_ports small_ports-IsAta 2 5 (replicate 256 0) idle_drive
      (omega arith) (omega arith) (length-replicate 256 0) (length-replicate 256 7)

drive_write_sector_example :
    (d' : SmallDrive) × (drive_write_sector small_ports 2 5 (replicate 256 9) idle_drive ≡ some d')
    × (disk_of small_ports small_ports-IsAta d'
        ≡ Disk.drive_write_sector 5
            (bytes_of (replicate 256 9))
            (disk_of small_ports small_ports-IsAta idle_drive))
unfolding small_ports-IsAta
drive_write_sector_example =
    drive_write_sector_lem small_ports small_ports-IsAta 2 5 (replicate 256 9) idle_drive
      (omega arith) (omega arith) (length-replicate 256 9)
