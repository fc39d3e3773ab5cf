-- ===== src/Drive.antt =====
-- drivers/drive/drive.h and drive.c: the transfer of sectors through the ports of an ATA drive. A loop
-- that waits for the drive has a number of polls for fuel, and is `none` where they do not suffice.
pub mod Protocol
pub mod Access
pub mod Transfer
use Prim.Native.Nat.{bit_and, bit_or}
use anaga.Prelude.{
  ℕ, zero, suc, ◌+◌, ◌/◌, ◌%◌, ◌^◌, List, Option, none, some, true, false, ◌==◌, ◌>>=◌, get_elem?,
  store, literal,
}
use anaga.Display.{Screen, kprint}
use anaga.Ports.{Ports}

abbrev pub ata_data : ℕ
ata_data = 0x1F0

abbrev pub ata_sector_count : ℕ
ata_sector_count = 0x1F2

abbrev pub ata_lba_low : ℕ
ata_lba_low = 0x1F3

abbrev pub ata_lba_mid : ℕ
ata_lba_mid = 0x1F4

abbrev pub ata_lba_high : ℕ
ata_lba_high = 0x1F5

abbrev pub ata_drive_select : ℕ
ata_drive_select = 0x1F6

abbrev pub ata_status : ℕ
ata_status = 0x1F7

abbrev pub ata_command : ℕ
ata_command = 0x1F7

abbrev pub ata_cmd_read : ℕ
ata_cmd_read = 0x20

abbrev pub ata_cmd_write : ℕ
ata_cmd_write = 0x30

abbrev pub ata_status_bsy : ℕ
ata_status_bsy = 0x80

abbrev pub ata_status_drq : ℕ
ata_status_drq = 0x08

abbrev pub ata_drive_master : ℕ
ata_drive_master = 0xA0

abbrev pub ata_drive_lba_mode : ℕ
ata_drive_lba_mode = 0xE0

module _ (p : Ports) where
  open p use {Device, inb, outb, inw, outw}

  unfoldable pub ata_wait_bsy : ℕ → Device → Option Device
  ata_wait_bsy zero d = none
  ata_wait_bsy (suc polls) d =
      let (status, d') = inb ata_status d in
      let again = ata_wait_bsy polls d' in
      elim (bit_and status ata_status_bsy == 0) [ true ↦ some d' | false ↦ again ]

  unfoldable pub ata_wait_drq : ℕ → Device → Option Device
  ata_wait_drq zero d = none
  ata_wait_drq (suc polls) d =
      let (status, d') = inb ata_status d in
      let again = ata_wait_drq polls d' in
      elim (bit_and status ata_status_drq == 0) [ true ↦ again | false ↦ some d' ]

  unfoldable pub drive_init : Device → Screen → Option (Device × Screen)
  drive_init d s = do
    s ← kprint (some (literal "ATA Drive initializing...\n")) s
    let d = outb ata_drive_select ata_drive_master d
    s ← kprint (some (literal "ATA Drive initialized (Master)\n")) s
    some (d, s)

  -- The writes to the registers, which a read and a write of a sector share but for the command.
  unfoldable pub send_command : ℕ → ℕ → Device → Device
  send_command command lba d =
      let d = outb ata_drive_select (bit_or ata_drive_lba_mode (bit_and (lba / 2 ^ 24) 0x0F)) d in
      let d = outb ata_sector_count 1 d in
      let d = outb ata_lba_low (lba % 2 ^ 8) d in
      let d = outb ata_lba_mid (lba / 2 ^ 8 % 2 ^ 8) d in
      let d = outb ata_lba_high (lba / 2 ^ 16 % 2 ^ 8) d in outb ata_command command d

  -- `buffer[i] = inw(ATA_DATA)`, `n` rounds from `i` on
  unfoldable pub read_words : ℕ → ℕ → List ℕ → Device → Option (List ℕ × Device)
  read_words zero i buffer d = some (buffer, d)
  read_words (suc n) i buffer d =
      let (word, d') = inw ata_data d in
      store buffer i word >>= λ buffer. read_words n (i + 1) buffer d'

  unfoldable pub drive_read_sector : ℕ → ℕ → List ℕ → Device → Option (List ℕ × Device)
  drive_read_sector polls lba buffer d = do
    d ← ata_wait_bsy polls d
    d ← ata_wait_bsy polls (send_command ata_cmd_read lba d)
    d ← ata_wait_drq polls d
    read_words 256 0 buffer d

  -- `outw(ATA_DATA, buffer[i])`
  unfoldable pub write_words : ℕ → ℕ → List ℕ → Device → Option Device
  write_words zero i buffer d = some d
  write_words (suc n) i buffer d =
      get_elem? buffer i >>= λ word. write_words n (i + 1) buffer (outw ata_data word d)

  unfoldable pub drive_write_sector : ℕ → ℕ → List ℕ → Device → Option Device
  drive_write_sector polls lba buffer d = do
    d ← ata_wait_bsy polls d
    d ← ata_wait_bsy polls (send_command ata_cmd_write lba d)
    d ← ata_wait_drq polls d
    write_words 256 0 buffer d
