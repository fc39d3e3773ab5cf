-- ===== src/Drive/Access.antt =====
-- A command to the drive: the waits, and the registers that the code sets.
use Prim.Native.Nat.{bit_and, bit_or}
use anaga.Prelude.{
  ℕ, zero, suc, ◌+◌, ◌*◌, ◌/◌, ◌%◌, ◌^◌, ◌<◌, ◌≡◌, ◌≢◌, ◌∙◌, refl, ap, [], some, arith, eq→==,
  ne→==,
}
use anaga.Prelude.Bits.{bit_or-split, bit_and-low, zero-bit_or, bit_or-zero}
use anaga.Ports.{Ports}
use anaga.Drive.{ata_wait_bsy, ata_wait_drq, send_command}
use anaga.Drive.Protocol.{sending, receiving, Ata, chosen, command, write_register, IsAta}

-- What the code writes to the register that selects the drive.
abbrev select_of : ℕ → ℕ
select_of lba = bit_or 0xE0 (bit_and (lba / 2 ^ 24) 0x0F)

select_value : (lba : ℕ) → select_of lba ≡ 0xE0 + lba / 2 ^ 24 % 16
select_value lba =
    let x = lba / 2 ^ 24 % 16 in
    ap (bit_or 0xE0) (bit_and-low 4 (lba / 2 ^ 24))
    ∙ ap (bit_or 0xE0) (let e : x ≡ 0 * 2 ^ 4 + x = omega arith in e)
    ∙ bit_or-split 4 14 0 0 x (omega arith) (omega arith)
    ∙ omega (arith, bit_or-zero 14, zero-bit_or x)

-- The registers that the code sets in front of a command.
abbrev pub addressed : ℕ → Ata → Ata
addressed lba a = record a {
  count = 1;
  low = lba % 2 ^ 8;
  mid = lba / 2 ^ 8 % 2 ^ 8;
  high = lba / 2 ^ 16 % 2 ^ 8;
  select = select_of lba;
}

chosen_lem : (lba : ℕ) (a : Ata) → lba < 2 ^ 28 → chosen (addressed lba a) ≡ lba
chosen_lem lba a h = omega (arith, select_value lba)

pub command_read :
    (lba : ℕ) (a : Ata)
    → lba < 2 ^ 28
    → command 0x20 (addressed lba a) ≡ record (addressed lba a) { phase = sending (a.sectors lba) }
command_read lba a h =
    let s = select_value lba in
    rw
      (
        eq→== (select_of lba / 2 ^ 6 % 2) 1 (omega arith),
        eq→== (select_of lba / 2 ^ 4 % 2) 0 (omega arith),
        chosen_lem lba a h,
      )
      refl

pub command_write :
    (lba : ℕ) (a : Ata)
    → lba < 2 ^ 28
    → command 0x30 (addressed lba a) ≡ record (addressed lba a) { phase = receiving lba [] }
command_write lba a h =
    let s = select_value lba in
    rw
      (
        eq→== (select_of lba / 2 ^ 6 % 2) 1 (omega arith),
        eq→== (select_of lba / 2 ^ 4 % 2) 0 (omega arith),
        chosen_lem lba a h,
      )
      refl

module _ (p : Ports) (c : IsAta p) where
  open c use {view, delay}

  wait_bsy_lem :
      (polls n : ℕ) (d : p.Device)
      → delay d ≡ n
      → n < polls
      → (d' : p.Device) × (ata_wait_bsy p polls d ≡ some d') × (view d' ≡ view d) × (delay d' ≡ 0)
  unfolding ata_wait_bsy
  wait_bsy_lem zero n d e h = absurd (omega arith)
  wait_bsy_lem (suc polls) zero d e h = (
    (p.inb 0x1F7 d).1,
    rw (eq→== (bit_and (p.inb 0x1F7 d).0 0x80) 0 (c.ready d e), ata_wait_bsy) refl,
    c.status_keeps d,
    c.polled_ready d e,
  )
  wait_bsy_lem (suc polls) (suc n) d e h =
      let (d', f, v, r) = wait_bsy_lem polls n (p.inb 0x1F7 d).1 (c.polled d n e) (omega arith) in
      (
        d',
        rw (ne→== (bit_and (p.inb 0x1F7 d).0 0x80) 0 (c.busy d n e), ata_wait_bsy) f,
        v ∙ c.status_keeps d,
        r,
      )

  -- A drive that is not busy and asks for a transfer ends the second wait at once.
  pub wait_drq_lem :
      (polls : ℕ) (d : p.Device)
      → 0 < polls
      → bit_and (p.inb 0x1F7 d).0 0x08 ≢ 0
      → ata_wait_drq p polls d ≡ some (p.inb 0x1F7 d).1
  unfolding ata_wait_drq
  wait_drq_lem zero d h ne = absurd (omega arith)
  wait_drq_lem (suc polls) d h ne =
      rw (ne→== (bit_and (p.inb 0x1F7 d).0 0x08) 0 ne, ata_wait_drq) refl

  -- One register.
  set_register :
      (d : p.Device) (a : Ata) (port v : ℕ)
      → port ≢ 0x1F7
      → (view d ≡ a) × (delay d ≡ 0)
      → (view (p.outb port v d) ≡ write_register port v a) × (delay (p.outb port v d) ≡ 0)
  set_register d a port v ne (e, r) =
      (c.register d port v r ∙ ap (write_register port v) e, c.register_ready d port v ne r)

  send_command_lem :
      (v lba : ℕ) (d : p.Device)
      → delay d ≡ 0
      → view (send_command p v lba d) ≡ command v (addressed lba (view d))
  unfolding send_command
  send_command_lem v lba d r =
      let d1 = p.outb 0x1F6 (select_of lba) d in
      let d2 = p.outb 0x1F2 1 d1 in
      let d3 = p.outb 0x1F3 (lba % 2 ^ 8) d2 in
      let d4 = p.outb 0x1F4 (lba / 2 ^ 8 % 2 ^ 8) d3 in
      let d5 = p.outb 0x1F5 (lba / 2 ^ 16 % 2 ^ 8) d4 in
      let e1 = set_register d (view d) 0x1F6 (select_of lba) (λ e. omega arith) (refl, r) in
      let e2 = set_register d1 _ 0x1F2 1 (λ e. omega arith) e1 in
      let e3 = set_register d2 _ 0x1F3 (lba % 2 ^ 8) (λ e. omega arith) e2 in
      let e4 = set_register d3 _ 0x1F4 (lba / 2 ^ 8 % 2 ^ 8) (λ e. omega arith) e3 in
      let e5 = set_register d4 _ 0x1F5 (lba / 2 ^ 16 % 2 ^ 8) (λ e. omega arith) e4 in
      c.register d5 0x1F7 v e5.1 ∙ ap (write_register 0x1F7 v) e5.0

  -- A command: the wait, the registers and the wait behind them.
  pub command_lem :
      (v polls lba : ℕ) (d : p.Device)
      → c.patience < polls
      → (d1 : p.Device) × (d2 : p.Device) × (ata_wait_bsy p polls d ≡ some d1)
        × (ata_wait_bsy p polls (send_command p v lba d1) ≡ some d2)
        × (view d2 ≡ command v (addressed lba (view d)))
        × (delay d2 ≡ 0)
  command_lem v polls lba d h =
      let (d1, e1, v1, r1) = wait_bsy_lem polls (delay d) d refl (omega (arith, c.patient d)) in
      let sent = send_command p v lba d1 in
      let (d2, e2, v2, r2) =
        wait_bsy_lem polls (delay sent) sent refl (omega (arith, c.patient sent)) in
      (
        d1,
        d2,
        e1,
        e2,
        v2 ∙ send_command_lem v lba d1 r1 ∙ ap (λ a. command v (addressed lba a)) v1,
        r2,
      )
