-- ===== src/Examples/Devices.antt =====
-- The theorems about the devices, at a machine with a network card.
use anaga.Prelude.{
  ◌≢◌, ◌%◌, ◌/◌, ap, inl, inr, ne→==, ℕ, ◌^◌, ◌<◌, ◌≡◌, refl, List, [], ◌∷◌, ◌++◌, Bool-cases, some,
  ◌==◌, if◌then◌else◌, arith, replicate, length-replicate,
}
use anaga.Display.{Screen, put_all}
use anaga.Display.Safety
use anaga.Display.Lines.{Lines, words_sent}
use anaga.Ports.{Ports}
use anaga.E1000.{E1000RxDesc, E1000TxDesc, cleared, e1000_init}
use anaga.E1000.Rings.{AreEmpty, start_lines, on_rings, empty_rx, empty_tx, e1000_init_lem}
use anaga.Pci.{Locals, pci_scan}
use anaga.Pci.Config.{IsApart, IsPci, register}
use anaga.Pci.Listing.{bus_lines}
use anaga.Pci.Scan.{pci_scan_lem}
use anaga.Examples.State.{blank_screen, blank_screen-IsValid}

abbrev pub old_rx : List E1000RxDesc
old_rx = replicate 128 (record empty_rx { status = 7 })

abbrev pub old_tx : List E1000TxDesc
old_tx = replicate 128 (record empty_tx { cmd = 9 })

e1000_init_example :
    (rx' : List E1000RxDesc) × (tx' : List E1000TxDesc) × (out : List ℕ) × (s' : Screen) × AreEmpty
      rx' tx'
    × Lines (start_lines 0xfeb80000 0x90000 0x91000) out
    × (put_all out blank_screen ≡ some s')
    × Safety.IsValid s'
    × (e1000_init 0xfeb80000 (record {
      dev = some cleared;
      rx = some (0x90000, old_rx);
      tx = some (0x91000, old_tx);
      screen = blank_screen;
    })
        ≡ some (on_rings 0xfeb80000 0x90000 rx' 0x91000 tx' s'))
e1000_init_example =
    e1000_init_lem 0xfeb80000 0x90000 0x91000 cleared old_rx old_tx blank_screen
      (length-replicate 128 (record empty_rx { status = 7 }))
      (length-replicate 128 (record empty_tx { cmd = 9 })) blank_screen-IsValid

-- A bus with one card, which has an Intel network device; its first base address can be written.
pub record CardBus : Type 0 where
  pub address : ℕ
  pub bar : ℕ
  pub log : List (ℕ × ℕ)

abbrev pub card_space : ℕ → ℕ → ℕ
card_space bar a =
    if a == register 0 3 0 0x00
    then 0x100e8086
    else if a == register 0 3 0 0x10
    then bar % 2 ^ 32
    else 0xffffffff

-- A write to the data port
abbrev pub write_card : ℕ → CardBus → CardBus
write_card v d = if d.address == register 0 3 0 0x10 then record d { bar = v } else d

-- The mechanism remembers the address that was written last.
abbrev pub card_ports : Ports
card_ports = record {
  Device = CardBus;
  inb = λ port d. (0xff, d);
  outb = λ port v d. d;
  inw = λ port d. (0xffff, d);
  outw = λ port v d.
      let d = record d { log = d.log ++ (port, v) ∷ [] } in
      if port == 0xcfc then write_card v d else d;
  inl = λ port d. (if port == 0xcfc then card_space d.bar d.address else 0xffffffff, d);
  outl = λ port v d.
      if port == 0xcf8
      then record d { address = v }
      else if port == 0xcfc
      then write_card v d
      else d;
}

pub card_space-lt : (bar a : ℕ) → card_space bar a < 2 ^ 32
card_space-lt bar a = ground arith

-- No register with that offset has the class of a UHCI controller.
pub no_uhci :
    (bar bus slot func : ℕ) → card_space bar (register bus slot func 0x08) / 2 ^ 8 ≢ 0x0C0300
no_uhci bar bus slot func =
    rw
      (
        ne→== (register bus slot func 0x08) (register 0 3 0 0x00) (λ e. omega arith),
        ne→== (register bus slot func 0x08) (register 0 3 0 0x10) (λ e. omega arith),
      )
      (λ e. omega arith)

pub apart_card :
    (port v : ℕ) (d : CardBus) → IsApart port → (if port == 0xcfc then write_card v d else d) ≡ d
apart_card port v d (inl h) = rw (ne→== port 0xcfc (λ e. omega arith)) refl
apart_card port v d (inr h) = rw (ne→== port 0xcfc (λ e. omega arith)) refl

-- A write to a register is no entry of the log.
pub write_card-log :
    (port v : ℕ) (d : CardBus) → (if port == 0xcfc then write_card v d else d).log ≡ d.log
write_card-log port v d = elim (Bool-cases (port == 0xcfc)) [
  | inr h ↦ rw h refl
  | inl h ↦ elim (Bool-cases (d.address == register 0 3 0 0x10)) [
    | inl e ↦ rw (h, e) refl
    | inr e ↦ rw (h, e) refl
  ]
]

abbrev pub card_ports-IsPci : IsPci card_ports
card_ports-IsPci = record {
  config = λ d. card_space d.bar;
  read = λ d a. refl;
  word = λ d a. card_space-lt d.bar a;
  address_keeps = λ d a. refl;
  data_keeps = λ d. refl;
  apart_keeps = λ d port v h.
      ap (λ (e : CardBus). card_space e.bar)
        (apart_card port v (record d { log = d.log ++ (port, v) ∷ [] }) h);
  sent = λ d. d.log;
  address_sends = λ d a. refl;
  data_sends = λ d. refl;
  word_sends = λ d port v. write_card-log port v (record d { log = d.log ++ (port, v) ∷ [] });
  uhci_apart = λ d bus slot func class. absurd (no_uhci d.bar bus slot func class);
}

abbrev pub started_bus : CardBus
started_bus = record { address = 0; bar = 0xfeb80000; log = [] }

abbrev pub scan_locals : Locals
scan_locals = record {
  dev = cleared;
  rx_addr = 0x90000;
  rx = old_rx;
  tx_addr = 0x91000;
  tx = old_tx;
}

pci_scan_example :
    (d' : CardBus) × (out : List ℕ) × (s' : Screen) × (card_ports-IsPci.config d'
      ≡ card_ports-IsPci.config started_bus)
    × (d'.log ≡ words_sent (bus_lines 0x90000 0x91000 (card_space 0xfeb80000)))
    × Lines (bus_lines 0x90000 0x91000 (card_space 0xfeb80000)) out
    × (put_all out blank_screen ≡ some s')
    × Safety.IsValid s'
    × (pci_scan card_ports scan_locals started_bus blank_screen ≡ some (d', s'))
pci_scan_example =
    pci_scan_lem card_ports card_ports-IsPci scan_locals started_bus blank_screen
      (length-replicate 128 (record empty_rx { status = 7 }))
      (length-replicate 128 (record empty_tx { cmd = 9 })) blank_screen-IsValid
