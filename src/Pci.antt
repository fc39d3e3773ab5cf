-- ===== src/Pci.antt =====
-- drivers/pci/pci_defs.h, vendor.h and pci.c: the scan of the PCI bus, through the ports of the
-- configuration mechanism.
pub mod Config
pub mod Listing
pub mod Fit
pub mod Reports
pub mod Devices
pub mod Scan
use Prim.Native.Nat.{bit_and, bit_or}
use anaga.Prelude.{
  ℕ, zero, suc, ◌+◌, ◌*◌, ◌/◌, ◌%◌, ◌^◌, List, [], ◌∷◌, Option, none, some, Bool, true, false, not,
  ◌||◌, ◌==◌, if◌then◌else◌, ◌>>=◌, literal, ℤ, pos, negsuc,
}
use anaga.Display.{Screen, kprint}
use anaga.Display.Printf.{word, kprintf}
use anaga.Ports.{Ports}
use anaga.Usb.{UsbControllerType, uhci, ohci, ehci, xhci, usb_init}
use anaga.E1000.{E1000, E1000RxDesc, E1000TxDesc, Network, e1000_init}

abbrev pub max_pci_bus : ℕ
max_pci_bus = 256

abbrev pub max_pci_slot : ℕ
max_pci_slot = 32

abbrev pub pci_multifunction_flag : ℕ
pci_multifunction_flag = 0x80

abbrev pub pci_header_type : ℕ
pci_header_type = 0x0E

abbrev pub pci_bar1 : ℕ
pci_bar1 = 0x14

abbrev pub pci_config_addr : ℕ
pci_config_addr = 0xCF8

abbrev pub pci_config_data : ℕ
pci_config_data = 0xCFC

abbrev pub pci_vendor_id : ℕ
pci_vendor_id = 0x00

abbrev pub pci_class_revision : ℕ
pci_class_revision = 0x08

abbrev pub pci_bar0 : ℕ
pci_bar0 = 0x10

abbrev pub pci_class_serial : ℕ
pci_class_serial = 0x0C

abbrev pub pci_subclass_usb : ℕ
pci_subclass_usb = 0x03

abbrev pub pci_vendor_none : ℕ
pci_vendor_none = 0xFFFF

abbrev pub pci_bar_io_mask : ℕ
pci_bar_io_mask = 0xFFFFFFFC

abbrev pub pci_vendor_intel : ℕ
pci_vendor_intel = 0x8086

abbrev pub e1000_dev_82540em : ℕ
e1000_dev_82540em = 0x100E

abbrev pub e1000_dev_82545em : ℕ
e1000_dev_82545em = 0x100F

abbrev pub e1000_dev_82543gc : ℕ
e1000_dev_82543gc = 0x1004

abbrev pub e1000_dev_82574l : ℕ
e1000_dev_82574l = 0x10D3

abbrev pub e1000_dev_i217 : ℕ
e1000_dev_i217 = 0x153A

-- `switch (prog_if)`; `none` is the default.
unfoldable pub usb_type : ℕ → Option UsbControllerType
usb_type prog_if =
    if prog_if == 0x00
    then some uhci
    else if prog_if == 0x10
    then some ohci
    else if prog_if == 0x20
    then some ehci
    else if prog_if == 0x30
    then some xhci
    else none

-- The `address` of `pci_read_config`
unfoldable pub config_address : ℕ → ℕ → ℕ → ℕ → ℕ
config_address bus slot func offset =
    bit_or
      (bit_or (bit_or (bit_or (bus * 2 ^ 16) (slot * 2 ^ 11)) (func * 2 ^ 8)) (bit_and offset 0xFC))
      0x80000000

unfoldable pub is_qemu_network_device : ℕ → ℕ → Bool
is_qemu_network_device vendor device =
    if vendor == pci_vendor_intel
    then device == e1000_dev_82540em
      || device == e1000_dev_82545em
      || device == e1000_dev_82543gc
      || device == e1000_dev_82574l
      || device == e1000_dev_i217
    else false

-- The format of the message of `switch (device)`; `none` is the default.
unfoldable pub found_format : ℕ → Option (List ℕ)
found_format device =
    if device == e1000_dev_82540em
    then some (literal "Found Intel 82540EM at bus %d, slot %d, func %d\n")
    else if device == e1000_dev_82545em
    then some (literal "Found Intel 82545EM at bus %d, slot %d, func %d\n")
    else if device == e1000_dev_82543gc
    then some (literal "Found Intel 82543GC at bus %d, slot %d, func %d\n")
    else if device == e1000_dev_82574l
    then some (literal "Found Intel 82574L at bus %d, slot %d, func %d\n")
    else if device == e1000_dev_i217
    then some (literal "Found Intel I217 at bus %d, slot %d, func %d\n")
    else none

unfoldable pub mmio_base_of : ℕ → ℕ → ℕ
mmio_base_of bar0 bar1 =
    if bit_and bar0 0x1 == 0
    then bit_or (bit_and bar0 0xFFFFFFF0) (bit_and bar1 0xFFFFFFFF * 2 ^ 32)
    else bit_and bar0 0xFFFFFFFC

-- The local variables of `pci_handle_network`: where its arrays stand, and what they hold at first.
pub record Locals : Type 0 where
  pub dev : E1000
  pub rx_addr : ℕ
  pub rx : List E1000RxDesc
  pub tx_addr : ℕ
  pub tx : List E1000TxDesc

-- The call of `e1000_init` and what follows it
unfoldable pub start_network : Locals → ℕ → Screen → Option Screen
start_network l mmio_base s = do
  (ret, n) ← e1000_init mmio_base (record {
    dev = some l.dev;
    rx = some (l.rx_addr, l.rx);
    tx = some (l.tx_addr, l.tx);
    screen = s;
  })
  elim ret [
    | pos zero ↦ kprint (some (literal "e1000 initialized successfully\n")) n.screen
    | _ ↦ kprint (some (literal "Failed to initialize e1000\n")) n.screen
  ]

module _ (p : Ports) where
  open p use {Device, inl, outl}

  unfoldable pub pci_read_config : ℕ → ℕ → ℕ → ℕ → Device → ℕ × Device
  pci_read_config bus slot func offset d =
      inl pci_config_data (outl pci_config_addr (config_address bus slot func offset) d)

  unfoldable pub pci_device_exists : ℕ → ℕ → ℕ → Device → Bool × Device
  pci_device_exists bus slot func d =
      let (vendor_device, d) = pci_read_config bus slot func pci_vendor_id d in
      (not (bit_and vendor_device 0xFFFF == pci_vendor_none), d)

  -- `pci_handle_usb` behind its test of the class
  unfoldable pub handle_controller :
      Option UsbControllerType → ℕ → Device → Screen → Option (Device × Screen)
  handle_controller none base_addr d s = some (d, s)
  handle_controller (some type) base_addr d s = usb_init p type base_addr d s

  unfoldable pub pci_handle_usb : ℕ → ℕ → ℕ → Device → Screen → Option (Device × Screen)
  pci_handle_usb bus slot func d s =
      let (class_rev, d) = pci_read_config bus slot func pci_class_revision d in
      let base_class = bit_and (class_rev / 2 ^ 24) 0xFF in
      let sub_class = bit_and (class_rev / 2 ^ 16) 0xFF in
      let prog_if = bit_and (class_rev / 2 ^ 8) 0xFF in
      if not (base_class == pci_class_serial) || not (sub_class == pci_subclass_usb)
      then some (d, s)
      else (let (bar0, d) = pci_read_config bus slot func pci_bar0 d in
          handle_controller (usb_type prog_if) (bit_and bar0 pci_bar_io_mask) d s)

  unfoldable pub pci_print_device : ℕ → ℕ → ℕ → Device → Screen → Option (Device × Screen)
  pci_print_device bus slot func d s =
      let (vd, d) = pci_read_config bus slot func pci_vendor_id d in
      let vendor = bit_and vd 0xFFFF in
      let device = bit_and (vd / 2 ^ 16) 0xFFFF in
      kprintf (literal "PCI Device: bus=%d slot=%d func=%d vendor=0x%x device=0x%x\n")
        (word bus ∷ word slot ∷ word func ∷ word vendor ∷ word device ∷ []) s
      >>= λ s. some (d, s)

  -- `pci_handle_network` from `switch (device)` on
  unfoldable pub found_network :
      Option (List ℕ) → Locals → ℕ → ℕ → ℕ → Device → Screen → Option (Device × Screen)
  found_network none l bus slot func d s = some (d, s)
  found_network (some format) l bus slot func d s =
      kprintf format (word bus ∷ word slot ∷ word func ∷ []) s >>= λ s.
      let (bar0, d) = pci_read_config bus slot func pci_bar0 d in
      let (bar1, d) = pci_read_config bus slot func pci_bar1 d in
      start_network l (mmio_base_of bar0 bar1) s >>= λ s. some (d, s)

  unfoldable pub pci_handle_network :
      Locals → ℕ → ℕ → ℕ → Device → Screen → Option (Device × Screen)
  pci_handle_network l bus slot func d s =
      let (vd, d) = pci_read_config bus slot func pci_vendor_id d in
      let vendor = bit_and vd 0xFFFF in
      let device = bit_and (vd / 2 ^ 16) 0xFFFF in
      if is_qemu_network_device vendor device
      then found_network (found_format device) l bus slot func d s
      else some (d, s)

  unfoldable pub pci_scan_function : Locals → ℕ → ℕ → ℕ → Device → Screen → Option (Device × Screen)
  pci_scan_function l bus slot func d s =
      let (found, d) = pci_device_exists bus slot func d in
      if found
      then (pci_print_device bus slot func d s >>= λ (d, s).
          pci_handle_usb bus slot func d s >>= λ (d, s). pci_handle_network l bus slot func d s)
      else some (d, s)

  -- A counted loop: `n` rounds of `body` from number `i` on
  unfoldable pub count_up :
      (ℕ → Device → Screen → Option (Device × Screen))
      → ℕ
      → ℕ
      → Device
      → Screen
      → Option (Device × Screen)
  count_up body zero i d s = some (d, s)
  count_up body (suc n) i d s = body i d s >>= λ (d, s). count_up body n (i + 1) d s

  unfoldable pub pci_scan_slot : Locals → ℕ → ℕ → Device → Screen → Option (Device × Screen)
  pci_scan_slot l bus slot d s =
      let (w, d) = pci_read_config bus slot 0 pci_header_type d in
      let header_type = bit_and (w / 2 ^ 16) 0xFF in
      pci_scan_function l (bus % 2 ^ 8) slot 0 d s >>= λ (d, s).
      if bit_and header_type pci_multifunction_flag == 0
      then some (d, s)
      else count_up (pci_scan_function l (bus % 2 ^ 8) slot) 7 1 d s

  unfoldable pub pci_scan : Locals → Device → Screen → Option (Device × Screen)
  pci_scan l d s = kprint (some (literal "Scanning PCI bus...\n")) s >>= λ s.
      count_up (λ bus. count_up (pci_scan_slot l bus) max_pci_slot 0) max_pci_bus 0 d s
      >>= λ (d, s). kprint (some (literal "PCI scan complete.\n")) s >>= λ s. some (d, s)
