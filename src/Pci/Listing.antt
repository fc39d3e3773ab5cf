-- ===== src/Pci/Listing.antt =====
-- What a scan of the bus reports, as a listing of a configuration space.
use anaga.Prelude.{
  ℕ, ◌+◌, ◌*◌, ◌/◌, ◌%◌, ◌^◌, List, [], ◌∷◌, ◌++◌, Option, none, some, ◌&&◌, ◌==◌, if◌then◌else◌,
  literal,
}
use anaga.Display.Printf.{word}
use anaga.Display.Lines.{Line, formats, says, counts, sends, range_lines}
use anaga.Pci.{found_format, pci_vendor_intel}
use anaga.Pci.Config.{register, device_base}
use anaga.E1000.Rings.{start_lines}

-- What is said of a USB controller by its programming interface, and the words that reset it.
unfoldable pub controller_lines : ℕ → ℕ → List Line
controller_lines prog_if base =
    if prog_if == 0x00
    then says (literal "USB: Found ")
      ∷ says (literal "UHCI\n")
      ∷ says (literal "UHCI: Resetting controller at 0x")
      ∷ counts base
      ∷ says (literal "\n")
      ∷ sends (base % 2 ^ 16) 0x0004
      ∷ sends (base % 2 ^ 16) 0x0000
      ∷ sends ((base + 2) % 2 ^ 16) 0x003F
      ∷ says (literal "UHCI: Reset complete.\n")
      ∷ []
    else if prog_if == 0x10
    then says (literal "USB: Found ") ∷ says (literal "OHCI (Not implemented)\n") ∷ []
    else if prog_if == 0x20
    then says (literal "USB: Found ") ∷ says (literal "EHCI (Not implemented)\n") ∷ []
    else if prog_if == 0x30
    then says (literal "USB: Found ") ∷ says (literal "XHCI (Not implemented)\n") ∷ []
    else []

-- `rx` and `tx` are where the rings of a network device stand.
module _ (rx tx : ℕ) (cfg : ℕ → ℕ) (bus slot : ℕ) where
  -- The registers of a function: which device it is, of what class, and where.
  abbrev id : ℕ → ℕ
  id func = cfg (register bus slot func 0x00)

  abbrev class : ℕ → ℕ
  class func = cfg (register bus slot func 0x08)

  abbrev bar0 : ℕ → ℕ
  bar0 func = cfg (register bus slot func 0x10)

  abbrev bar1 : ℕ → ℕ
  bar1 func = cfg (register bus slot func 0x14)

  unfoldable pub usb_lines : ℕ → List Line
  usb_lines func =
      if class func / 2 ^ 24 % 2 ^ 8 == 0x0C && class func / 2 ^ 16 % 2 ^ 8 == 0x03
      then controller_lines (class func / 2 ^ 8 % 2 ^ 8) (bar0 func / 4 * 4)
      else []

  unfoldable pub found_lines : Option (List ℕ) → ℕ → List Line
  found_lines none func = []
  found_lines (some format) func =
      formats format (word bus ∷ word slot ∷ word func ∷ [])
      ∷ (start_lines (device_base (bar0 func) (bar1 func)) rx tx
          ++ says (literal "e1000 initialized successfully\n") ∷ [])

  -- A network device is one of Intel's that has a message.
  unfoldable pub network_lines : ℕ → List Line
  network_lines func =
      if id func % 2 ^ 16 == pci_vendor_intel
      then found_lines (found_format (id func / 2 ^ 16 % 2 ^ 16)) func
      else []

  unfoldable pub device_lines : ℕ → List Line
  device_lines func =
      formats (literal "PCI Device: bus=%d slot=%d func=%d vendor=0x%x device=0x%x\n") (
        word bus
        ∷ word slot
        ∷ word func
        ∷ word (id func % 2 ^ 16)
        ∷ word (id func / 2 ^ 16 % 2 ^ 16)
        ∷ [])
      ∷ []

  -- A function that is not there has 0xFFFF for its vendor.
  unfoldable pub function_lines : ℕ → List Line
  function_lines func =
      if id func % 2 ^ 16 == 0xFFFF
      then []
      else device_lines func ++ (usb_lines func ++ network_lines func)

  -- A device has one function, or eight if the top bit of its header type says so.
  unfoldable pub slot_lines : List Line
  slot_lines =
      function_lines 0
      ++ (if cfg (register bus slot 0 0x0C) / 2 ^ 23 % 2 == 0
          then []
          else range_lines function_lines 7 1)

-- Every function of 256 buses with 32 slots each.
unfoldable pub bus_lines : ℕ → ℕ → (ℕ → ℕ) → List Line
bus_lines rx tx cfg =
    says (literal "Scanning PCI bus...\n")
    ∷ (range_lines (λ bus. range_lines (slot_lines rx tx cfg bus) 32 0) 256 0
        ++ says (literal "PCI scan complete.\n") ∷ [])
