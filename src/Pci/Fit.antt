-- ===== src/Pci/Fit.antt =====
-- The lines of the listing fit what they print.
use anaga.Prelude.{
  ℕ, ◌*◌, ◌/◌, ◌%◌, ◌^◌, ◌<◌, refl, List, [], ◌∷◌, Option, none, some, ◌&&◌, ◌==◌, literal, arith,
  Bool-cases, inl, inr,
}
use anaga.CString.Text.{IsCString-literal}
use anaga.Display.Printf.{word}
use anaga.Display.Format.{Fits}
use anaga.Display.Lines.{says, AllFit, AllFit-append, range_lines, AllFit-range_lines}
use anaga.Pci.{found_format, pci_vendor_intel}
use anaga.Pci.Config.{register, device_base}
use anaga.E1000.Rings.{start_lines, start_lines-AllFit}
use anaga.Pci.Listing.{
  controller_lines, usb_lines, found_lines, network_lines, device_lines, function_lines, slot_lines,
  bus_lines,
}

controller_lines-AllFit :
    (prog_if base : ℕ) → base < 2 ^ 32 → AllFit (controller_lines prog_if base)
unfolding controller_lines
controller_lines-AllFit prog_if base h = elim (Bool-cases (prog_if == 0x00)) [
  | inl e ↦ rw e (
    IsCString-literal "USB: Found ",
    (
      IsCString-literal "UHCI\n",
      (
        IsCString-literal "UHCI: Resetting controller at 0x",
        (
          h,
          (
            IsCString-literal "\n",
            (tt, (tt, (tt, (IsCString-literal "UHCI: Reset complete.\n", tt)))),
          ),
        ),
      ),
    ),
  )
  | inr a ↦ elim (Bool-cases (prog_if == 0x10)) [
    | inl e ↦
        rw (a, e)
          (IsCString-literal "USB: Found ", (IsCString-literal "OHCI (Not implemented)\n", tt))
    | inr b ↦ elim (Bool-cases (prog_if == 0x20)) [
      | inl e ↦
          rw (a, b, e)
            (IsCString-literal "USB: Found ", (IsCString-literal "EHCI (Not implemented)\n", tt))
      | inr c ↦ elim (Bool-cases (prog_if == 0x30)) [
        | inl e ↦
            rw (a, b, c, e)
              (IsCString-literal "USB: Found ", (IsCString-literal "XHCI (Not implemented)\n", tt))
        | inr d ↦ rw (a, b, c, d) tt
      ]
    ]
  ]
]

-- The message of every known network device takes three numbers.
abbrev FitsPlace : Option (List ℕ) → ℕ → ℕ → ℕ → Type 0
FitsPlace none bus slot func = Unit {0}
FitsPlace (some format) bus slot func = Fits format (word bus ∷ word slot ∷ word func ∷ [])

found_format-FitsPlace :
    (device bus slot func : ℕ)
    → bus < 2 ^ 32
    → slot < 2 ^ 32
    → func < 2 ^ 32
    → FitsPlace (found_format device) bus slot func
unfolding found_format Fits
found_format-FitsPlace device bus slot func b s f = elim (Bool-cases (device == 0x100E)) [
  | inl e ↦ rw e ((b, refl), ((s, refl), ((f, refl), tt)))
  | inr h ↦ elim (Bool-cases (device == 0x100F)) [
    | inl e ↦ rw (h, e) ((b, refl), ((s, refl), ((f, refl), tt)))
    | inr i ↦ elim (Bool-cases (device == 0x1004)) [
      | inl e ↦ rw (h, i, e) ((b, refl), ((s, refl), ((f, refl), tt)))
      | inr j ↦ elim (Bool-cases (device == 0x10D3)) [
        | inl e ↦ rw (h, i, j, e) ((b, refl), ((s, refl), ((f, refl), tt)))
        | inr k ↦ elim (Bool-cases (device == 0x153A)) [
          | inl e ↦ rw (h, i, j, k, e) ((b, refl), ((s, refl), ((f, refl), tt)))
          | inr l ↦ rw (h, i, j, k, l) tt
        ]
      ]
    ]
  ]
]

module _ (rx tx : ℕ) (cfg : ℕ → ℕ) (bus slot : ℕ) (words : (a : ℕ) → cfg a < 2 ^ 32) (b : bus < 256)
    (s : slot < 32) where
  usb_lines-AllFit : (func : ℕ) → AllFit (usb_lines rx tx cfg bus slot func)
  unfolding usb_lines
  usb_lines-AllFit func =
      let class = cfg (register bus slot func 0x08) in
      let bar = cfg (register bus slot func 0x10) in
      elim (Bool-cases (class / 2 ^ 24 % 2 ^ 8 == 0x0C && class / 2 ^ 16 % 2 ^ 8 == 0x03)) [
        | inl e ↦ rw e (
            controller_lines-AllFit (class / 2 ^ 8 % 2 ^ 8) (bar / 4 * 4)
              (omega (arith, words (register bus slot func 0x10))))
        | inr e ↦ rw e tt
      ]

  found_lines-AllFit :
      (format : Option (List ℕ)) (func : ℕ)
      → FitsPlace format bus slot func
      → AllFit (found_lines rx tx cfg bus slot format func)
  unfolding found_lines
  found_lines-AllFit none func h = tt
  found_lines-AllFit (some format) func h =
      let base =
        device_base (cfg (register bus slot func 0x10)) (cfg (register bus slot func 0x14)) in
      (
        h,
        AllFit-append (start_lines base rx tx)
            (says (literal "e1000 initialized successfully\n") ∷ []) (start_lines-AllFit base rx tx)
            (IsCString-literal "e1000 initialized successfully\n", tt),
      )

  network_lines-AllFit : (func : ℕ) → func < 8 → AllFit (network_lines rx tx cfg bus slot func)
  unfolding network_lines
  network_lines-AllFit func h =
      let id = cfg (register bus slot func 0x00) in
      elim (Bool-cases (id % 2 ^ 16 == pci_vendor_intel)) [
        | inl e ↦ rw e (
            found_lines-AllFit (found_format (id / 2 ^ 16 % 2 ^ 16)) func (
              found_format-FitsPlace (id / 2 ^ 16 % 2 ^ 16) bus slot func (omega arith)
                (omega arith) (omega arith)))
        | inr e ↦ rw e tt
      ]

  device_lines-AllFit : (func : ℕ) → func < 8 → AllFit (device_lines rx tx cfg bus slot func)
  unfolding device_lines Fits
  device_lines-AllFit func h = (
    (
      (omega arith, refl),
      (
        (omega arith, refl),
        ((omega arith, refl), ((omega arith, refl), ((omega arith, refl), tt))),
      ),
    ),
    tt,
  )

  function_lines-AllFit : (func : ℕ) → func < 8 → AllFit (function_lines rx tx cfg bus slot func)
  unfolding function_lines
  function_lines-AllFit func h =
      elim (Bool-cases (cfg (register bus slot func 0x00) % 2 ^ 16 == 0xFFFF)) [
        | inl e ↦ rw e tt
        | inr e ↦ rw e (
            AllFit-append (device_lines rx tx cfg bus slot func) _ (device_lines-AllFit func h) (
              AllFit-append (usb_lines rx tx cfg bus slot func) _ (usb_lines-AllFit func)
                (network_lines-AllFit func h)))
      ]

  slot_lines-AllFit : AllFit (slot_lines rx tx cfg bus slot)
  unfolding slot_lines
  slot_lines-AllFit =
      AllFit-append (function_lines rx tx cfg bus slot 0) _ (function_lines-AllFit 0 (omega arith))
        (elim (Bool-cases (cfg (register bus slot 0 0x0C) / 2 ^ 23 % 2 == 0)) [
          | inl e ↦ rw e tt
          | inr e ↦ rw e (
              AllFit-range_lines (function_lines rx tx cfg bus slot) 7 1
                (λ j lo hi. function_lines-AllFit j (omega arith)))
        ])

pub bus_lines-AllFit :
    (rx tx : ℕ) (cfg : ℕ → ℕ) → ((a : ℕ) → cfg a < 2 ^ 32) → AllFit (bus_lines rx tx cfg)
unfolding bus_lines
bus_lines-AllFit rx tx cfg words = (
  IsCString-literal "Scanning PCI bus...\n",
  AllFit-append (range_lines (λ bus. range_lines (slot_lines rx tx cfg bus) 32 0) 256 0) _
      (AllFit-range_lines (λ bus. range_lines (slot_lines rx tx cfg bus) 32 0) 256 0
        (λ bus _ b.
          AllFit-range_lines (slot_lines rx tx cfg bus) 32 0
            (λ slot _ s. slot_lines-AllFit rx tx cfg bus slot words (omega arith) (omega arith))))
      (IsCString-literal "PCI scan complete.\n", tt),
)
