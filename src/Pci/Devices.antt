-- ===== src/Pci/Devices.antt =====
-- What the scan says of a function, of a USB controller and of a network device.
use mathlib.Core.Path.{fun_ext}
use Prim.Native.Nat.{bit_and}
use anaga.Prelude.{
  ◌⊎◌, ℕ, ◌+◌, ◌*◌, ◌/◌, ◌%◌, ◌^◌, ◌<◌, ◌≡◌, ◌∙◌, refl, sym, ap, List, [], ◌∷◌, ◌++◌, Option, none,
  some, true, false, ◌==◌, ◌>>=◌, bind_assoc, bind-some, literal, arith, Bool-cases, inl, inr,
  length, subst, append-nil, append_assoc,
}
use anaga.Prelude.Bits.{bit_and-low}
use anaga.Display.{kprint, Screen}
use anaga.Display.Printf.{kprintf, word}
use anaga.Display.Lines.{says, words_sent, print_lines, print_lines-append, print_with}
use anaga.Ports.{Ports}
use anaga.Usb.{uhci, usb_init, usb_controller, uhci_init}
use anaga.E1000.{e1000_init, init_pointers, rx_ring_size, tx_ring_size}
use anaga.E1000.Rings.{start_lines, init_device_lem, on_rings}
use anaga.Pci.{
  Locals, usb_type, is_qemu_network_device, found_format, start_network, pci_vendor_intel,
  pci_read_config, handle_controller, pci_handle_usb, pci_print_device, found_network,
  pci_handle_network,
}
use anaga.Pci.Config.{
  register, device_base, mmio_base_of_lem, and-io_mask, IsPci, IsApart, read_lem, read_keeps,
  read_sends,
}
use anaga.Pci.Listing.{controller_lines, usb_lines, found_lines, network_lines, device_lines}
use anaga.Pci.Reports.{Prints, Prints-nothing, Prints-lines, Reports-behind}

other_vendor :
    (vendor device : ℕ)
    → (vendor == pci_vendor_intel) ≡ false
    → is_qemu_network_device vendor device ≡ false
unfolding is_qemu_network_device
other_vendor vendor device h = rw h refl

-- The devices that are asked for are those that have a message.
known_device :
    (vendor device : ℕ)
    → (vendor == pci_vendor_intel) ≡ true
    → (is_qemu_network_device vendor device ≡ true)
      ⊎ ((is_qemu_network_device vendor device ≡ false) × (found_format device ≡ none))
unfolding is_qemu_network_device found_format
known_device vendor device h = ground arith

-- The class register of a UHCI controller, from its three bytes.
usb_class :
    (class : ℕ)
    → class < 2 ^ 32
    → (class / 2 ^ 24 % 2 ^ 8 == 0x0C) ≡ true
    → (class / 2 ^ 16 % 2 ^ 8 == 0x03) ≡ true
    → class / 2 ^ 8 % 2 ^ 8 ≡ 0x00
    → class / 2 ^ 8 ≡ 0x0C0300
usb_class class h serial usb prog =
    let a : class / 2 ^ 24 % 2 ^ 8 ≡ 0x0C = ground arith in
    let b : class / 2 ^ 16 % 2 ^ 8 ≡ 0x03 = ground arith in omega arith

module _ (p : Ports) (c : IsPci p) where
  open c use {config}

  uhci-Prints :
      (base : ℕ) (d : p.Device)
      → IsApart (base % 2 ^ 16) × IsApart ((base + 2) % 2 ^ 16)
      → Prints p c (usb_init p uhci base) d (controller_lines 0x00 base)
  unfolding usb_init usb_controller uhci_init print_with controller_lines words_sent
  uhci-Prints base d (first, second) =
      let same : base + 0x00 ≡ base = omega arith in
      let apart : IsApart ((base + 0x00) % 2 ^ 16) = rw same first in
      let d1 = p.outw ((base + 0x00) % 2 ^ 16) 0x0004 d in
      let d2 = p.outw ((base + 0x00) % 2 ^ 16) 0x0000 d1 in
      let d3 = p.outw ((base + 0x02) % 2 ^ 16) 0x003F d2 in
      let port = (base + 0x00) % 2 ^ 16 in
      let status = (base + 0x02) % 2 ^ 16 in
      let written : c.sent d3
          ≡ c.sent d ++ (port, 0x0004) ∷ (port, 0x0000) ∷ (status, 0x003F) ∷ [] =
        c.word_sends d2 status 0x003F
        ∙ ap (λ words. words ++ (status, 0x003F) ∷ [])
            (c.word_sends d1 port 0x0000
              ∙ ap (λ words. words ++ (port, 0x0000) ∷ []) (c.word_sends d port 0x0004)
              ∙ append_assoc (c.sent d) ((port, 0x0004) ∷ []) ((port, 0x0000) ∷ []))
        ∙ append_assoc (c.sent d) ((port, 0x0004) ∷ (port, 0x0000) ∷ []) ((status, 0x003F) ∷ []) in
      Prints-lines p c d d3 (controller_lines 0x00 base)
        (c.apart_keeps d2 _ _ second ∙ c.apart_keeps d1 _ _ apart ∙ c.apart_keeps d _ _ apart)
        (subst
          (λ x.
            c.sent d3
            ≡ c.sent d ++ (x % 2 ^ 16, 0x0004) ∷ (x % 2 ^ 16, 0x0000) ∷ (status, 0x003F) ∷ [])
          same written)

  controller-Prints :
      (prog_if base : ℕ) (d : p.Device)
      → (prog_if ≡ 0x00 → IsApart (base % 2 ^ 16) × IsApart ((base + 2) % 2 ^ 16))
      → Prints p c (handle_controller p (usb_type prog_if) base) d (controller_lines prog_if base)
  unfolding handle_controller usb_type controller_lines usb_init usb_controller print_with uhci_init
      words_sent
  controller-Prints prog_if base d apart = elim (Bool-cases (prog_if == 0x00)) [
    | inl e ↦ rw e (uhci-Prints base d (apart (ground arith)))
    | inr h ↦ elim (Bool-cases (prog_if == 0x10)) [
      | inl e ↦
          rw (h, e)
            (Prints-lines p c d d (controller_lines 0x10 base) refl (sym (append-nil (c.sent d))))
      | inr i ↦ elim (Bool-cases (prog_if == 0x20)) [
        | inl e ↦
            rw (h, i, e)
              (Prints-lines p c d d (controller_lines 0x20 base) refl (sym (append-nil (c.sent d))))
        | inr j ↦ elim (Bool-cases (prog_if == 0x30)) [
          | inl e ↦
              rw (h, i, j, e)
                (Prints-lines p c d d (controller_lines 0x30 base) refl
                  (sym (append-nil (c.sent d))))
          | inr k ↦ rw (h, i, j, k) (Prints-nothing p c d)
        ]
      ]
    ]
  ]

  -- A start of a network device prints its messages, and that it is done.
  start_network_lem :
      (l : Locals) (base : ℕ) (s : Screen)
      → length l.rx ≡ rx_ring_size
      → length l.tx ≡ tx_ring_size
      → start_network l base s
        ≡ print_lines
            (start_lines base l.rx_addr l.tx_addr
              ++ says (literal "e1000 initialized successfully\n") ∷ [])
            s
  unfolding start_network e1000_init init_pointers print_lines
  start_network_lem l base s h k =
      let (rx, tx, _, e) = init_device_lem l.dev base l.rx_addr l.rx l.tx_addr l.tx h k in
      let lines = start_lines base l.rx_addr l.tx_addr in
      let last = says (literal "e1000 initialized successfully\n") ∷ [] in
      rw (e s) (
        bind_assoc (print_lines lines s) (λ s'. some (on_rings base l.rx_addr rx l.tx_addr tx s')) _
        ∙ ap (λ (f : Screen → Option Screen). print_lines lines s >>= f)
            (fun_ext (λ s'.
              sym (bind-some (kprint (some (literal "e1000 initialized successfully\n")) s'))))
        ∙ sym (print_lines-append lines last s))

  module _ (bus slot : ℕ) (b : bus < 256) (t : slot < 32) where
    -- The first read of a register, in terms of the configuration space.
    pub register_lem :
        (d : p.Device) (func offset o : ℕ)
        → func < 8
        → o < 256
        → bit_and offset 0xFC ≡ o
        → (pci_read_config p bus slot func offset d).0 ≡ config d (register bus slot func o)
    register_lem d func offset o f small e = read_lem p c d bus slot func offset o b t f small e

    pub usb-Prints :
        (rx tx func : ℕ) (d : p.Device)
        → func < 8
        → Prints p c (pci_handle_usb p bus slot func) d (usb_lines rx tx (config d) bus slot func)
    unfolding pci_handle_usb usb_lines print_lines words_sent
    usb-Prints rx tx func d f =
        let class = config d (register bus slot func 0x08) in
        let value = register_lem d func 0x08 0x08 f (omega arith) refl in
        let d1 = (pci_read_config p bus slot func 0x08 d).1 in
        let keeps = read_keeps p c d bus slot func 0x08 in
        let sends1 = read_sends p c d bus slot func 0x08 in
        let d2 = (pci_read_config p bus slot func 0x10 d1).1 in
        let keeps2 = read_keeps p c d1 bus slot func 0x10 in
        let sends2 = read_sends p c d1 bus slot func 0x10 in
        let bar = config d (register bus slot func 0x10) in
        let bar_value : (pci_read_config p bus slot func 0x10 d1).0 ≡ bar =
          register_lem d1 func 0x10 0x10 f (omega arith) refl
          ∙ ap (λ (g : ℕ → ℕ). g (register bus slot func 0x10)) keeps in
        let base = bit_and-low 8 (class / 2 ^ 24) in
        let sub = bit_and-low 8 (class / 2 ^ 16) in
        let prog = bit_and-low 8 (class / 2 ^ 8) in
        let mask = and-io_mask bar (c.word d (register bus slot func 0x10)) in
        rw (value, base, sub, prog)
          (elim (Bool-cases (class / 2 ^ 24 % 2 ^ 8 == 0x0C)) [
            | inr no_serial ↦
                rw no_serial (d1, keeps, sends1 ∙ sym (append-nil (c.sent d)), λ s. refl)
            | inl serial ↦ elim (Bool-cases (class / 2 ^ 16 % 2 ^ 8 == 0x03)) [
              | inr no_usb ↦
                  rw (serial, no_usb) (d1, keeps, sends1 ∙ sym (append-nil (c.sent d)), λ s. refl)
              | inl usb ↦
                  let (d', e, w, g) =
                    controller-Prints (class / 2 ^ 8 % 2 ^ 8) (bar / 4 * 4) d2 (λ prog.
                      c.uhci_apart d bus slot func (
                        usb_class class (c.word d (register bus slot func 0x08)) serial usb
                          prog)) in
                  rw (serial, usb, bar_value, mask)
                    (
                      d',
                      e ∙ keeps2 ∙ keeps,
                      w
                          ∙ ap
                              (λ words.
                                words
                                ++ words_sent
                                    (controller_lines (class / 2 ^ 8 % 2 ^ 8) (bar / 4 * 4)))
                              (sends2 ∙ sends1),
                      g,
                    )
            ]
          ])

    pub device-Prints :
        (rx tx func : ℕ) (d : p.Device)
        → func < 8
        → Prints p c
            (pci_print_device p bus slot func)
            d
            (device_lines rx tx (config d) bus slot func)
    unfolding pci_print_device device_lines print_with words_sent
    device-Prints rx tx func d f =
        let id = config d (register bus slot func 0x00) in
        let value = register_lem d func 0x00 0x00 f (omega arith) refl in
        let d1 = (pci_read_config p bus slot func 0x00 d).1 in
        rw (value, bit_and-low 16 id, bit_and-low 16 (id / 2 ^ 16))
          (Prints-lines p c d d1 (device_lines rx tx (config d) bus slot func)
            (read_keeps p c d bus slot func 0x00)
            (read_sends p c d bus slot func 0x00 ∙ sym (append-nil (c.sent d))))

    module _ (l : Locals) (h : length l.rx ≡ rx_ring_size) (k : length l.tx ≡ tx_ring_size) where
      found-Prints :
          (format : Option (List ℕ)) (func : ℕ) (d : p.Device)
          → func < 8
          → Prints p c
              (found_network p format l bus slot func)
              d
              (found_lines l.rx_addr l.tx_addr (config d) bus slot format func)
      unfolding found_network found_lines print_lines words_sent start_lines
      found-Prints none func d f = Prints-nothing p c d
      found-Prints (some format) func d f =
          let d1 = (pci_read_config p bus slot func 0x10 d).1 in
          let keeps = read_keeps p c d bus slot func 0x10 in
          let sends1 = read_sends p c d bus slot func 0x10 in
          let d2 = (pci_read_config p bus slot func 0x14 d1).1 in
          let keeps2 = read_keeps p c d1 bus slot func 0x14 in
          let sends2 = read_sends p c d1 bus slot func 0x14 in
          let bar0 = config d (register bus slot func 0x10) in
          let bar1 = config d (register bus slot func 0x14) in
          let value0 = register_lem d func 0x10 0x10 f (omega arith) refl in
          let value1 : (pci_read_config p bus slot func 0x14 d1).0 ≡ bar1 =
            register_lem d1 func 0x14 0x14 f (omega arith) refl
            ∙ ap (λ (g : ℕ → ℕ). g (register bus slot func 0x14)) keeps in
          let base = mmio_base_of_lem bar0 bar1 (c.word d _) (c.word d _) in
          let place = word bus ∷ word slot ∷ word func ∷ [] in
          let rest =
            start_lines (device_base bar0 bar1) l.rx_addr l.tx_addr
            ++ says (literal "e1000 initialized successfully\n") ∷ [] in
          (
            d2,
            keeps2 ∙ keeps,
            sends2 ∙ sends1 ∙ sym (append-nil (c.sent d)),
            λ s.
                rw (value0, value1, base)
                  (ap (λ (g : Screen → Option (p.Device × Screen)). kprintf format place s >>= g)
                      (fun_ext (λ s'.
                        ap (λ (o : Option Screen). o >>= λ s''. some (d2, s''))
                          (start_network_lem l (device_base bar0 bar1) s' h k)))
                    ∙ sym (
                        bind_assoc (kprintf format place s) (print_lines rest)
                          (λ s'. some (d2, s')))),
          )

      pub network-Prints :
          (func : ℕ) (d : p.Device)
          → func < 8
          → Prints p c
              (pci_handle_network p l bus slot func)
              d
              (network_lines l.rx_addr l.tx_addr (config d) bus slot func)
      unfolding pci_handle_network network_lines print_lines found_lines words_sent
      network-Prints func d f =
          let id = config d (register bus slot func 0x00) in
          let value = register_lem d func 0x00 0x00 f (omega arith) refl in
          let d1 = (pci_read_config p bus slot func 0x00 d).1 in
          let keeps = read_keeps p c d bus slot func 0x00 in
          let sends1 = read_sends p c d bus slot func 0x00 in
          let device = id / 2 ^ 16 % 2 ^ 16 in
          rw (value, bit_and-low 16 id, bit_and-low 16 (id / 2 ^ 16))
            (elim (Bool-cases (id % 2 ^ 16 == pci_vendor_intel)) [
              | inr other ↦
                  rw (other, other_vendor (id % 2 ^ 16) device other)
                    (d1, keeps, sends1 ∙ sym (append-nil (c.sent d)), λ s. refl)
              | inl intel ↦ elim (known_device (id % 2 ^ 16) device intel) [
                | inr (no_device, no_format) ↦
                    rw (intel, no_device, no_format)
                      (d1, keeps, sends1 ∙ sym (append-nil (c.sent d)), λ s. refl)
                | inl known ↦
                    rw (intel, known)
                      (Reports-behind p c (found_network p (found_format device) l bus slot func)
                        (λ cfg.
                          found_lines l.rx_addr l.tx_addr cfg bus slot (found_format device) func)
                        d d1 (λ d. found-Prints (found_format device) func d f) keeps sends1)
              ]
            ])
