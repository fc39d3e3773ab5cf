-- ===== src/Pci/Scan.antt =====
-- `pci_scan` reports the listing of the configuration space.
use anaga.Pci.Fit.{bus_lines-AllFit}
use Prim.Native.Nat.{bit_and}
use anaga.Prelude.{
  ℕ, ◌*◌, ◌/◌, ◌%◌, ◌^◌, ◌<◌, ◌≡◌, ◌∙◌, refl, sym, ap, List, [], ◌∷◌, ◌++◌, Option, some, ◌==◌,
  ◌>>=◌, bind_assoc, literal, arith, Bool-cases, inl, inr, ne→==, eq-cases, length, Returns-elim,
  append-nil,
}
use anaga.Prelude.Bits.{bit_and-low}
use anaga.Display.{kprint, Screen, put_all}
use anaga.Display.Safety
use anaga.Display.Lines.{Lines, says, words_sent, print_lines, print_lines_lem, range_lines}
use anaga.Ports.{Ports}
use anaga.E1000.{rx_ring_size, tx_ring_size}
use anaga.Pci.{
  Locals, pci_read_config, pci_device_exists, pci_handle_usb, pci_print_device, pci_handle_network,
  pci_scan_function, count_up, pci_scan_slot, pci_scan,
}
use anaga.Pci.Config.{register, and-flag, IsPci, read_keeps, read_sends}
use anaga.Pci.Listing.{
  usb_lines, network_lines, device_lines, function_lines, slot_lines, bus_lines,
}
use anaga.Pci.Reports.{
  Prints, Prints-nothing, Reports, Reports-then, Reports-behind, count_up_lem, says-Reports,
}
use anaga.Pci.Devices.{register_lem, usb-Prints, device-Prints, network-Prints}

module _ (p : Ports) (c : IsPci p) where
  open c use {config}

  module _ (bus slot : ℕ) (b : bus < 256) (t : slot < 32) where
    module _ (l : Locals) (h : length l.rx ≡ rx_ring_size) (k : length l.tx ≡ tx_ring_size) where
      -- What is said of a function that is there.
      there_prints :
          (func : ℕ)
          → func < 8
          → Reports p c
              (λ d s. pci_print_device p bus slot func d s >>= λ r.
                pci_handle_usb p bus slot func r.0 r.1 >>= λ r.
                pci_handle_network p l bus slot func r.0 r.1)
              (λ cfg.
                device_lines l.rx_addr l.tx_addr cfg bus slot func
                ++ (usb_lines l.rx_addr l.tx_addr cfg bus slot func
                    ++ network_lines l.rx_addr l.tx_addr cfg bus slot func))
      there_prints func f =
          Reports-then p c (pci_print_device p bus slot func)
            (λ d s. pci_handle_usb p bus slot func d s >>= λ r.
              pci_handle_network p l bus slot func r.0 r.1)
            (λ cfg. device_lines l.rx_addr l.tx_addr cfg bus slot func)
            (λ cfg.
              usb_lines l.rx_addr l.tx_addr cfg bus slot func
              ++ network_lines l.rx_addr l.tx_addr cfg bus slot func)
            (λ d. device-Prints p c bus slot b t l.rx_addr l.tx_addr func d f)
            (Reports-then p c (pci_handle_usb p bus slot func)
              (pci_handle_network p l bus slot func)
              (λ cfg. usb_lines l.rx_addr l.tx_addr cfg bus slot func)
              (λ cfg. network_lines l.rx_addr l.tx_addr cfg bus slot func)
              (λ d. usb-Prints p c bus slot b t l.rx_addr l.tx_addr func d f)
              (λ d. network-Prints p c bus slot b t l h k func d f))

      function-Prints :
          (func : ℕ) (d : p.Device)
          → func < 8
          → Prints p c
              (pci_scan_function p l bus slot func)
              d
              (function_lines l.rx_addr l.tx_addr (config d) bus slot func)
      unfolding pci_scan_function pci_device_exists function_lines print_lines words_sent
      function-Prints func d f =
          let id = config d (register bus slot func 0x00) in
          let value = register_lem p c bus slot b t d func 0x00 0x00 f (omega arith) refl in
          let d1 = (pci_read_config p bus slot func 0x00 d).1 in
          let keeps = read_keeps p c d bus slot func 0x00 in
          let sends1 = read_sends p c d bus slot func 0x00 in
          rw (value, bit_and-low 16 id)
            (elim (Bool-cases (id % 2 ^ 16 == 0xFFFF)) [
              | inl e ↦ rw e (d1, keeps, sends1 ∙ sym (append-nil (c.sent d)), λ s. refl)
              | inr e ↦ rw e (
                  Reports-behind p c _
                    (λ cfg.
                      device_lines l.rx_addr l.tx_addr cfg bus slot func
                      ++ (usb_lines l.rx_addr l.tx_addr cfg bus slot func
                          ++ network_lines l.rx_addr l.tx_addr cfg bus slot func))
                    d d1 (there_prints func f) keeps sends1)
            ])

      slot-Prints :
          Reports p c
            (pci_scan_slot p l bus slot)
            (λ cfg. slot_lines l.rx_addr l.tx_addr cfg bus slot)
      unfolding pci_scan_slot slot_lines
      slot-Prints d =
          let w = config d (register bus slot 0 0x0C) in
          let value =
            register_lem p c bus slot b t d 0 0x0E 0x0C (omega arith) (omega arith) refl in
          let d1 = (pci_read_config p bus slot 0 0x0E d).1 in
          let keeps = read_keeps p c d bus slot 0 0x0E in
          let sends1 = read_sends p c d bus slot 0 0x0E in
          let byte : bus % 2 ^ 8 ≡ bus = omega arith in
          let header : bit_and (bit_and (w / 2 ^ 16) 0xFF) 0x80 ≡ w / 2 ^ 23 % 2 * 128 =
            ap (λ x. bit_and x 0x80) (bit_and-low 8 (w / 2 ^ 16))
            ∙ and-flag (w / 2 ^ 16 % 256) (omega arith)
            ∙ omega arith in
          let lines = λ (cfg : ℕ → ℕ). function_lines l.rx_addr l.tx_addr cfg bus slot in
          let scan = pci_scan_function p l bus slot in
          let first : Reports p c (scan 0) (λ cfg. lines cfg 0) =
            λ d. function-Prints 0 d (omega arith) in
          let others =
            count_up_lem p c scan lines 7 1 (λ j lo hi d. function-Prints j d (omega arith)) in
          rw (value, header, byte)
            (elim (eq-cases (w / 2 ^ 23 % 2) 0) [
              | inl e ↦ rw e (
                  Reports-behind p c _ (λ cfg. lines cfg 0 ++ []) d d1
                    (Reports-then p c (scan 0) (λ d s. some (d, s)) (λ cfg. lines cfg 0) (λ cfg. [])
                      first (Prints-nothing p c))
                    keeps sends1)
              | inr e ↦
                  rw
                    (
                      ne→== (w / 2 ^ 23 % 2 * 128) 0 (λ z. e (omega arith)),
                      ne→== (w / 2 ^ 23 % 2) 0 e,
                    )
                    (Reports-behind p c _ (λ cfg. lines cfg 0 ++ range_lines (lines cfg) 7 1) d d1
                      (Reports-then p c (scan 0) (count_up p scan 7 1) (λ cfg. lines cfg 0)
                        (λ cfg. range_lines (lines cfg) 7 1) first others)
                      keeps sends1)
            ])

  module _ (l : Locals) (h : length l.rx ≡ rx_ring_size) (k : length l.tx ≡ tx_ring_size) where
    buses_print :
        Reports p c (count_up p (λ bus. count_up p (pci_scan_slot p l bus) 32 0) 256 0) (λ cfg.
          range_lines (λ bus. range_lines (slot_lines l.rx_addr l.tx_addr cfg bus) 32 0) 256 0)
    buses_print =
        count_up_lem p c (λ bus. count_up p (pci_scan_slot p l bus) 32 0)
          (λ cfg bus. range_lines (slot_lines l.rx_addr l.tx_addr cfg bus) 32 0) 256 0
          (λ bus lo b.
            count_up_lem p c (pci_scan_slot p l bus) (λ cfg. slot_lines l.rx_addr l.tx_addr cfg bus)
              32 0 (λ slot lo t. slot-Prints bus slot (omega arith) (omega arith) l h k))

    scan_prints : Reports p c (pci_scan p l) (bus_lines l.rx_addr l.tx_addr)
    unfolding pci_scan bus_lines
    scan_prints d =
        let start = literal "Scanning PCI bus...\n" in
        let end = literal "PCI scan complete.\n" in
        let buses = count_up p (λ bus. count_up p (pci_scan_slot p l bus) 32 0) 256 0 in
        let lines = λ (cfg : ℕ → ℕ).
          range_lines (λ bus. range_lines (slot_lines l.rx_addr l.tx_addr cfg bus) 32 0) 256 0 in
        let (d', e, w, f) =
          Reports-then p c (λ d s. kprint (some start) s >>= λ s'. some (d, s'))
            (λ d s. buses d s >>= λ r. kprint (some end) r.1 >>= λ s'. some (r.0, s'))
            (λ cfg. says start ∷ []) (λ cfg. lines cfg ++ says end ∷ []) (says-Reports p c start)
            (Reports-then p c buses (λ d s. kprint (some end) s >>= λ s'. some (d, s')) lines
              (λ cfg. says end ∷ []) buses_print (says-Reports p c end))
            d in
        (d', e, w, λ s. sym (bind_assoc (kprint (some start) s) (λ s'. some (d, s')) _) ∙ f s)

-- `pci_scan` of a bus that follows the documentation, whose UHCI controllers have ports apart from
-- those of the configuration mechanism, returns: it has reported every function of every slot that
-- the configuration space lists, with what is said of the USB controllers and the network devices
-- that the kernel knows, and nothing else; the words it has written with `outw` are those that reset
-- the UHCI controllers of that listing, in its order, and nothing else; no register of the
-- configuration space has changed, and the cursor is on the screen still.
pub pci_scan_lem :
    (p : Ports) (c : IsPci p) (l : Locals) (d : p.Device) (s : Screen)
    → length l.rx ≡ rx_ring_size
    → length l.tx ≡ tx_ring_size
    → Safety.IsValid s
    → (d' : p.Device) × (out : List ℕ) × (s' : Screen) × (c.config d' ≡ c.config d)
      × (c.sent d' ≡ c.sent d ++ words_sent (bus_lines l.rx_addr l.tx_addr (c.config d)))
      × Lines (bus_lines l.rx_addr l.tx_addr (c.config d)) out
      × (put_all out s ≡ some s')
      × Safety.IsValid s'
      × (pci_scan p l d s ≡ some (d', s'))
pci_scan_lem p c l d s h k v =
    let (d', e, w, f) = scan_prints p c l h k d in
    let lines = bus_lines l.rx_addr l.tx_addr (c.config d) in
    let (out, shown, q, safe) =
      print_lines_lem lines s (bus_lines-AllFit l.rx_addr l.tx_addr (c.config d) (c.word d)) v in
    let (s', done, valid) = Returns-elim (λ t. Safety.IsValid t) (print_lines lines s) safe in
    (
      d',
      out,
      s',
      e,
      w,
      shown,
      sym q ∙ done,
      valid,
      f s ∙ ap (λ (o : Option Screen). o >>= λ s'. some (d', s')) done,
    )
