-- ===== src/Usb.antt =====
-- drivers/usb/usb.h, usb.c, uhci.h and uhci.c: what is done about a USB controller.
use anaga.Prelude.{ℕ, ◌+◌, ◌%◌, ◌^◌, Option, some, ◌>>=◌, literal}
use anaga.Display.{Screen, kprint, kprint_num}
use anaga.Display.Printf.{signed}
use anaga.Ports.{Ports}

pub data UsbControllerType : Type 0 where
  uhci : UsbControllerType
  ohci : UsbControllerType
  ehci : UsbControllerType
  xhci : UsbControllerType

abbrev pub uhci_usbcmd : ℕ
uhci_usbcmd = 0x00

abbrev pub uhci_usbsts : ℕ
uhci_usbsts = 0x02

module _ (p : Ports) where
  open p use {Device, outw}

  -- A port is a 16-bit number. The loop of 10000 `nop`s only waits.
  unfoldable pub uhci_init : ℕ → Device → Screen → Option (Device × Screen)
  uhci_init io_base d s = do
    s ← kprint (some (literal "UHCI: Resetting controller at 0x")) s
    s ← kprint_num (signed io_base) s
    s ← kprint (some (literal "\n")) s
    let d = outw ((io_base + uhci_usbcmd) % 2 ^ 16) 0x0004 d
    let d = outw ((io_base + uhci_usbcmd) % 2 ^ 16) 0x0000 d
    let d = outw ((io_base + uhci_usbsts) % 2 ^ 16) 0x003F d
    s ← kprint (some (literal "UHCI: Reset complete.\n")) s
    some (d, s)

  -- The cases of the `switch`
  unfoldable pub usb_controller : UsbControllerType → ℕ → Device → Screen → Option (Device × Screen)
  unfolding uhci_init
  usb_controller uhci base_addr d s =
      kprint (some (literal "UHCI\n")) s >>= λ s. uhci_init base_addr d s
  usb_controller ohci base_addr d s =
      kprint (some (literal "OHCI (Not implemented)\n")) s >>= λ s. some (d, s)
  usb_controller ehci base_addr d s =
      kprint (some (literal "EHCI (Not implemented)\n")) s >>= λ s. some (d, s)
  usb_controller xhci base_addr d s =
      kprint (some (literal "XHCI (Not implemented)\n")) s >>= λ s. some (d, s)

  unfoldable pub usb_init : UsbControllerType → ℕ → Device → Screen → Option (Device × Screen)
  usb_init type base_addr d s =
      kprint (some (literal "USB: Found ")) s >>= usb_controller type base_addr d
