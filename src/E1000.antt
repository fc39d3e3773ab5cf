-- ===== src/E1000.antt =====
-- drivers/network/e1000.h and e1000.c: the state of a network device and its descriptor rings. On the
-- 32-bit target a 64-bit argument of `kprintf` is two words, the lower one first.
pub mod Rings
use anaga.Prelude.{
  ℕ, zero, suc, ◌+◌, ◌/◌, ◌%◌, ◌^◌, List, [], ◌∷◌, Option, none, some, ◌>>=◌, get_elem?, store,
  literal, ℤ, pos, negsuc,
}
use anaga.Display.{Screen, kprint}
use anaga.Display.Printf.{Arg, word, kprintf}

abbrev pub rx_ring_size : ℕ
rx_ring_size = 128

abbrev pub tx_ring_size : ℕ
tx_ring_size = 128

pub record E1000RxDesc : Type 0 where
  pub buffer_addr : ℕ
  pub length : ℕ
  pub checksum : ℕ
  pub status : ℕ
  pub errors : ℕ
  pub special : ℕ

pub record E1000TxDesc : Type 0 where
  pub buffer_addr : ℕ
  pub length : ℕ
  pub cso : ℕ
  pub cmd : ℕ
  pub status : ℕ
  pub css : ℕ
  pub special : ℕ

pub record Ring : Type 0 where
  pub base : ℕ
  pub size : ℕ
  pub head : ℕ
  pub tail : ℕ

-- The pointers to the descriptors are addresses, 0 for NULL.
pub record E1000 : Type 0 where
  pub rx_ring : Ring
  pub tx_ring : Ring
  pub mmio_base : ℕ
  pub rx_desc_mem : ℕ
  pub tx_desc_mem : ℕ

-- `memset(dev, 0, sizeof(*dev))`
abbrev pub cleared : E1000
cleared = record {
  rx_ring = record { base = 0; size = 0; head = 0; tail = 0 };
  tx_ring = record { base = 0; size = 0; head = 0; tail = 0 };
  mmio_base = 0;
  rx_desc_mem = 0;
  tx_desc_mem = 0;
}

-- The descriptors of the receive ring, `n` rounds from number `i` on
unfoldable pub clear_rx : ℕ → ℕ → List E1000RxDesc → Option (List E1000RxDesc)
clear_rx zero i descs = some descs
clear_rx (suc n) i descs =
    store descs i
      (record { buffer_addr = 0; length = 0; checksum = 0; status = 0; errors = 0; special = 0 })
    >>= clear_rx n (i + 1)

unfoldable pub clear_tx : ℕ → ℕ → List E1000TxDesc → Option (List E1000TxDesc)
clear_tx zero i descs = some descs
clear_tx (suc n) i descs =
    store descs i
      (record { buffer_addr = 0; length = 0; cso = 0; cmd = 0; status = 0x1; css = 0; special = 0 })
    >>= clear_tx n (i + 1)

-- A `uint64_t` as a variable argument
abbrev pub long_long : ℕ → List Arg → List Arg
long_long v args = word (v % 2 ^ 32) ∷ word (v / 2 ^ 32 % 2 ^ 32) ∷ args

-- What a call works on: the device, the two arrays of descriptors and the screen. `none` for the
-- device is a NULL pointer; an array has its address, and `none` for a NULL pointer.
pub record Network : Type 0 where
  pub dev : Option E1000
  pub rx : Option (ℕ × List E1000RxDesc)
  pub tx : Option (ℕ × List E1000TxDesc)
  pub screen : Screen

-- `e1000_init` behind its test of the pointers
unfoldable pub init_device :
    E1000 → ℕ → ℕ → List E1000RxDesc → ℕ → List E1000TxDesc → Screen → Option (ℤ × Network)
init_device dev mmio_base rx_addr rx_descs tx_addr tx_descs s = do
  s ← kprint (some (literal "e1000_init: Starting initialization...\n")) s
  let dev = record cleared { mmio_base = mmio_base }
  s ← kprintf (literal "MMIO Base set to 0x0%lx\n") (long_long dev.mmio_base []) s
  let dev = record dev {
    rx_ring = record { base = rx_addr; size = rx_ring_size; head = 0; tail = 0 };
    rx_desc_mem = rx_addr;
  }
  s ←
      kprintf (literal "RX Ring initialized: base=0x%lx, size=%d\n")
        (long_long dev.rx_ring.base (word rx_ring_size ∷ [])) s
  rx_descs ← clear_rx rx_ring_size 0 rx_descs
  let dev = record dev {
    tx_ring = record { base = tx_addr; size = tx_ring_size; head = 0; tail = 0 };
    tx_desc_mem = tx_addr;
  }
  s ←
      kprintf (literal "TX Ring initialized: base=0x%lx, size=%d\n")
        (long_long dev.tx_ring.base (word tx_ring_size ∷ [])) s
  tx_descs ← clear_tx tx_ring_size 0 tx_descs
  s ← kprint (some (literal "e1000_init: Initialization complete\n")) s
  s ←
      kprintf (literal "Final state: MMIO=0x%lx, RX base=0x%lx, TX base=0x%lx\n")
        (long_long dev.mmio_base (long_long dev.rx_ring.base (long_long dev.tx_ring.base []))) s
  some (
    pos 0,
    record {
      dev = some dev;
      rx = some (rx_addr, rx_descs);
      tx = some (tx_addr, tx_descs);
      screen = s;
    },
  )

unfoldable pub invalid_pointers : Network → Option (ℤ × Network)
invalid_pointers n =
    kprint (some (literal "e1000_init error: invalid pointer(s) provided\n")) n.screen >>= λ s.
    some (negsuc 0, record n { screen = s })

-- The three pointers, one by one
unfoldable pub init_pointers :
    Option E1000
    → Option (ℕ × List E1000RxDesc)
    → Option (ℕ × List E1000TxDesc)
    → ℕ
    → Network
    → Option (ℤ × Network)
unfolding init_device invalid_pointers
init_pointers (some dev) (some (rx_addr, rx)) (some (tx_addr, tx)) mmio_base n =
    init_device dev mmio_base rx_addr rx tx_addr tx n.screen
init_pointers none rx tx mmio_base n = invalid_pointers n
init_pointers (some dev) none tx mmio_base n = invalid_pointers n
init_pointers (some dev) (some rx) none mmio_base n = invalid_pointers n

unfoldable pub e1000_init : ℕ → Network → Option (ℤ × Network)
unfolding init_pointers
e1000_init mmio_base n = init_pointers n.dev n.rx n.tx mmio_base n

unfoldable pub e1000_destroy : Option E1000 → Screen → Option (Option E1000 × Screen)
e1000_destroy none s = some (none, s)
e1000_destroy (some dev) s = do
  s ← kprint (some (literal "e1000_destroy: Resetting device state...\n")) s
  let dev = record dev { rx_desc_mem = 0; tx_desc_mem = 0 }
  let dev = record dev { rx_ring = record { base = 0; size = 0; head = 0; tail = 0 } }
  let dev = record dev { tx_ring = record { base = 0; size = 0; head = 0; tail = 0 } }
  let dev = record dev { mmio_base = 0 }
  s ← kprint (some (literal "e1000_destroy: Device state reset complete\n")) s
  some (some dev, s)
