-- ===== src/E1000/Rings.antt =====
-- What `e1000_init` makes of the device and of its rings.
use mathlib.Core.Path.{fun_ext}
use anaga.Prelude.{
  ℕ, zero, suc, ◌+◌, ◌<◌, ◌≡◌, ◌∙◌, refl, sym, ap, List, [], ◌∷◌, Option, some, ◌>>=◌, get_elem?,
  length, store, literal, ℤ, pos, arith, Returns-elim,
}
use anaga.Prelude.Fill.{fill, Filled, fill_lem}
use anaga.CString.Text.{IsCString-literal}
use anaga.Display.{put_all, Screen}
use anaga.Display.Safety
use anaga.Display.Printf.{word}
use anaga.Display.Format.{Fits}
use anaga.Display.Lines.{
  Lines, Line, formats, says, AllFit, print_lines, print_lines_lem, print_with, print_with_lem,
}
use anaga.E1000.{
  E1000, E1000RxDesc, E1000TxDesc, Network, rx_ring_size, tx_ring_size, long_long, clear_rx,
  clear_tx, init_device, e1000_init, init_pointers,
}

abbrev pub empty_rx : E1000RxDesc
empty_rx = record { buffer_addr = 0; length = 0; checksum = 0; status = 0; errors = 0; special = 0 }

-- A descriptor of the transmit ring is done from the start.
abbrev pub empty_tx : E1000TxDesc
empty_tx = record {
  buffer_addr = 0;
  length = 0;
  cso = 0;
  cmd = 0;
  status = 1;
  css = 0;
  special = 0;
}

-- The messages of a start, with the arguments as `kprintf` takes them: the size that it prints of a
-- ring is the upper word of the ring's address, and the bases that it prints at the end are the upper
-- word of the device's address and the base of the receive ring.
abbrev pub start_lines : ℕ → ℕ → ℕ → List Line
start_lines mmio_base rx_addr tx_addr =
    says (literal "e1000_init: Starting initialization...\n")
    ∷ formats (literal "MMIO Base set to 0x0%lx\n") (long_long mmio_base [])
    ∷ formats (literal "RX Ring initialized: base=0x%lx, size=%d\n")
        (long_long rx_addr (word rx_ring_size ∷ []))
    ∷ formats (literal "TX Ring initialized: base=0x%lx, size=%d\n")
        (long_long tx_addr (word tx_ring_size ∷ []))
    ∷ says (literal "e1000_init: Initialization complete\n")
    ∷ formats (literal "Final state: MMIO=0x%lx, RX base=0x%lx, TX base=0x%lx\n")
        (long_long mmio_base (long_long rx_addr (long_long tx_addr [])))
    ∷ []

pub start_lines-AllFit :
    (mmio_base rx_addr tx_addr : ℕ) → AllFit (start_lines mmio_base rx_addr tx_addr)
unfolding Fits
start_lines-AllFit m r t = (
  IsCString-literal "e1000_init: Starting initialization...\n",
  (
    ((omega arith, refl), tt),
    (
      ((omega arith, refl), ((omega arith, refl), tt)),
      (
        ((omega arith, refl), ((omega arith, refl), tt)),
        (
          IsCString-literal "e1000_init: Initialization complete\n",
          (((omega arith, refl), ((omega arith, refl), ((omega arith, refl), tt))), tt),
        ),
      ),
    ),
  ),
)

clear_rx-fill :
    (n i : ℕ) (descs : List E1000RxDesc) → clear_rx n i descs ≡ fill (λ j. empty_rx) n i descs
unfolding clear_rx fill
clear_rx-fill zero i descs = refl
clear_rx-fill (suc n) i descs =
    ap (λ (f : List E1000RxDesc → Option (List E1000RxDesc)). store descs i empty_rx >>= f)
      (fun_ext (clear_rx-fill n (i + 1)))

clear_tx-fill :
    (n i : ℕ) (descs : List E1000TxDesc) → clear_tx n i descs ≡ fill (λ j. empty_tx) n i descs
unfolding clear_tx fill
clear_tx-fill zero i descs = refl
clear_tx-fill (suc n) i descs =
    ap (λ (f : List E1000TxDesc → Option (List E1000TxDesc)). store descs i empty_tx >>= f)
      (fun_ext (clear_tx-fill n (i + 1)))

-- The device on its rings.
abbrev pub started : ℕ → ℕ → ℕ → E1000
started mmio_base rx_addr tx_addr = record {
  rx_ring = record { base = rx_addr; size = 128; head = 0; tail = 0 };
  tx_ring = record { base = tx_addr; size = 128; head = 0; tail = 0 };
  mmio_base = mmio_base;
  rx_desc_mem = rx_addr;
  tx_desc_mem = tx_addr;
}

abbrev pub on_rings : ℕ → ℕ → List E1000RxDesc → ℕ → List E1000TxDesc → Screen → ℤ × Network
on_rings mmio_base rx_addr rx tx_addr tx s = (
  pos 0,
  record {
    dev = some (started mmio_base rx_addr tx_addr);
    rx = some (rx_addr, rx);
    tx = some (tx_addr, tx);
    screen = s;
  },
)

-- The descriptors behind a start.
pub record AreEmpty (rx : List E1000RxDesc) (tx : List E1000TxDesc) : Type 0 where
  pub rx_size : length rx ≡ rx_ring_size
  pub tx_size : length tx ≡ tx_ring_size
  pub rx_empty : (j : ℕ) → j < rx_ring_size → get_elem? rx j ≡ some empty_rx
  pub tx_empty : (j : ℕ) → j < tx_ring_size → get_elem? tx j ≡ some empty_tx

-- A start in terms of its messages.
pub init_device_lem :
    (dev : E1000) (mmio_base rx_addr : ℕ) (rx : List E1000RxDesc) (tx_addr : ℕ)
    (tx : List E1000TxDesc)
    → length rx ≡ rx_ring_size
    → length tx ≡ tx_ring_size
    → (rx' : List E1000RxDesc) × (tx' : List E1000TxDesc) × AreEmpty rx' tx'
      × ((s : Screen)
          → init_device dev mmio_base rx_addr rx tx_addr tx s ≡ (
              print_lines (start_lines mmio_base rx_addr tx_addr) s >>= λ s'.
              some (on_rings mmio_base rx_addr rx' tx_addr tx' s')))
unfolding init_device print_with
init_device_lem dev mmio_base rx_addr rx tx_addr tx h k =
    let (rx', e, f) =
      Returns-elim (Filled (λ j. empty_rx) 128 0 rx) (fill (λ j. empty_rx) 128 0 rx)
        (fill_lem (λ j. empty_rx) 128 0 rx (omega arith)) in
    let (tx', e', f') =
      Returns-elim (Filled (λ j. empty_tx) 128 0 tx) (fill (λ j. empty_tx) 128 0 tx)
        (fill_lem (λ j. empty_tx) 128 0 tx (omega arith)) in
    (
      rx',
      tx',
      record {
        rx_size = f.size ∙ h;
        tx_size = f'.size ∙ k;
        rx_empty = λ j lt. f.set j (omega arith) (omega arith);
        tx_empty = λ j lt. f'.set j (omega arith) (omega arith);
      },
      λ s.
          rw (clear_rx-fill 128 0 rx ∙ e, clear_tx-fill 128 0 tx ∙ e')
            (print_with_lem (start_lines mmio_base rx_addr tx_addr)
              (λ s'. some (on_rings mmio_base rx_addr rx' tx_addr tx' s')) s),
    )

-- `e1000_init` with no NULL pointer returns 0: the device is on the two rings, which have 128
-- descriptors each, all of them cleared but for the status of those to transmit; it has printed its
-- messages, and the cursor is on the screen still.
pub e1000_init_lem :
    (mmio_base rx_addr tx_addr : ℕ) (dev : E1000) (rx : List E1000RxDesc) (tx : List E1000TxDesc)
    (s : Screen)
    → length rx ≡ rx_ring_size
    → length tx ≡ tx_ring_size
    → Safety.IsValid s
    → (rx' : List E1000RxDesc) × (tx' : List E1000TxDesc) × (out : List ℕ) × (s' : Screen)
      × AreEmpty rx' tx'
      × Lines (start_lines mmio_base rx_addr tx_addr) out
      × (put_all out s ≡ some s')
      × Safety.IsValid s'
      × (e1000_init mmio_base (record {
        dev = some dev;
        rx = some (rx_addr, rx);
        tx = some (tx_addr, tx);
        screen = s;
      })
          ≡ some (on_rings mmio_base rx_addr rx' tx_addr tx' s'))
unfolding e1000_init init_pointers
e1000_init_lem mmio_base rx_addr tx_addr dev rx tx s h k v =
    let (rx', tx', empty, e) = init_device_lem dev mmio_base rx_addr rx tx_addr tx h k in
    let (out, lines, p, safe) =
      print_lines_lem (start_lines mmio_base rx_addr tx_addr) s
        (start_lines-AllFit mmio_base rx_addr tx_addr) v in
    let (s', done, valid) =
      Returns-elim (λ t. Safety.IsValid t) (print_lines (start_lines mmio_base rx_addr tx_addr) s)
        safe in
    (rx', tx', out, s', empty, lines, sym p ∙ done, valid, e s ∙ rw done refl)
