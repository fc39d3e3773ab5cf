-- ===== src/Pci/Config.antt =====
-- The configuration space behind the two ports of the configuration mechanism.
use Prim.Native.Nat.{bit_and, bit_or}
use anaga.Prelude.{
  ℕ, ◌+◌, ◌*◌, ◌/◌, ◌%◌, ◌^◌, ◌<◌, ◌≡◌, ◌⊎◌, ◌∙◌, refl, ap, arith, ◌==◌, if◌then◌else◌, List, [],
  ◌∷◌, ◌++◌,
}
use anaga.Prelude.Bits.{
  bit_or-split, bit_and-split, bit_or-zero, bit_and-zero, zero-bit_or, bit_and-low, bit_and-ones,
}
use anaga.Ports.{Ports}
use anaga.Pci.{config_address, pci_read_config, mmio_base_of}

-- Two numbers with no bit in common.
or-disjoint : (k h l : ℕ) → l < 2 ^ k → 0 < 2 ^ k → bit_or (h * 2 ^ k) l ≡ h * 2 ^ k + l
or-disjoint k h l p q =
    let left : h * 2 ^ k ≡ h * 2 ^ k + 0 = omega arith in
    let right : l ≡ 0 * 2 ^ k + l = omega arith in
    ap (λ x. bit_or x l) left
    ∙ ap (bit_or (h * 2 ^ k + 0)) right
    ∙ bit_or-split k h 0 0 l q p
    ∙ omega (arith, ap (λ x. x * 2 ^ k) (bit_or-zero h), zero-bit_or l)

-- A register of a function, as the mechanism numbers it.
abbrev pub register : ℕ → ℕ → ℕ → ℕ → ℕ
register bus slot func offset = 2 ^ 31 + bus * 2 ^ 16 + slot * 2 ^ 11 + func * 2 ^ 8 + offset

address :
    (bus slot func offset : ℕ)
    → bus < 256
    → slot < 32
    → func < 8
    → offset < 256
    → bit_or
        (bit_or (bit_or (bit_or (bus * 2 ^ 16) (slot * 2 ^ 11)) (func * 2 ^ 8)) offset)
        0x80000000
      ≡ register bus slot func offset
address bus slot func offset a b c o =
    let first : bit_or (bus * 2 ^ 16) (slot * 2 ^ 11) ≡ (bus * 32 + slot) * 2 ^ 11 =
      or-disjoint 16 bus (slot * 2 ^ 11) (omega arith) (omega arith) ∙ omega arith in
    let second : bit_or ((bus * 32 + slot) * 2 ^ 11) (func * 2 ^ 8)
        ≡ ((bus * 32 + slot) * 8 + func) * 2 ^ 8 =
      or-disjoint 11 (bus * 32 + slot) (func * 2 ^ 8) (omega arith) (omega arith) ∙ omega arith in
    let third = or-disjoint 8 ((bus * 32 + slot) * 8 + func) offset (omega arith) (omega arith) in
    let low = ((bus * 32 + slot) * 8 + func) * 2 ^ 8 + offset in
    let top : bit_or low 0x80000000 ≡ 2 ^ 31 + low =
      ap (λ x. bit_or x 0x80000000) (let e : low ≡ 0 * 2 ^ 31 + low = omega arith in e)
      ∙ bit_or-split 31 0 low 1 0 (omega arith) (omega arith)
      ∙ omega (arith, bit_or-zero low, zero-bit_or 1) in
    rw (first, second, third, top) (omega arith)

-- A mask that clears the bits below bit `k` of a word.
and-high :
    (k : ℕ) (x m : ℕ)
    → x < 2 ^ 32
    → 0 < 2 ^ k
    → bit_and (x / 2 ^ k) m ≡ x / 2 ^ k
    → x % 2 ^ k < 2 ^ k
    → x ≡ x / 2 ^ k * 2 ^ k + x % 2 ^ k
    → bit_and x (m * 2 ^ k) ≡ x / 2 ^ k * 2 ^ k
and-high k x m h pos fits small split =
    let right : m * 2 ^ k ≡ m * 2 ^ k + 0 = omega arith in
    ap (λ y. bit_and y (m * 2 ^ k)) split
    ∙ ap (bit_and (x / 2 ^ k * 2 ^ k + x % 2 ^ k)) right
    ∙ bit_and-split k (x / 2 ^ k) (x % 2 ^ k) m 0 small pos
    ∙ omega (arith, ap (λ y. y * 2 ^ k) fits, bit_and-zero (x % 2 ^ k))

pub and-io_mask : (x : ℕ) → x < 2 ^ 32 → bit_and x 0xFFFFFFFC ≡ x / 4 * 4
and-io_mask x h =
    and-high 2 x 0x3FFFFFFF h (omega arith) (bit_and-ones 30 (x / 4) (omega arith)) (omega arith)
      (omega arith)

and-mem_mask : (x : ℕ) → x < 2 ^ 32 → bit_and x 0xFFFFFFF0 ≡ x / 16 * 16
and-mem_mask x h =
    and-high 4 x 0x0FFFFFFF h (omega arith) (bit_and-ones 28 (x / 16) (omega arith)) (omega arith)
      (omega arith)

-- The top bit of a byte.
pub and-flag : (x : ℕ) → x < 256 → bit_and x 0x80 ≡ x / 128 % 2 * 128
and-flag x h =
    ap (λ y. bit_and y 0x80) (let e : x ≡ x / 128 * 2 ^ 7 + x % 128 = omega arith in e)
    ∙ bit_and-split 7 (x / 128) (x % 128) 1 0 (omega arith) (omega arith)
    ∙ omega (arith, bit_and-low 1 (x / 128), bit_and-zero (x % 128))

-- Where the registers of a device in memory stand, by its first two base addresses: an address in the
-- port space, or one of 64 bits.
abbrev pub device_base : ℕ → ℕ → ℕ
device_base bar0 bar1 = if bar0 % 2 == 0 then bar1 * 2 ^ 32 + bar0 / 16 * 16 else bar0 / 4 * 4

pub mmio_base_of_lem :
    (bar0 bar1 : ℕ) → bar0 < 2 ^ 32 → bar1 < 2 ^ 32 → mmio_base_of bar0 bar1 ≡ device_base bar0 bar1
unfolding mmio_base_of
mmio_base_of_lem bar0 bar1 h k =
    let parity : bit_and bar0 0x1 ≡ bar0 % 2 = bit_and-low 1 bar0 in
    let upper : bit_and bar1 0xFFFFFFFF ≡ bar1 = bit_and-ones 32 bar1 k in
    let lower : bit_and bar0 0xFFFFFFF0 ≡ bar0 / 16 * 16 = and-mem_mask bar0 h in
    let joined : bit_or (bar0 / 16 * 16) (bar1 * 2 ^ 32) ≡ bar1 * 2 ^ 32 + bar0 / 16 * 16 =
      ap (λ x. bit_or x (bar1 * 2 ^ 32))
        (let e : bar0 / 16 * 16 ≡ 0 * 2 ^ 32 + bar0 / 16 * 16 = omega arith in e)
      ∙ ap (bit_or (0 * 2 ^ 32 + bar0 / 16 * 16))
          (let e : bar1 * 2 ^ 32 ≡ bar1 * 2 ^ 32 + 0 = omega arith in e)
      ∙ bit_or-split 32 0 (bar0 / 16 * 16) bar1 0 (omega arith) (omega arith)
      ∙ omega (arith, zero-bit_or bar1, bit_or-zero (bar0 / 16 * 16)) in
    rw (parity, upper, lower, joined, and-io_mask bar0 h) refl

-- A word that is written to a port touches none of the eight ports of the mechanism.
abbrev pub IsApart : ℕ → Type 0
IsApart port = (port + 1 < 0xCF8) ⊎ (0xCFF < port)

-- Where the I/O ports of a UHCI controller begin.
abbrev pub uhci_base : (ℕ → ℕ) → ℕ → ℕ → ℕ → ℕ
uhci_base cfg bus slot func = cfg (register bus slot func 0x10) / 4 * 4

-- The mechanism as its documentation has it: a word written to the address port chooses the register
-- that the data port reads; neither that write nor that read changes a register, and nor does a write
-- to ports that are not those of the mechanism. The firmware has given the UHCI controllers ports
-- apart from those, also for the two registers that the kernel writes. `sent` is the record of the
-- words that `outw` has written, each with its port.
pub record IsPci (p : Ports) : Type 0 where
  pub config : p.Device → ℕ → ℕ
  pub read : (d : p.Device) (a : ℕ) → (p.inl 0xCFC (p.outl 0xCF8 a d)).0 ≡ config d a
  pub word : (d : p.Device) (a : ℕ) → config d a < 2 ^ 32
  pub address_keeps : (d : p.Device) (a : ℕ) → config (p.outl 0xCF8 a d) ≡ config d
  pub data_keeps : (d : p.Device) → config (p.inl 0xCFC d).1 ≡ config d
  pub apart_keeps : (d : p.Device) (port v : ℕ) → IsApart port → config (p.outw port v d) ≡ config d
  pub sent : p.Device → List (ℕ × ℕ)
  pub address_sends : (d : p.Device) (a : ℕ) → sent (p.outl 0xCF8 a d) ≡ sent d
  pub data_sends : (d : p.Device) → sent (p.inl 0xCFC d).1 ≡ sent d
  pub word_sends : (d : p.Device) (port v : ℕ) → sent (p.outw port v d) ≡ sent d ++ (port, v) ∷ []
  pub uhci_apart :
      (d : p.Device) (bus slot func : ℕ)
      → config d (register bus slot func 0x08) / 2 ^ 8 ≡ 0x0C0300
      → IsApart (uhci_base (config d) bus slot func % 2 ^ 16)
        × IsApart ((uhci_base (config d) bus slot func + 2) % 2 ^ 16)

module _ (p : Ports) (c : IsPci p) where
  open c use {config, sent}

  pub read_lem :
      (d : p.Device) (bus slot func offset o : ℕ)
      → bus < 256
      → slot < 32
      → func < 8
      → o < 256
      → bit_and offset 0xFC ≡ o
      → (pci_read_config p bus slot func offset d).0 ≡ config d (register bus slot func o)
  unfolding pci_read_config config_address
  read_lem d bus slot func offset o a b f small e =
      c.read d (config_address bus slot func offset)
      ∙ ap (config d) (rw e (address bus slot func o a b f small))

  pub read_keeps :
      (d : p.Device) (bus slot func offset : ℕ)
      → config (pci_read_config p bus slot func offset d).1 ≡ config d
  unfolding pci_read_config
  read_keeps d bus slot func offset =
      let a = config_address bus slot func offset in
      c.data_keeps (p.outl 0xCF8 a d) ∙ c.address_keeps d a

  pub read_sends :
      (d : p.Device) (bus slot func offset : ℕ)
      → sent (pci_read_config p bus slot func offset d).1 ≡ sent d
  unfolding pci_read_config
  read_sends d bus slot func offset =
      let a = config_address bus slot func offset in
      c.data_sends (p.outl 0xCF8 a d) ∙ c.address_sends d a
