-- ===== src/Drive/Protocol.antt =====
-- What a drive does at its ports, as the ATA documentation has it for transfers of one sector by
-- programmed input and output.
use Prim.Native.Nat.{bit_and}
use anaga.Prelude.{
  ℕ, suc, ◌+◌, ◌*◌, ◌/◌, ◌%◌, ◌^◌, ◌<◌, ◌≤◌, ◌≡◌, ◌≢◌, List, [], ◌∷◌, ◌++◌, ◌&&◌, ◌==◌,
  if◌then◌else◌, length,
}
use anaga.Ports.{Ports}

-- The words that the host has to read still, or the sector that it writes with the words written so
-- far. A drive with nothing to do has no word to send.
pub data Phase : Type 0 where
  sending : List ℕ → Phase
  receiving : ℕ → List ℕ → Phase

-- The registers, the phase and the sectors of 256 words.
pub record Ata : Type 0 where
  pub sectors : ℕ → List ℕ
  pub count : ℕ
  pub low : ℕ
  pub mid : ℕ
  pub high : ℕ
  pub select : ℕ
  pub phase : Phase

-- The sector that the registers name.
abbrev pub chosen : Ata → ℕ
chosen a = a.select % 2 ^ 4 * 2 ^ 24 + a.high * 2 ^ 16 + a.mid * 2 ^ 8 + a.low

-- A command for one sector of the first drive, in the mode of logical addresses.
abbrev pub command : ℕ → Ata → Ata
command v a =
    if a.count == 1 && (a.select / 2 ^ 6 % 2 == 1 && a.select / 2 ^ 4 % 2 == 0)
    then if v == 0x20
      then record a { phase = sending (a.sectors (chosen a)) }
      else if v == 0x30
      then record a { phase = receiving (chosen a) [] }
      else a
    else a

-- A write to a register
abbrev pub write_register : ℕ → ℕ → Ata → Ata
write_register port v a =
    if port == 0x1F2
    then record a { count = v }
    else if port == 0x1F3
    then record a { low = v }
    else if port == 0x1F4
    then record a { mid = v }
    else if port == 0x1F5
    then record a { high = v }
    else if port == 0x1F6
    then record a { select = v }
    else if port == 0x1F7
    then command v a
    else a

-- A sector that is written whole is stored.
abbrev pub take_word : ℕ → List ℕ → ℕ → Ata → Ata
take_word lba ws v a =
    if length ws == 255
    then record a {
      sectors = λ k. if k == lba then ws ++ v ∷ [] else a.sectors k;
      phase = sending [];
    }
    else record a { phase = receiving lba (ws ++ v ∷ []) }

-- The drive is busy for `delay` more reads of its status, at most `patience` of them. While it is not,
-- its registers and its data port do as above, and only a command or a whole sector makes it busy.
pub record IsAta (p : Ports) : Type 0 where
  pub view : p.Device → Ata
  pub delay : p.Device → ℕ
  pub patience : ℕ
  pub patient : (d : p.Device) → delay d ≤ patience
  pub busy : (d : p.Device) (n : ℕ) → delay d ≡ suc n → bit_and (p.inb 0x1F7 d).0 0x80 ≢ 0
  pub ready : (d : p.Device) → delay d ≡ 0 → bit_and (p.inb 0x1F7 d).0 0x80 ≡ 0
  pub polled : (d : p.Device) (n : ℕ) → delay d ≡ suc n → delay (p.inb 0x1F7 d).1 ≡ n
  pub polled_ready : (d : p.Device) → delay d ≡ 0 → delay (p.inb 0x1F7 d).1 ≡ 0
  pub status_keeps : (d : p.Device) → view (p.inb 0x1F7 d).1 ≡ view d
  pub asks_read :
      (d : p.Device) (w : ℕ) (ws : List ℕ)
      → delay d ≡ 0
      → (view d).phase ≡ sending (w ∷ ws)
      → bit_and (p.inb 0x1F7 d).0 0x08 ≢ 0
  pub asks_write :
      (d : p.Device) (lba : ℕ) (ws : List ℕ)
      → delay d ≡ 0
      → (view d).phase ≡ receiving lba ws
      → bit_and (p.inb 0x1F7 d).0 0x08 ≢ 0
  pub register :
      (d : p.Device) (port v : ℕ)
      → delay d ≡ 0
      → view (p.outb port v d) ≡ write_register port v (view d)
  pub register_ready :
      (d : p.Device) (port v : ℕ) → port ≢ 0x1F7 → delay d ≡ 0 → delay (p.outb port v d) ≡ 0
  pub sends :
      (d : p.Device) (w : ℕ) (ws : List ℕ)
      → delay d ≡ 0
      → (view d).phase ≡ sending (w ∷ ws)
      → ((p.inw 0x1F0 d).0 ≡ w)
        × (view (p.inw 0x1F0 d).1 ≡ record (view d) { phase = sending ws })
        × (delay (p.inw 0x1F0 d).1 ≡ 0)
  pub receives :
      (d : p.Device) (lba : ℕ) (ws : List ℕ) (v : ℕ)
      → delay d ≡ 0
      → (view d).phase ≡ receiving lba ws
      → view (p.outw 0x1F0 v d) ≡ take_word lba ws v (view d)
  pub receives_ready :
      (d : p.Device) (lba : ℕ) (ws : List ℕ) (v : ℕ)
      → delay d ≡ 0
      → (view d).phase ≡ receiving lba ws
      → length ws < 255
      → delay (p.outw 0x1F0 v d) ≡ 0
