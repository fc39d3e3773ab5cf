-- ===== src/Drive/Transfer.antt =====
-- `drive_read_sector` and `drive_write_sector` read and replace the sectors of the drive, as the file
-- system sees them.
use mathlib.Core.Path.{fun_ext}
use anaga.Prelude.{
  ℕ, zero, suc, ◌+◌, ◌/◌, ◌%◌, ◌^◌, ◌<◌, ◌≡◌, ◌∙◌, refl, sym, ap, List, [], ◌∷◌, ◌++◌, some, Bool,
  true, false, ◌==◌, if◌then◌else◌, length, get_elem?, get_elem?_of_lt, take, set, length-set,
  length-take, store_lem, arith, append-nil, append_assoc, eq→==, ne→==,
}
use anaga.Ports.{Ports}
use anaga.Disk
use anaga.Disk.{Disk}
use anaga.Drive.{read_words, write_words, drive_read_sector, drive_write_sector}
use anaga.Drive.Access.{addressed, command_read, command_write, wait_drq_lem, command_lem}
use anaga.Drive.Protocol.{sending, receiving, Ata, IsAta}

take_set : (xs : List ℕ) (i v : ℕ) → i < length xs → take (suc i) (set xs i v) ≡ take i xs ++ v ∷ []
take_set [] i v h = absurd (omega arith)
take_set (x ∷ xs) zero v h = refl
take_set (x ∷ xs) (suc i) v h = ap (λ l. x ∷ l) (take_set xs i v (omega arith))

take_snoc :
    (xs : List ℕ) (i v : ℕ) → get_elem? xs i ≡ some v → take (suc i) xs ≡ take i xs ++ v ∷ []
take_snoc [] i v h = cc
take_snoc (x ∷ xs) zero v h = let e : x ≡ v = cc h in ap (λ y. y ∷ []) e
take_snoc (x ∷ xs) (suc i) v h = ap (λ l. x ∷ l) (take_snoc xs i v h)

take-length : (xs : List ℕ) → take (length xs) xs ≡ xs
take-length [] = refl
take-length (x ∷ xs) = ap (λ l. x ∷ l) (take-length xs)

-- The bytes of the words that the data port transfers, the lower one first.
unfoldable pub bytes_of : List ℕ → List ℕ
bytes_of [] = []
bytes_of (w ∷ ws) = w % 2 ^ 8 ∷ w / 2 ^ 8 % 2 ^ 8 ∷ bytes_of ws

if_bytes :
    (b : Bool) (xs ys : List ℕ)
    → bytes_of (if b then xs else ys) ≡ (if b then bytes_of xs else bytes_of ys)
if_bytes true xs ys = refl
if_bytes false xs ys = refl

first_word : (ws : List ℕ) → length ws ≡ 256 → (w : ℕ) × (rest : List ℕ) × (ws ≡ w ∷ rest)
first_word [] h = absurd (omega arith)
first_word (w ∷ rest) h = (w, rest, refl)

module _ (p : Ports) (c : IsAta p) where
  open c use {view, delay}

  read_words_lem :
      (n i : ℕ) (buffer ws : List ℕ) (d : p.Device)
      → delay d ≡ 0
      → (view d).phase ≡ sending ws
      → length ws ≡ n
      → length buffer ≡ i + n
      → (d' : p.Device) × (read_words p n i buffer d ≡ some (take i buffer ++ ws, d'))
        × (view d' ≡ record (view d) { phase = sending [] })
  unfolding read_words
  read_words_lem zero i buffer [] d r e k size =
      let whole : i ≡ length buffer = omega arith in
      (
        d,
        ap (λ b. some (b, d))
            (sym (append-nil (take i buffer) ∙ ap (λ j. take j buffer) whole ∙ take-length buffer)),
        ap (λ ph. record (view d) { phase = ph }) e,
      )
  read_words_lem zero i buffer (w ∷ ws) d r e k size = absurd (omega arith)
  read_words_lem (suc n) i buffer [] d r e k size = absurd (omega arith)
  read_words_lem (suc n) i buffer (w ∷ ws) d r e k size =
      let (word, v, r') = c.sends d w ws r e in
      let d1 = (p.inw 0x1F0 d).1 in
      let (d', f, v') =
        read_words_lem n (suc i) (set buffer i w) ws d1 r' (ap (λ (a : Ata). a.phase) v)
          (omega arith) (omega (arith, length-set buffer i w)) in
      let next : i + 1 ≡ suc i = omega arith in
      (
        d',
        rw (word, store_lem buffer i w (omega arith), next)
            (f
              ∙ ap (λ b. some (b ++ ws, d')) (take_set buffer i w (omega arith))
              ∙ ap (λ b. some (b, d')) (append_assoc (take i buffer) (w ∷ []) ws)),
        v' ∙ ap (λ (a : Ata). record a { phase = sending [] }) v,
      )

  -- The drive with one sector replaced.
  abbrev stored : ℕ → List ℕ → Ata → Ata
  stored lba buffer a = record a {
    sectors = λ k. if k == lba then buffer else a.sectors k;
    phase = sending [];
  }

  write_words_lem :
      (n i lba : ℕ) (buffer : List ℕ) (d : p.Device)
      → delay d ≡ 0
      → (view d).phase ≡ receiving lba (take i buffer)
      → length buffer ≡ 256
      → i + suc n ≡ 256
      → (d' : p.Device) × (write_words p (suc n) i buffer d ≡ some d')
        × (view d' ≡ stored lba buffer (view d))
  unfolding write_words
  write_words_lem zero i lba buffer d r e size total =
      let (w, at) = get_elem?_of_lt buffer i (omega arith) in
      let front : length (take i buffer) ≡ 255 = length-take i buffer (omega arith) ∙ omega arith in
      let i_last : suc i ≡ length buffer = omega arith in
      let whole : take i buffer ++ w ∷ [] ≡ buffer =
        sym (take_snoc buffer i w at) ∙ ap (λ j. take j buffer) i_last ∙ take-length buffer in
      (
        p.outw 0x1F0 w d,
        rw at refl,
        c.receives d lba (take i buffer) w r e
            ∙ rw (eq→== (length (take i buffer)) 255 front, whole) refl,
      )
  write_words_lem (suc n) i lba buffer d r e size total =
      let (w, at) = get_elem?_of_lt buffer i (omega arith) in
      let front = length-take i buffer (omega arith) in
      let d1 = p.outw 0x1F0 w d in
      let v : view d1 ≡ record (view d) { phase = receiving lba (take (suc i) buffer) } =
        c.receives d lba (take i buffer) w r e
        ∙ rw (ne→== (length (take i buffer)) 255 (λ z. omega arith), take_snoc buffer i w at)
            refl in
      let (d', f, v') =
        write_words_lem n (suc i) lba buffer d1
          (c.receives_ready d lba (take i buffer) w r e (omega arith)) (ap (λ (a : Ata). a.phase) v)
          size (omega arith) in
      let next : i + 1 ≡ suc i = omega arith in (d', rw (at, next) f, v' ∙ ap (stored lba buffer) v)

  -- The drive as the file system sees it: the bytes of every sector.
  pub disk_of : p.Device → Disk
  disk_of d k = bytes_of ((view d).sectors k)

  -- `drive_read_sector` of a drive that follows the documentation, with more polls than the drive is
  -- ever busy for, returns: the buffer has the sector as the file system sees it, and the disk is what
  -- it was.
  pub drive_read_sector_lem :
      (polls lba : ℕ) (buffer : List ℕ) (d : p.Device)
      → c.patience < polls
      → lba < 2 ^ 28
      → length buffer ≡ 256
      → length ((view d).sectors lba) ≡ 256
      → (out : List ℕ) × (d' : p.Device) × (drive_read_sector p polls lba buffer d ≡ some (out, d'))
        × (bytes_of out ≡ Disk.drive_read_sector lba (disk_of d))
        × (disk_of d' ≡ disk_of d)
  unfolding drive_read_sector Disk.drive_read_sector disk_of
  drive_read_sector_lem polls lba buffer d h small size words =
      let sector = (view d).sectors lba in
      let (w, ws, split) = first_word sector words in
      let (d1, d2, e1, e2, v2, r2) = command_lem p c 0x20 polls lba d h in
      let v : view d2 ≡ record (addressed lba (view d)) { phase = sending sector } =
        v2 ∙ command_read lba (view d) small in
      let asks = c.asks_read d2 w ws r2 (ap (λ (a : Ata). a.phase) v ∙ ap sending split) in
      let d3 = (p.inb 0x1F7 d2).1 in
      let v3 = c.status_keeps d2 ∙ v in
      let (d4, e4, v4) =
        read_words_lem 256 0 buffer sector d3 (c.polled_ready d2 r2) (ap (λ (a : Ata). a.phase) v3)
          words (omega arith) in
      (
        sector,
        d4,
        rw (e1, e2, wait_drq_lem p c polls d2 (omega arith) asks) e4,
        refl,
        ap {B = Disk} (λ (a : Ata) k. bytes_of (a.sectors k))
            (v4 ∙ ap (λ (a : Ata). record a { phase = sending [] }) v3),
      )

  -- `drive_write_sector` in the same drive returns: the disk is what it was, with the bytes of the
  -- buffer for that sector.
  pub drive_write_sector_lem :
      (polls lba : ℕ) (buffer : List ℕ) (d : p.Device)
      → c.patience < polls
      → lba < 2 ^ 28
      → length buffer ≡ 256
      → (d' : p.Device) × (drive_write_sector p polls lba buffer d ≡ some d')
        × (disk_of d' ≡ Disk.drive_write_sector lba (bytes_of buffer) (disk_of d))
  unfolding drive_write_sector Disk.drive_write_sector disk_of
  drive_write_sector_lem polls lba buffer d h small size =
      let (d1, d2, e1, e2, v2, r2) = command_lem p c 0x30 polls lba d h in
      let v : view d2 ≡ record (addressed lba (view d)) { phase = receiving lba [] } =
        v2 ∙ command_write lba (view d) small in
      let asks = c.asks_write d2 lba [] r2 (ap (λ (a : Ata). a.phase) v) in
      let d3 = (p.inb 0x1F7 d2).1 in
      let v3 = c.status_keeps d2 ∙ v in
      let (d4, e4, v4) =
        write_words_lem 255 0 lba buffer d3 (c.polled_ready d2 r2) (ap (λ (a : Ata). a.phase) v3)
          size (omega arith) in
      (
        d4,
        rw (e1, e2, wait_drq_lem p c polls d2 (omega arith) asks) e4,
        ap {B = Disk} (λ (a : Ata) k. bytes_of (a.sectors k)) (v4 ∙ ap (stored lba buffer) v3)
            ∙ fun_ext (λ k. if_bytes (k == lba) buffer ((view d).sectors k)),
      )
