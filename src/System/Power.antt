-- ===== src/System/Power.antt =====
-- What the shutdown and the restart do to the machine.
use Prim.Native.Nat.{bit_and, bit_or}
use anaga.Prelude.{
  ℕ, zero, suc, ◌+◌, ◌*◌, ◌/◌, ◌%◌, ◌^◌, ◌<◌, ◌≤◌, ◌≡◌, ◌≢◌, ◌∙◌, refl, ap, inl, inr, List, [], ◌∷◌,
  ◌++◌, append-nil, Option, none, some, Bool, true, false, ◌||◌, ◌==◌, leb, leb-true, leb-false,
  lt-cases, Bool-cases, if◌then◌else◌, ◌>>=◌, literal, arith, eq→==, ne→==, Returns-elim,
}
use anaga.Prelude.Bits.{bit_or-split, bit_or-zero}
use anaga.CString.Text.{IsCString, IsCString-literal, text}
use anaga.Display.{Screen, put_all, kprint}
use anaga.Display.Safety
use anaga.Display.Safety.{put_all-append, put_all-IsValid, kprint_lem}
use anaga.Ports.{Ports}
use anaga.System.{
  Memory, u32_at, acpi_get_fadt, acpi_get_s5_sleep_type, system_is_hypervisor, enter_sleep,
  shutdown_with, system_shutdown, drain, system_reboot,
}

-- What `kprint` does with a text on a valid screen.
says_text :
    (str : List ℕ) (s : Screen)
    → IsCString str
    → Safety.IsValid s
    → (s' : Screen) × (kprint (some str) s ≡ some s')
      × (put_all (text str) s ≡ some s')
      × Safety.IsValid s'
says_text str s c v =
    let (s', e, safe) =
      Returns-elim (λ t. Safety.IsValid t) (put_all (text str) s)
        (put_all-IsValid (text str) s v) in
    (s', kprint_lem str s c ∙ e, e, safe)

-- Two messages one after another.
says_both :
    (first second : List ℕ) (s : Screen)
    → IsCString first
    → IsCString second
    → Safety.IsValid s
    → (s1 : Screen) × (s2 : Screen) × (kprint (some first) s ≡ some s1)
      × (kprint (some second) s1 ≡ some s2)
      × (put_all (text first ++ text second) s ≡ some s2)
      × Safety.IsValid s2
says_both first second s c d v =
    let (s1, says1, shown1, v1) = says_text first s c v in
    let (s2, says2, shown2, v2) = says_text second s1 d v1 in
    (
      s1,
      s2,
      says1,
      says2,
      put_all-append (text first) (text second) s
          ∙ ap (λ (m : Option Screen). m >>= put_all (text second)) shown1
          ∙ shown2,
      v2,
    )

-- What asks for the sleep state of a type in the PM1a control register: the type stands from bit 10
-- on, the bit that enables sleeping is bit 13, and the register has 16 bits.
abbrev pub sleep_request : ℕ → ℕ
sleep_request t = t / 16 % 4 * 2 ^ 14 + 2 ^ 13 + t % 8 * 2 ^ 10

low-or-one : (b : ℕ) → b < 2 → bit_or b 1 ≡ 1
low-or-one zero h = refl
low-or-one (suc zero) h = refl
low-or-one (suc (suc b)) h = absurd (omega arith)

sleep_value : (t : ℕ) → bit_or (t * 2 ^ 10) 0x2000 % 2 ^ 16 ≡ sleep_request t
sleep_value t =
    let low = t / 8 % 2 * 2 ^ 13 + t % 8 * 2 ^ 10 in
    let whole : t * 2 ^ 10 ≡ t / 16 * 2 ^ 14 + low = omega arith in
    let outer = bit_or-split 14 (t / 16) low 0 (1 * 2 ^ 13 + 0) (omega arith) (omega arith) in
    let inner = bit_or-split 13 (t / 8 % 2) (t % 8 * 2 ^ 10) 1 0 (omega arith) (omega arith) in
    ap (λ x. bit_or x 0x2000 % 2 ^ 16) whole
    ∙ omega (
      arith,
      outer,
      inner,
      bit_or-zero (t / 16),
      bit_or-zero (t % 8 * 2 ^ 10),
      low-or-one (t / 8 % 2) (omega arith),
    )

-- What the firmware says: whether it has a FADT, and then the PM1a control block and the sleep type.
abbrev pub Says : Memory → Option ℕ → ℕ → ℕ → Type 0
Says m none block t = acpi_get_fadt m ≡ some none
Says m (some fadt) block t =
    (acpi_get_fadt m ≡ some (some fadt))
    × (u32_at m (fadt + 64) ≡ some block)
    × (acpi_get_s5_sleep_type m ≡ some t)

Says-fadt :
    (m : Memory) (found : Option ℕ) (block t : ℕ)
    → Says m found block t
    → acpi_get_fadt m ≡ some found
Says-fadt m none block t h = h
Says-fadt m (some fadt) block t h = h.0

-- The words that a shutdown writes to ports, each behind its port, and what it prints.
abbrev pub requests : Bool → Option ℕ → ℕ → ℕ → List (ℕ × ℕ)
requests true found block t = (0x604, 0x2000) ∷ (0xB004, 0x2000) ∷ (0x4004, 0x3400) ∷ []
requests false none block t = []
requests false (some fadt) block t =
    if block % 2 ^ 16 == 0 || t == 0 then [] else (block % 2 ^ 16, sleep_request t) ∷ []

abbrev pub shutdown_text : Bool → Option ℕ → ℕ → ℕ → List ℕ
shutdown_text true found block t = text (literal "Shutting down...\n")
shutdown_text false none block t =
    text (literal "Shutting down (ACPI)...\n")
    ++ text (literal "ACPI FADT not found, cannot shutdown.\n")
shutdown_text false (some fadt) block t =
    text (literal "Shutting down (ACPI)...\n")
    ++ (if block % 2 ^ 16 == 0 || t == 0
        then text (literal "Invalid PM1a_CNT or SLP_TYP, cannot shutdown.\n")
        else [])

-- A keyboard controller as its documentation has it: it takes a command once its input buffer is
-- empty, which it is after at most `patience` more reads of the status, and a read of the data does not
-- fill that buffer.
pub record TakesCommands (p : Ports) : Type 0 where
  pub pending : p.Device → ℕ
  pub patience : ℕ
  pub patient : (d : p.Device) → pending d ≤ patience
  pub full : (d : p.Device) (n : ℕ) → pending d ≡ suc n → bit_and (p.inb 0x64 d).0 0x02 ≢ 0
  pub empty : (d : p.Device) → pending d ≡ 0 → bit_and (p.inb 0x64 d).0 0x02 ≡ 0
  pub polled : (d : p.Device) (n : ℕ) → pending d ≡ suc n → pending (p.inb 0x64 d).1 ≡ n
  pub polled_empty : (d : p.Device) → pending d ≡ 0 → pending (p.inb 0x64 d).1 ≡ 0
  pub data_keeps : (d : p.Device) → pending (p.inb 0x60 d).1 ≡ pending d

module _ (p : Ports) where
  -- The writes in their order.
  abbrev pub send : List (ℕ × ℕ) → p.Device → p.Device
  send [] d = d
  send ((port, v) ∷ words) d = send words (p.outw port v d)

  -- What a shutdown does, from `hypervisor` and what the firmware says.
  abbrev pub ShutDown :
      Bool → Option ℕ → ℕ → ℕ → p.Device → Screen → Option (p.Device × Screen) → Type 0
  ShutDown hypervisor found block t d s out =
      (s' : Screen) × (put_all (shutdown_text hypervisor found block t) s ≡ some s')
      × Safety.IsValid s'
      × (out ≡ some (send (requests hypervisor found block t) d, s'))

  shutdown_with_lem :
      (m : Memory) (found : Option ℕ) (block t : ℕ) (d : p.Device) (s : Screen)
      → Says m found block t
      → Safety.IsValid s
      → ShutDown false found block t d s (
          kprint (some (literal "Shutting down (ACPI)...\n")) s >>= λ s.
          shutdown_with p m found d s)
  unfolding shutdown_with enter_sleep
  shutdown_with_lem m none block t d s h v =
      let (s1, s2, says1, says2, shown, v2) =
        says_both (literal "Shutting down (ACPI)...\n")
          (literal "ACPI FADT not found, cannot shutdown.\n") s
          (IsCString-literal "Shutting down (ACPI)...\n")
          (IsCString-literal "ACPI FADT not found, cannot shutdown.\n") v in
      (s2, shown, v2, rw (says1, says2) refl)
  shutdown_with_lem m (some fadt) block t d s (table, at, type) v =
      elim (Bool-cases (block % 2 ^ 16 == 0 || t == 0)) [
        | inl invalid ↦
            let (s1, s2, says1, says2, shown, v2) =
              says_both (literal "Shutting down (ACPI)...\n")
                (literal "Invalid PM1a_CNT or SLP_TYP, cannot shutdown.\n") s
                (IsCString-literal "Shutting down (ACPI)...\n")
                (IsCString-literal "Invalid PM1a_CNT or SLP_TYP, cannot shutdown.\n") v in
            (s2, rw invalid shown, v2, rw (says1, at, type, invalid, says2) refl)
        | inr valid ↦
            let (s1, says1, shown, v1) =
              says_text (literal "Shutting down (ACPI)...\n") s
                (IsCString-literal "Shutting down (ACPI)...\n") v in
            (
              s1,
              rw (valid, append-nil (text (literal "Shutting down (ACPI)...\n"))) shown,
              v1,
              rw (says1, at, type, valid, sleep_value t) refl,
            )
      ]

  -- `system_shutdown`, with what `cpuid` and the firmware say, and on any valid screen. Under a
  -- hypervisor it writes to the ports at which QEMU, Bochs and VirtualBox take it, in this order.
  -- Without one it writes the request for the sleep type to the PM1a control block, if there is a
  -- FADT and the block and the type are not 0; else it writes nothing and prints why.
  pub system_shutdown_lem :
      (ecx : ℕ) (m : Memory) (found : Option ℕ) (block t : ℕ) (d : p.Device) (s : Screen)
      → ecx < 2 ^ 32
      → Says m found block t
      → Safety.IsValid s
      → ShutDown (leb (2 ^ 31) ecx) found block t d s (system_shutdown p ecx m d s)
  unfolding system_shutdown system_is_hypervisor
  system_shutdown_lem ecx m found block t d s small h v = elim (lt-cases ecx (2 ^ 31)) [
    | inr high ↦
        let (s', says, shown, v') =
          says_text (literal "Shutting down...\n") s (IsCString-literal "Shutting down...\n") v in
        let top : ecx / 2 ^ 31 ≡ 1 = omega arith in
        rw (leb-true (2 ^ 31) ecx high, top, says) (s', shown, v', refl)
    | inl low ↦
        let top : ecx / 2 ^ 31 ≡ 0 = omega arith in
        rw (leb-false (2 ^ 31) ecx low, top, Says-fadt m found block t h)
          (shutdown_with_lem m found block t d s h v)
  ]

  module _ (c : TakesCommands p) where
    open c use {pending}

    -- The read of the data, whether there is one or not.
    fetched : (b : Bool) (d : p.Device) → p.Device
    fetched b d = if b then d else (p.inb 0x60 d).1

    fetched-pending : (b : Bool) (d : p.Device) → pending (fetched b d) ≡ pending d
    unfolding fetched
    fetched-pending true d = refl
    fetched-pending false d = c.data_keeps d

    drain_lem :
        (polls n : ℕ) (d : p.Device)
        → pending d ≡ n
        → n < polls
        → (d' : p.Device) × (drain p polls d ≡ some d') × (pending d' ≡ 0)
    unfolding drain fetched
    drain_lem zero n d e h = absurd (omega arith)
    drain_lem (suc polls) zero d e h =
        let b = bit_and (p.inb 0x64 d).0 0x01 == 0 in
        let d1 = (p.inb 0x64 d).1 in
        (
          fetched b d1,
          rw (eq→== (bit_and (p.inb 0x64 d).0 0x02) 0 (c.empty d e), drain) refl,
          fetched-pending b d1 ∙ c.polled_empty d e,
        )
    drain_lem (suc polls) (suc n) d e h =
        let b = bit_and (p.inb 0x64 d).0 0x01 == 0 in
        let d1 = (p.inb 0x64 d).1 in
        let (d', f, r) =
          drain_lem polls n (fetched b d1) (fetched-pending b d1 ∙ c.polled d n e) (omega arith) in
        (d', rw (ne→== (bit_and (p.inb 0x64 d).0 0x02) 0 (c.full d n e), drain) f, r)

    -- `system_reboot` with a keyboard controller that follows the documentation, and more polls than it
    -- is ever busy for, gets to the command that resets the processor, after its message, and gives it
    -- when the controller takes commands.
    pub system_reboot_lem :
        (polls : ℕ) (d : p.Device) (s : Screen)
        → c.patience < polls
        → Safety.IsValid s
        → (s' : Screen) × (d' : p.Device) × (put_all (text (literal "Rebooting...\n")) s ≡ some s')
          × Safety.IsValid s'
          × (pending d' ≡ 0)
          × (system_reboot p polls d s ≡ some (p.outb 0x64 0xFE d', s'))
    unfolding system_reboot
    system_reboot_lem polls d s h v =
        let (s', says, shown, v') =
          says_text (literal "Rebooting...\n") s (IsCString-literal "Rebooting...\n") v in
        let (d', e, r) = drain_lem polls (pending d) d refl (omega (arith, c.patient d)) in
        (s', d', shown, v', r, rw (says, e) refl)
