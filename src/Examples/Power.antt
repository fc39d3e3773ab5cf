-- ===== src/Examples/Power.antt =====
-- The theorems about the firmware, the shutdown, the restart and the timer, at a small machine.
use Prim.Native.Nat.{bit_and}
use mathlib.Core.Option
use anaga.Prelude.{
  ℕ, zero, suc, ◌+◌, ◌-◌, ◌*◌, ◌/◌, ◌%◌, ◌^◌, ◌<◌, ◌≤◌, ◌≡◌, ◌≢◌, refl, List, [], ◌∷◌, Bool, true,
  false, Option, none, some, ◌==◌, ltb, if◌then◌else◌, literal, arith, ltb-true, ltb-false,
}
use anaga.Prelude.First.{IsFirst}
use anaga.CString.Text.{text}
use anaga.Display.{Screen, put_all}
use anaga.Display.Safety
use anaga.Ports.{Ports}
use anaga.System.{
  Memory, fadt_signature, u8_at, u16_at, u32_at, u64_at, rsdp_from, acpi_find_rsdp, fadt_among,
  entries_of, fadt_of, acpi_get_fadt, byte_is, is_s5, has_package, s5_value, s5_from, s5_of,
  acpi_get_s5_sleep_type, system_shutdown, system_reboot, system_wait,
}
use anaga.System.Tables.{acpi_get_fadt_lem}
use anaga.System.Sleep.{Holds, ends_at, sleep_type, acpi_get_s5_sleep_type_lem}
use anaga.System.Power.{TakesCommands, ShutDown, system_shutdown_lem, system_reboot_lem}
use anaga.System.Timer.{ticks_in, system_wait_lem}
use anaga.Examples.State.{blank_screen, blank_screen-IsValid}

-- A byte of a table, 0 behind its end.
byte_of : List ℕ → ℕ → ℕ
byte_of [] i = 0
byte_of (b ∷ bs) zero = b
byte_of (b ∷ bs) (suc i) = byte_of bs i

-- A RSDT of one entry at 0x1000.
abbrev rsdt_bytes : List ℕ
rsdt_bytes =
    b'R' ∷ b'S' ∷ b'D' ∷ b'T' ∷ 40 ∷ 0 ∷ 0 ∷ 0 ∷ 0 ∷ 0 ∷ 0 ∷ 0 ∷ 0 ∷ 0 ∷ 0 ∷ 0 ∷ 0 ∷ 0 ∷ 0 ∷ 0 ∷ 0
    ∷ 0 ∷ 0 ∷ 0 ∷ 0 ∷ 0 ∷ 0 ∷ 0 ∷ 0 ∷ 0 ∷ 0 ∷ 0 ∷ 0 ∷ 0 ∷ 0 ∷ 0 ∷ 0 ∷ 0x20 ∷ 0 ∷ 0 ∷ []

-- A FADT at 0x2000: its DSDT is at 0x4000, its PM1a control block is port 0x604.
abbrev fadt_bytes : List ℕ
fadt_bytes =
    b'F' ∷ b'A' ∷ b'C' ∷ b'P' ∷ 16 ∷ 0 ∷ 0 ∷ 0 ∷ 0 ∷ 0 ∷ 0 ∷ 0 ∷ 0 ∷ 0 ∷ 0 ∷ 0 ∷ 0 ∷ 0 ∷ 0 ∷ 0 ∷ 0
    ∷ 0 ∷ 0 ∷ 0 ∷ 0 ∷ 0 ∷ 0 ∷ 0 ∷ 0 ∷ 0 ∷ 0 ∷ 0 ∷ 0 ∷ 0 ∷ 0 ∷ 0 ∷ 0 ∷ 0 ∷ 0 ∷ 0 ∷ 0 ∷ 0x40 ∷ 0 ∷ 0
    ∷ 0 ∷ 0 ∷ 0 ∷ 0 ∷ 0 ∷ 0 ∷ 0 ∷ 0 ∷ 0 ∷ 0 ∷ 0 ∷ 0 ∷ 0 ∷ 0 ∷ 0 ∷ 0 ∷ 0 ∷ 0 ∷ 0 ∷ 0 ∷ 4 ∷ 6 ∷ 0 ∷ 0
    ∷ []

-- `Name (_S5_, Package () {5, ...})`
abbrev dsdt_bytes : List ℕ
dsdt_bytes = 8 ∷ b'_' ∷ b'S' ∷ b'5' ∷ b'_' ∷ 0x12 ∷ 6 ∷ 4 ∷ 0x0A ∷ 5 ∷ []

abbrev rsdp_bytes : List ℕ
rsdp_bytes =
    b'R' ∷ b'S' ∷ b'D' ∷ b' ' ∷ b'P' ∷ b'T' ∷ b'R' ∷ b' ' ∷ 0 ∷ 0 ∷ 0 ∷ 0 ∷ 0 ∷ 0 ∷ 0 ∷ 0 ∷ 0 ∷ 0x10
    ∷ 0 ∷ 0 ∷ []

firmware : Memory
firmware addr = some (
    if ltb addr 0x2000
    then byte_of rsdt_bytes (addr - 0x1000)
    else if ltb addr 0x4000
    then byte_of fadt_bytes (addr - 0x2000)
    else if ltb addr 0xE0000
    then byte_of dsdt_bytes (addr - 0x4000)
    else byte_of rsdp_bytes (addr - 0xE0000))

firmware-rsdp : acpi_find_rsdp firmware ≡ some (some 0xE0000)
unfolding acpi_find_rsdp rsdp_from u64_at u32_at u16_at u8_at firmware byte_of
firmware-rsdp = refl

firmware-fadt : acpi_get_fadt firmware ≡ some (some 0x2000)
unfolding acpi_get_fadt fadt_of fadt_among entries_of acpi_find_rsdp rsdp_from u64_at u32_at u16_at
    u8_at firmware byte_of
firmware-fadt = refl

firmware-s5 : acpi_get_s5_sleep_type firmware ≡ some 6
unfolding acpi_get_s5_sleep_type s5_of s5_from s5_value is_s5 has_package byte_is acpi_get_fadt
    fadt_of fadt_among entries_of acpi_find_rsdp rsdp_from u64_at u32_at u16_at u8_at firmware
    byte_of
firmware-s5 = refl

firmware-Holds : Holds firmware 0x4000 (byte_of dsdt_bytes) 17
unfolding u8_at firmware
firmware-Holds j h =
    let low : (0x4000 + j) % 2 ^ 32 ≡ 0x4000 + j = omega arith in
    let at : 0x4000 + j - 0x4000 ≡ j = omega arith in
    rw
      (
        low,
        ltb-false (0x4000 + j) 0x2000 (omega arith),
        ltb-false (0x4000 + j) 0x4000 (omega arith),
        ltb-true (0x4000 + j) 0xE0000 (omega arith),
        at,
      )
      refl

below_one : (P : ℕ → Type 0) → P 0 → (j : ℕ) → j < 1 → P j
below_one P base zero h = base
below_one P base (suc j) h = absurd (omega arith)

acpi_get_fadt_example :
    (r : Option ℕ) × IsFirst (λ j. fadt_signature) fadt_signature 0 ((40 - 36) / 4) r
    × (acpi_get_fadt firmware ≡ some (Option.map (λ j. 0x2000) r))
unfolding u32_at u16_at u8_at firmware byte_of
acpi_get_fadt_example =
    acpi_get_fadt_lem firmware 0xE0000 0x1000 40 (λ j. 0x2000) (λ j. fadt_signature) firmware-rsdp
      refl refl (omega arith) (omega arith)
      (below_one (λ j. u32_at firmware (0x1000 + 36 + j * 4) ≡ some 0x2000) refl) (λ j h. refl)

acpi_get_s5_sleep_type_example :
    (r : Option ℕ) × IsFirst (ends_at (byte_of dsdt_bytes)) true 0 12 r
    × (acpi_get_s5_sleep_type firmware ≡ some (sleep_type (byte_of dsdt_bytes) r))
unfolding u32_at u16_at u8_at firmware byte_of
acpi_get_s5_sleep_type_example =
    acpi_get_s5_sleep_type_lem firmware 0x2000 0x4000 16 (byte_of dsdt_bytes) firmware-fadt refl
      refl (omega arith) (omega arith) firmware-Holds

-- A keyboard controller that is busy with a command, or not.
abbrev status : Bool → ℕ
status true = 0x1E
status false = 0x1C

abbrev answer : Bool → Bool → ℕ × Bool
answer true busy = (status busy, false)
answer false busy = (0x9C, busy)

abbrev controller : Ports
controller = record {
  Device = Bool;
  inb = λ port busy. answer (port == 0x64) busy;
  outb = λ port v busy. true;
  inw = λ port busy. (0xFFFF, busy);
  outw = λ port v busy. busy;
  inl = λ port busy. (0xFFFFFFFF, busy);
  outl = λ port v busy. busy;
}

abbrev pending_of : Bool → ℕ
pending_of true = 1
pending_of false = 0

pending_of-le : (b : Bool) → pending_of b ≤ 1
pending_of-le true = omega arith
pending_of-le false = omega arith

status_full : (b : Bool) (n : ℕ) → pending_of b ≡ suc n → bit_and (status b) 0x02 ≢ 0
status_full true n e = λ z. omega arith
status_full false n e = absurd (omega arith)

status_empty : (b : Bool) → pending_of b ≡ 0 → bit_and (status b) 0x02 ≡ 0
status_empty true e = absurd (omega arith)
status_empty false e = refl

polled_once : (b : Bool) (n : ℕ) → pending_of b ≡ suc n → 0 ≡ n
polled_once true n e = omega arith
polled_once false n e = absurd (omega arith)

abbrev controller-TakesCommands : TakesCommands controller
controller-TakesCommands = record {
  pending = pending_of;
  patience = 1;
  patient = pending_of-le;
  full = status_full;
  empty = status_empty;
  polled = polled_once;
  polled_empty = λ b e. refl;
  data_keeps = λ b. refl;
}

system_shutdown_example :
    ShutDown controller false
      (some 0x2000)
      0x604
      6
      false
      blank_screen
      (system_shutdown controller 0 firmware false blank_screen)
unfolding u32_at u16_at u8_at firmware byte_of
system_shutdown_example =
    system_shutdown_lem controller 0 firmware (some 0x2000) 0x604 6 false blank_screen (omega arith)
      (firmware-fadt, refl, firmware-s5) blank_screen-IsValid

system_reboot_example :
    (s' : Screen) × (d : Bool) × (put_all (text (literal "Rebooting...\n")) blank_screen ≡ some s')
    × Safety.IsValid s'
    × (pending_of d ≡ 0)
    × (system_reboot controller 2 true blank_screen ≡ some (true, s'))
system_reboot_example =
    system_reboot_lem controller controller-TakesCommands 2 true blank_screen (omega arith)
      blank_screen-IsValid

system_wait_example :
    system_wait 2 10 (true ∷ false ∷ true ∷ [])
    ≡ (if ltb (ticks_in (true ∷ false ∷ true ∷ [])) 2 then none else some 12)
system_wait_example = system_wait_lem 2 10 (true ∷ false ∷ true ∷ []) (omega arith)
