-- ===== src/System.antt =====
-- system/system.h and system.c: the tables of the firmware, the shutdown, the restart and the timer.
-- The memory is a function from an address to its byte, `none` where no page is mapped. The answer of
-- `cpuid` and the interrupts that end a `hlt` are arguments.
pub mod Tables
pub mod Power
pub mod Sleep
pub mod Timer
use Prim.Native.Nat.{bit_and, bit_or}
use anaga.Prelude.{
  ℕ, zero, suc, ◌+◌, ◌-◌, ◌*◌, ◌/◌, ◌%◌, ◌^◌, List, [], ◌∷◌, Option, none, some, Bool, true, false,
  not, ◌||◌, ◌==◌, ltb, if◌then◌else◌, ◌>>=◌, literal,
}
use anaga.Display.{Screen, kprint}
use anaga.Ports.{Ports}
use anaga.Keyboard.{keyboard_data_port, keyboard_status_port, output_full, input_full}

abbrev pub Memory : Type 0
Memory = ℕ → Option ℕ

abbrev pub slp_en : ℕ
slp_en = 0x2000

abbrev pub rsdp_signature : ℕ
rsdp_signature = 0x2052545020445352

abbrev pub fadt_signature : ℕ
fadt_signature = 0x50434146

-- Little-endian numbers in the memory
unfoldable pub u8_at : Memory → ℕ → Option ℕ
u8_at m addr = m (addr % 2 ^ 32)

unfoldable pub u16_at : Memory → ℕ → Option ℕ
u16_at m addr = u8_at m addr >>= λ a. u8_at m (addr + 1) >>= λ b. some (a + b * 2 ^ 8)

unfoldable pub u32_at : Memory → ℕ → Option ℕ
u32_at m addr = u16_at m addr >>= λ a. u16_at m (addr + 2) >>= λ b. some (a + b * 2 ^ 16)

unfoldable pub u64_at : Memory → ℕ → Option ℕ
u64_at m addr = u32_at m addr >>= λ a. u32_at m (addr + 4) >>= λ b. some (a + b * 2 ^ 32)

-- Fields of the packed structures: the offset of each is the size of those in front.
abbrev pub rsdt_address : ℕ → ℕ
rsdt_address rsdp = rsdp + 16

abbrev pub table_length : ℕ → ℕ
table_length header = header + 4

abbrev pub header_size : ℕ
header_size = 36

abbrev pub fadt_dsdt : ℕ → ℕ
fadt_dsdt fadt = fadt + 40

abbrev pub fadt_pm1a_cnt : ℕ → ℕ
fadt_pm1a_cnt fadt = fadt + 64

-- `ecx` is what `cpuid` leaves there.
unfoldable pub system_is_hypervisor : ℕ → Bool
system_is_hypervisor ecx = not (bit_and (ecx / 2 ^ 31) 1 == 0)

-- The search from `addr` on, `n` addresses; the result `none` within `some` is NULL.
unfoldable pub rsdp_from : Memory → ℕ → ℕ → Option (Option ℕ)
rsdp_from m zero addr = some none
rsdp_from m (suc n) addr =
    let rest = rsdp_from m n (addr + 16) in
    u64_at m addr >>= λ signature. if signature == rsdp_signature then some (some addr) else rest

unfoldable pub acpi_find_rsdp : Memory → Option (Option ℕ)
acpi_find_rsdp m = rsdp_from m ((0x00100000 - 0x000E0000) / 16) 0x000E0000

-- The search among `n` entries from number `i` on
unfoldable pub fadt_among : Memory → ℕ → ℕ → ℕ → Option (Option ℕ)
fadt_among m table_ptrs zero i = some none
fadt_among m table_ptrs (suc n) i =
    let rest = fadt_among m table_ptrs n (i + 1) in
    u32_at m (table_ptrs + i * 4) >>= λ header. u32_at m header >>= λ signature.
    if signature == fadt_signature then some (some header) else rest

-- `entries`: the subtraction wraps at 2 ^ 32.
unfoldable pub entries_of : ℕ → ℕ
entries_of length = (length + 2 ^ 32 - header_size) % 2 ^ 32 / 4

-- `acpi_get_fadt` behind its first search
unfoldable pub fadt_of : Memory → Option ℕ → Option (Option ℕ)
fadt_of m none = some none
fadt_of m (some rsdp) = do
  rsdt ← u32_at m (rsdt_address rsdp)
  length ← u32_at m (table_length rsdt)
  fadt_among m (rsdt + header_size) (entries_of length) 0

unfoldable pub acpi_get_fadt : Memory → Option (Option ℕ)
acpi_get_fadt m = acpi_find_rsdp m >>= fadt_of m

-- Whether a byte is the given one, else the rest of a condition in `&&`.
unfoldable pub byte_is : Memory → ℕ → ℕ → Option Bool → Option Bool
byte_is m addr b rest = u8_at m addr >>= λ v. if v == b then rest else some false

unfoldable pub is_s5 : Memory → ℕ → Option Bool
is_s5 m addr =
    byte_is m addr b'_' (
      byte_is m (addr + 1) b'S' (byte_is m (addr + 2) b'5' (byte_is m (addr + 3) b'_' (some true))))

-- `dsdt[i+4] == 0x12 || dsdt[i+5] == 0x12`
unfoldable pub has_package : Memory → ℕ → Option Bool
has_package m addr = u8_at m (addr + 4) >>= λ v.
    if v == 0x12 then some true else byte_is m (addr + 5) 0x12 (some true)

-- The body of the search in the DSDT: the value it returns, where it does.
unfoldable pub s5_value : Memory → ℕ → Option (Option ℕ)
s5_value m addr = do
  found ← is_s5 m addr
  packaged ← (if found then has_package m addr else some false)
  if packaged then (u8_at m (addr + 5) >>= λ v. some (some v)) else some none

-- The search from number `i` on, `n` rounds
unfoldable pub s5_from : Memory → ℕ → ℕ → ℕ → Option ℕ
s5_from m dsdt zero i = some 0
s5_from m dsdt (suc n) i =
    let rest = s5_from m dsdt n (i + 1) in
    s5_value m (dsdt + i) >>= λ value. elim value [ some v ↦ some v | none ↦ rest ]

-- `acpi_get_s5_sleep_type` behind its first call: `length - 4` wraps at 2 ^ 32.
unfoldable pub s5_of : Memory → Option ℕ → Option ℕ
s5_of m none = some 0
s5_of m (some fadt) = do
  dsdt ← u32_at m (fadt_dsdt fadt)
  length ← u32_at m (table_length fadt)
  s5_from m dsdt ((length + 2 ^ 32 - 4) % 2 ^ 32) 0

unfoldable pub acpi_get_s5_sleep_type : Memory → Option ℕ
acpi_get_s5_sleep_type m = acpi_get_fadt m >>= s5_of m

module _ (p : Ports) where
  open p use {Device, inb, outb, outw}

  -- From `pm1a_cnt` on; it ends in `system_halt`, with the state where it halts.
  unfoldable pub enter_sleep : Memory → ℕ → Device → Screen → Option (Device × Screen)
  enter_sleep m fadt d s = do
    pm1a_blk ← u32_at m (fadt_pm1a_cnt fadt)
    let pm1a_cnt = pm1a_blk % 2 ^ 16
    slp_typa ← acpi_get_s5_sleep_type m
    if pm1a_cnt == 0 || slp_typa == 0
        then (kprint (some (literal "Invalid PM1a_CNT or SLP_TYP, cannot shutdown.\n")) s >>= λ s.
            some (d, s))
        else some (outw pm1a_cnt (bit_or (slp_typa * 2 ^ 10) slp_en % 2 ^ 16) d, s)

  -- From `if (!fadt)` on
  unfoldable pub shutdown_with : Memory → Option ℕ → Device → Screen → Option (Device × Screen)
  shutdown_with m none d s =
      kprint (some (literal "ACPI FADT not found, cannot shutdown.\n")) s >>= λ s. some (d, s)
  shutdown_with m (some fadt) d s = enter_sleep m fadt d s

  -- The result is the state where the processor halts.
  unfoldable pub system_shutdown : ℕ → Memory → Device → Screen → Option (Device × Screen)
  system_shutdown ecx m d s =
      if system_is_hypervisor ecx
      then (kprint (some (literal "Shutting down...\n")) s >>= λ s.
          some (outw 0x4004 0x3400 (outw 0xB004 0x2000 (outw 0x604 0x2000 d)), s))
      else (kprint (some (literal "Shutting down (ACPI)...\n")) s >>= λ s.
          acpi_get_fadt m >>= λ fadt. shutdown_with m fadt d s)

  -- The loop that empties the buffers of the keyboard controller; `none` where the polls do not
  -- suffice.
  unfoldable pub drain : ℕ → Device → Option Device
  drain zero d = none
  drain (suc polls) d =
      let (status, d) = inb keyboard_status_port d in
      let d = (if bit_and status output_full == 0 then d else (inb keyboard_data_port d).1) in
      let again = drain polls d in
      elim (bit_and status input_full == 0) [ true ↦ some d | false ↦ again ]

  unfoldable pub system_reboot : ℕ → Device → Screen → Option (Device × Screen)
  system_reboot polls d s = do
    s ← kprint (some (literal "Rebooting...\n")) s
    d ← drain polls d
    some (outb keyboard_status_port 0xFE d, s)

  -- The device and `timer_ticks`
  unfoldable pub system_init_timer : Device → Device × ℕ
  system_init_timer d =
      let divisor = 1193182 / 1000 in
      let d = outb 0x43 (bit_or (bit_or 0x00 0x30) 0x04) d in
      let d = outb 0x40 (bit_and divisor 0xFF) d in
      let d = outb 0x40 (bit_and (divisor / 2 ^ 8) 0xFF) d in (d, 0)

unfoldable pub timer_handler : ℕ → ℕ
timer_handler timer_ticks = (timer_ticks + 1) % 2 ^ 32

-- The loop of `system_wait`, for the interrupts that end its halts: `true` is one of the timer.
-- `none` is a wait that is not over behind them.
unfoldable pub wait_until : ℕ → ℕ → List Bool → Option ℕ
wait_until target timer_ticks [] = if ltb timer_ticks target then none else some timer_ticks
wait_until target timer_ticks (timer ∷ interrupts) =
    let rest =
      wait_until target (if timer then timer_handler timer_ticks else timer_ticks) interrupts in
    if ltb timer_ticks target then rest else some timer_ticks

unfoldable pub system_wait : ℕ → ℕ → List Bool → Option ℕ
system_wait ms timer_ticks interrupts =
    wait_until ((timer_ticks + ms) % 2 ^ 32) timer_ticks interrupts
