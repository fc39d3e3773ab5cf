-- ===== src/System/Sleep.antt =====
-- The search in the DSDT for the type of the sleep state in which the machine is off.
use anaga.Prelude.{
  ℕ, zero, suc, ◌+◌, ◌-◌, ◌%◌, ◌^◌, ◌<◌, ◌≤◌, ◌≡◌, refl, inl, inr, Option, none, some, Bool, true,
  ◌&&◌, ◌||◌, ◌==◌, if◌then◌else◌, arith, Bool-cases,
}
use anaga.Prelude.First.{IsFirst, absent, IsFirst-here, IsFirst-next}
use anaga.System.{
  Memory, u8_at, u32_at, acpi_get_fadt, byte_is, is_s5, has_package, s5_value, s5_from, s5_of,
  acpi_get_s5_sleep_type,
}

abbrev pub spells_s5 : (ℕ → ℕ) → ℕ → Bool
spells_s5 bytes i =
    (bytes i == b'_')
    && ((bytes (i + 1) == b'S') && ((bytes (i + 2) == b'5') && (bytes (i + 3) == b'_')))

-- What makes the search in the DSDT end at a number.
abbrev pub ends_at : (ℕ → ℕ) → ℕ → Bool
ends_at bytes i = spells_s5 bytes i && ((bytes (i + 4) == 0x12) || (bytes (i + 5) == 0x12))

-- What the search returns for the place where it ends.
abbrev pub sleep_type : (ℕ → ℕ) → Option ℕ → ℕ
sleep_type bytes none = 0
sleep_type bytes (some k) = bytes (k + 5)

byte_is_lem :
    (m : Memory) (addr b v : ℕ) (rest : Bool)
    → u8_at m addr ≡ some v
    → byte_is m addr b (some rest) ≡ some ((v == b) && rest)
unfolding byte_is
byte_is_lem m addr b v rest h = elim (Bool-cases (v == b)) [
  | inl e ↦ rw (h, e) refl
  | inr e ↦ rw (h, e) refl
]

byte_is_last :
    (m : Memory) (addr b v : ℕ)
    → u8_at m addr ≡ some v
    → byte_is m addr b (some true) ≡ some (v == b)
unfolding byte_is
byte_is_last m addr b v h = elim (Bool-cases (v == b)) [
  | inl e ↦ rw (h, e) refl
  | inr e ↦ rw (h, e) refl
]

-- The bytes of the DSDT.
abbrev pub Holds : Memory → ℕ → (ℕ → ℕ) → ℕ → Type 0
Holds m dsdt bytes size = (j : ℕ) → j < size → u8_at m (dsdt + j) ≡ some (bytes j)

Holds-at :
    (m : Memory) (dsdt size i k : ℕ) (bytes : ℕ → ℕ)
    → Holds m dsdt bytes size
    → i + k < size
    → u8_at m (dsdt + i + k) ≡ some (bytes (i + k))
Holds-at m dsdt size i k bytes h lt =
    let same : dsdt + i + k ≡ dsdt + (i + k) = omega arith in rw same (h (i + k) lt)

is_s5_lem :
    (m : Memory) (dsdt size i : ℕ) (bytes : ℕ → ℕ)
    → Holds m dsdt bytes size
    → i + 5 < size
    → is_s5 m (dsdt + i) ≡ some (spells_s5 bytes i)
unfolding is_s5
is_s5_lem m dsdt size i bytes h lt =
    let at : (k : ℕ) → k < 5 → u8_at m (dsdt + i + k) ≡ some (bytes (i + k)) =
      λ k b. Holds-at m dsdt size i k bytes h (omega arith) in
    rw
      (
        byte_is_last m (dsdt + i + 3) b'_' (bytes (i + 3)) (at 3 (omega arith)),
        byte_is_lem m (dsdt + i + 2) b'5' (bytes (i + 2)) (bytes (i + 3) == b'_')
            (at 2 (omega arith)),
        byte_is_lem m (dsdt + i + 1) b'S' (bytes (i + 1))
            ((bytes (i + 2) == b'5') && (bytes (i + 3) == b'_')) (at 1 (omega arith)),
      )
      (byte_is_lem m (dsdt + i) b'_' (bytes i)
        ((bytes (i + 1) == b'S') && ((bytes (i + 2) == b'5') && (bytes (i + 3) == b'_')))
        (h i (omega arith)))

has_package_lem :
    (m : Memory) (dsdt size i : ℕ) (bytes : ℕ → ℕ)
    → Holds m dsdt bytes size
    → i + 5 < size
    → has_package m (dsdt + i) ≡ some ((bytes (i + 4) == 0x12) || (bytes (i + 5) == 0x12))
unfolding has_package
has_package_lem m dsdt size i bytes h lt =
    let at = Holds-at m dsdt size i 4 bytes h (omega arith) in
    let last =
      byte_is_last m (dsdt + i + 5) 0x12 (bytes (i + 5)) (Holds-at m dsdt size i 5 bytes h lt) in
    elim (Bool-cases (bytes (i + 4) == 0x12)) [ inl e ↦ rw (at, e) refl | inr e ↦ rw (at, e) last ]

-- What the search does at a number.
abbrev value_at : (ℕ → ℕ) → ℕ → Option ℕ
value_at bytes i = if ends_at bytes i then some (bytes (i + 5)) else none

s5_value_lem :
    (m : Memory) (dsdt size i : ℕ) (bytes : ℕ → ℕ)
    → Holds m dsdt bytes size
    → i + 5 < size
    → s5_value m (dsdt + i) ≡ some (value_at bytes i)
unfolding s5_value
s5_value_lem m dsdt size i bytes h lt =
    let spells = is_s5_lem m dsdt size i bytes h lt in
    let packaged = has_package_lem m dsdt size i bytes h lt in
    let at = Holds-at m dsdt size i 5 bytes h lt in
    elim (Bool-cases (spells_s5 bytes i)) [
      | inl e ↦ elim (Bool-cases ((bytes (i + 4) == 0x12) || (bytes (i + 5) == 0x12))) [
        | inl k ↦ rw (spells, e, packaged, k, at) refl
        | inr k ↦ rw (spells, e, packaged, k) refl
      ]
      | inr e ↦ rw (spells, e) refl
    ]

s5_from_lem :
    (m : Memory) (dsdt size : ℕ) (bytes : ℕ → ℕ) (n i hi : ℕ)
    → i + n ≡ hi
    → Holds m dsdt bytes size
    → hi + 5 ≤ size
    → (r : Option ℕ) × IsFirst (ends_at bytes) true i hi r
      × (s5_from m dsdt n i ≡ some (sleep_type bytes r))
unfolding s5_from
s5_from_lem m dsdt size bytes zero i hi top h le =
    (none, absent (λ j a b. absurd (omega arith)), refl)
s5_from_lem m dsdt size bytes (suc n) i hi top h le =
    let value = s5_value_lem m dsdt size i bytes h (omega arith) in
    elim (Bool-cases (ends_at bytes i)) [
      | inl e ↦ (some i, IsFirst-here (ends_at bytes) true i hi (omega arith) e, rw (value, e) refl)
      | inr e ↦
          let (r, first, k) = s5_from_lem m dsdt size bytes n (suc i) hi (omega arith) h le in
          let next : i + 1 ≡ suc i = omega arith in
          (
            r,
            IsFirst-next (ends_at bytes) true i hi r (λ t. cc (e, t)) first,
            rw (value, e, next) k,
          )
    ]

-- `acpi_get_s5_sleep_type`, where the FADT that `acpi_get_fadt` finds has `length` bytes by its
-- header, at least 4, and names a DSDT with the bytes `bytes`, of which `length` + 1 are there,
-- looks at the first `length` - 4 places of the DSDT for the first `_S5_` behind which one of the next
-- two bytes is 0x12, and returns the second of these two; 0 if there is no such place.
pub acpi_get_s5_sleep_type_lem :
    (m : Memory) (fadt dsdt length : ℕ) (bytes : ℕ → ℕ)
    → acpi_get_fadt m ≡ some (some fadt)
    → u32_at m (fadt + 40) ≡ some dsdt
    → u32_at m (fadt + 4) ≡ some length
    → 4 ≤ length
    → length < 2 ^ 32
    → Holds m dsdt bytes (length + 1)
    → (r : Option ℕ) × IsFirst (ends_at bytes) true 0 (length - 4) r
      × (acpi_get_s5_sleep_type m ≡ some (sleep_type bytes r))
unfolding acpi_get_s5_sleep_type s5_of
acpi_get_s5_sleep_type_lem m fadt dsdt length bytes here at size lo hi h =
    let (r, first, e) =
      s5_from_lem m dsdt (length + 1) bytes (length - 4) 0 (length - 4) (omega arith) h
        (omega arith) in
    let rounds : (length + 2 ^ 32 - 4) % 2 ^ 32 ≡ length - 4 = omega arith in
    (r, first, rw (here, at, size, rounds) e)
