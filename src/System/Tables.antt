-- ===== src/System/Tables.antt =====
-- What the searches in the tables of the firmware find.
use mathlib.Core.Option
use anaga.Prelude.{
  ℕ, zero, suc, ◌+◌, ◌-◌, ◌*◌, ◌/◌, ◌^◌, ◌<◌, ◌≤◌, ◌≡◌, refl, inl, inr, Option, none, some, arith,
  eq→==, ne→==, eq-cases,
}
use anaga.Prelude.First.{IsFirst, absent, IsFirst-here, IsFirst-next}
use anaga.System.{
  Memory, rsdp_signature, fadt_signature, u32_at, u64_at, rsdp_from, acpi_find_rsdp, fadt_among,
  entries_of, fadt_of, acpi_get_fadt,
}

-- The address of the search with a number.
abbrev pub area_at : ℕ → ℕ
area_at k = 0x000E0000 + k * 16

rsdp_from_lem :
    (m : Memory) (area : ℕ → ℕ) (n i hi : ℕ)
    → i + n ≡ hi
    → ((j : ℕ) → i ≤ j → j < hi → u64_at m (area_at j) ≡ some (area j))
    → (r : Option ℕ) × IsFirst area rsdp_signature i hi r
      × (rsdp_from m n (area_at i) ≡ some (Option.map area_at r))
unfolding rsdp_from
rsdp_from_lem m area zero i hi top h = (none, absent (λ j a b. absurd (omega arith)), refl)
rsdp_from_lem m area (suc n) i hi top h =
    let at = h i (omega arith) (omega arith) in
    let next : area_at i + 16 ≡ area_at (suc i) = omega arith in
    elim (eq-cases (area i) rsdp_signature) [
      | inl e ↦ (
        some i,
        IsFirst-here area rsdp_signature i hi (omega arith) e,
        rw (at, eq→== (area i) rsdp_signature e) refl,
      )
      | inr ne ↦
          let (r, first, e) =
            rsdp_from_lem m area n (suc i) hi (omega arith)
              (λ j a b. h j (omega arith) (omega arith)) in
          (
            r,
            IsFirst-next area rsdp_signature i hi r ne first,
            rw (at, ne→== (area i) rsdp_signature ne, next) e,
          )
    ]

-- `acpi_find_rsdp`, where the memory that it searches has the values `area`, finds the first address
-- with the signature, and NULL if there is none.
pub acpi_find_rsdp_lem :
    (m : Memory) (area : ℕ → ℕ)
    → ((j : ℕ) → j < 8192 → u64_at m (area_at j) ≡ some (area j))
    → (r : Option ℕ) × IsFirst area rsdp_signature 0 8192 r
      × (acpi_find_rsdp m ≡ some (Option.map area_at r))
unfolding acpi_find_rsdp
acpi_find_rsdp_lem m area h = rsdp_from_lem m area 8192 0 8192 refl (λ j a b. h j b)

fadt_among_lem :
    (m : Memory) (table_ptrs : ℕ) (header signature : ℕ → ℕ) (n i hi : ℕ)
    → i + n ≡ hi
    → ((j : ℕ) → i ≤ j → j < hi → u32_at m (table_ptrs + j * 4) ≡ some (header j))
    → ((j : ℕ) → i ≤ j → j < hi → u32_at m (header j) ≡ some (signature j))
    → (r : Option ℕ) × IsFirst signature fadt_signature i hi r
      × (fadt_among m table_ptrs n i ≡ some (Option.map header r))
unfolding fadt_among
fadt_among_lem m table_ptrs header signature zero i hi top h k =
    (none, absent (λ j a b. absurd (omega arith)), refl)
fadt_among_lem m table_ptrs header signature (suc n) i hi top h k =
    let at = h i (omega arith) (omega arith) in
    let is = k i (omega arith) (omega arith) in
    elim (eq-cases (signature i) fadt_signature) [
      | inl e ↦ (
        some i,
        IsFirst-here signature fadt_signature i hi (omega arith) e,
        rw (at, is, eq→== (signature i) fadt_signature e) refl,
      )
      | inr ne ↦
          let (r, first, e) =
            fadt_among_lem m table_ptrs header signature n (suc i) hi (omega arith)
              (λ j a b. h j (omega arith) (omega arith))
              (λ j a b. k j (omega arith) (omega arith)) in
          let next : i + 1 ≡ suc i = omega arith in
          (
            r,
            IsFirst-next signature fadt_signature i hi r ne first,
            rw (at, is, ne→== (signature i) fadt_signature ne, next) e,
          )
    ]

entries_of_lem :
    (length : ℕ) → 36 ≤ length → length < 2 ^ 32 → entries_of length ≡ (length - 36) / 4
unfolding entries_of
entries_of_lem length lo hi = omega arith

-- `acpi_get_fadt`, where the search for the RSDP ends at one, and its table of at least a header has
-- `header` for entries and `signature` for their signatures, returns the first table with the
-- signature of a FADT, and NULL if there is none.
pub acpi_get_fadt_lem :
    (m : Memory) (rsdp rsdt length : ℕ) (header signature : ℕ → ℕ)
    → acpi_find_rsdp m ≡ some (some rsdp)
    → u32_at m (rsdp + 16) ≡ some rsdt
    → u32_at m (rsdt + 4) ≡ some length
    → 36 ≤ length
    → length < 2 ^ 32
    → ((j : ℕ) → j < (length - 36) / 4 → u32_at m (rsdt + 36 + j * 4) ≡ some (header j))
    → ((j : ℕ) → j < (length - 36) / 4 → u32_at m (header j) ≡ some (signature j))
    → (r : Option ℕ) × IsFirst signature fadt_signature 0 ((length - 36) / 4) r
      × (acpi_get_fadt m ≡ some (Option.map header r))
unfolding acpi_get_fadt fadt_of
acpi_get_fadt_lem m rsdp rsdt length header signature here at size lo hi h k =
    let (r, first, e) =
      fadt_among_lem m (rsdt + 36) header signature ((length - 36) / 4) 0 ((length - 36) / 4)
        (omega arith) (λ j a b. h j b) (λ j a b. k j b) in
    (r, first, rw (here, at, size, entries_of_lem length lo hi) e)
