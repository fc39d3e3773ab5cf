-- ===== src/Display/Digits.antt =====
-- The digits that `kprint_num`, `kprint_hex` and `kprint_ulong` write into their buffers.
use native.Mathlib.Nat.{div-lt_iff_lt-mul, div-add-mod', pow-zero, pow-suc}
use anaga.Prelude.{
  ℕ, zero, suc, ◌+◌, ◌-◌, ◌*◌, ◌/◌, ◌%◌, ◌^◌, ◌≤◌, ◌<◌, ◌≡◌, sym, ap, ◌∙◌, inl, inr, List, [], ◌∷◌,
  arith, Returns, Returns-mono, eq→==, Bool-cases, ltb, ◌==◌, if◌then◌else◌,
}
use anaga.Display.{digit, write_digits}

-- The value of a character as a digit, by the ASCII code: the inverse of `digit`.
unfoldable pub digit_value : ℕ → ℕ
digit_value c = if ltb c b'a' then c - b'0' else c - b'a' + 10

-- A text of digits read from its first, after a prefix of value `acc`.
unfoldable pub number_from : ℕ → ℕ → List ℕ → ℕ
number_from base acc [] = acc
number_from base acc (c ∷ cs) = number_from base (acc * base + digit_value c) cs

pub digit_value-digit : (d : ℕ) → d < 16 → digit_value (digit d) ≡ d
unfolding digit_value digit
digit_value-digit d h = ground arith

pub div-lt_pow : (base room u : ℕ) → 0 < base → u < base ^ suc room → u / base < base ^ room
div-lt_pow base room u pos h = (div-lt_iff_lt-mul pos).1 (omega (arith, pow-suc base room))

pub mod-lt_base : (base u : ℕ) → 1 < base → u % base < base
mod-lt_base base u h = omega arith

step : (base u : ℕ) → 1 < base → base ≤ 16 → u / base * base + digit_value (digit (u % base)) ≡ u
step base u lo hi =
    rw (digit_value-digit (u % base) (omega (arith, mod-lt_base base u lo))) (div-add-mod' u base)

-- The buffer is large enough, and the digits in it, read in the order in which they are printed,
-- are the number.
pub write_digits_value :
    (base room u : ℕ) (buf : List ℕ)
    → 1 < base
    → base ≤ 16
    → u < base ^ room
    → Returns
        (λ out. number_from base 0 out ≡ number_from base u buf)
        (write_digits base room u buf)
unfolding write_digits number_from
write_digits_value base zero u buf lo hi h =
    let e : u ≡ 0 = omega (arith, pow-zero base) in
    rw (eq→== u 0 e) (ap (λ (n : ℕ). number_from base n buf) (sym e))
write_digits_value base (suc room) u buf lo hi h = elim (Bool-cases (u == 0)) [
  | inl e ↦ let z : u ≡ 0 = ground arith in rw e (ap (λ (n : ℕ). number_from base n buf) (sym z))
  | inr e ↦ rw e (
      Returns-mono
        (λ out. number_from base 0 out ≡ number_from base (u / base) (digit (u % base) ∷ buf))
        (λ out. number_from base 0 out ≡ number_from base u buf) _
        (write_digits_value base room (u / base) (digit (u % base) ∷ buf) lo hi
          (div-lt_pow base room u (omega arith) h))
        (λ out p. p ∙ ap (λ (n : ℕ). number_from base n buf) (step base u lo hi)))
]
