-- ===== src/Display/Numbers.antt =====
-- `kprint_num`, `kprint_hex` and `kprint_ulong` print numerals.
use native.Mathlib.Nat.{div-add-mod', pow-zero}
use anaga.Prelude.{
  ℕ, zero, suc, ◌*◌, ◌/◌, ◌%◌, ◌^◌, ◌≤◌, ◌<◌, ◌≡◌, refl, sym, ap, subst, ◌≢◌, inl, inr, some, List,
  [], ◌∷◌, ◌++◌, arith, Returns, Returns-elim, bind-some, eq→==, ne→==, Bool-cases, eq-cases, ◌==◌,
  ℤ, pos, negsuc,
}
use anaga.Display.{
  Screen, digit, kputc, write_digits, put_all, magnitude, kprint_num, kprint_hex, kprint_ulong,
}
use anaga.Display.Digits.{
  digit_value, number_from, digit_value-digit, write_digits_value, mod-lt_base, div-lt_pow,
}

-- Every character is a digit of the base.
abbrev pub AreDigits : ℕ → List ℕ → Type 0
AreDigits base [] = Unit {0}
AreDigits base (c ∷ cs) = (digit_value c < base) × (c ≡ digit (digit_value c)) × AreDigits base cs

abbrev pub NoLeadingZero : List ℕ → Type 0
NoLeadingZero [] = ⊥
NoLeadingZero (c ∷ cs) = c ≢ b'0'

-- Nothing is written for zero.
write_digits-zero : (base room : ℕ) (buf : List ℕ) → write_digits base room 0 buf ≡ some buf
unfolding write_digits
write_digits-zero base zero buf = refl
write_digits-zero base (suc room) buf = refl

write_digits-AreDigits :
    (base room u : ℕ) (buf : List ℕ)
    → 1 < base
    → base ≤ 16
    → u < base ^ room
    → AreDigits base buf
    → Returns (AreDigits base) (write_digits base room u buf)
unfolding write_digits
write_digits-AreDigits base zero u buf lo hi h d =
    let e : u ≡ 0 = omega (arith, pow-zero base) in rw (eq→== u 0 e) d
write_digits-AreDigits base (suc room) u buf lo hi h d = elim (Bool-cases (u == 0)) [
  | inl z ↦ rw z d
  | inr z ↦ rw z (
      let small : u % base < base = mod-lt_base base u lo in
      let value : digit_value (digit (u % base)) ≡ u % base =
        digit_value-digit (u % base) (omega arith) in
      write_digits-AreDigits base room (u / base) (digit (u % base) ∷ buf) lo hi
        (div-lt_pow base room u (omega arith) h) (rw value small, rw value, d))
]

digit-ne-zero : (d : ℕ) → d < 16 → d ≢ 0 → digit d ≢ b'0'
unfolding digit
digit-ne-zero d h n = ground arith

write_digits-NoLeadingZero :
    (base room u : ℕ) (buf : List ℕ)
    → 1 < base
    → base ≤ 16
    → u < base ^ room
    → u ≢ 0
    → Returns NoLeadingZero (write_digits base room u buf)
unfolding write_digits
write_digits-NoLeadingZero base zero u buf lo hi h n = absurd (n (omega (arith, pow-zero base)))
write_digits-NoLeadingZero base (suc room) u buf lo hi h n = elim (eq-cases (u / base) 0) [
  | inl last ↦
      rw (ne→== u 0 n, last, write_digits-zero base room (digit (u % base) ∷ buf))
        (digit-ne-zero (u % base) (omega (arith, mod-lt_base base u lo))
          (λ r. n (omega (arith, div-add-mod' u base, ap (λ (q : ℕ). q * base) last))))
  | inr more ↦ rw (ne→== u 0 n) (
      write_digits-NoLeadingZero base room (u / base) (digit (u % base) ∷ buf) lo hi
        (div-lt_pow base room u (omega arith) h) more)
]

-- `digits` is the numeral of `n` in `base`: digits of the base whose value is `n`, the first of them
-- not zero, or, where `n` is 0, the one digit 0.
pub record IsNumeral (base n : ℕ) (digits : List ℕ) : Type 0 where
  pub value : number_from base 0 digits ≡ n
  pub digits_only : AreDigits base digits
  pub leading : n ≢ 0 → NoLeadingZero digits
  pub zero_digit : n ≡ 0 → digits ≡ b'0' ∷ []

pub write_digits-IsNumeral :
    (base room u : ℕ)
    → 1 < base
    → base ≤ 16
    → u < base ^ room
    → u ≢ 0
    → (out : List ℕ) × (write_digits base room u [] ≡ some out) × IsNumeral base u out
unfolding number_from
write_digits-IsNumeral base room u lo hi h n =
    let all = write_digits-AreDigits base room u [] lo hi h tt in
    let (out, e, v) =
      Returns-elim (λ out. number_from base 0 out ≡ number_from base u [])
        (write_digits base room u []) (write_digits_value base room u [] lo hi h) in
    (
      out,
      e,
      record {
        value = v;
        digits_only = subst (Returns (AreDigits base)) e all;
        leading = λ _.
            subst (Returns NoLeadingZero) e (write_digits-NoLeadingZero base room u [] lo hi h n);
        zero_digit = λ z. absurd (n z);
      },
    )

zero_IsNumeral : (base : ℕ) → 1 < base → IsNumeral base 0 (b'0' ∷ [])
unfolding number_from digit_value digit
zero_IsNumeral base h = record {
  value = omega arith;
  digits_only = (omega arith, refl, tt);
  leading = λ n. absurd (n refl);
  zero_digit = λ z. refl;
}

abbrev pub sign : ℤ → List ℕ
sign (pos n) = []
sign (negsuc n) = b'-' ∷ []

-- The numeral of an `int` that `kprint_num` prints, whatever the screen.
pub kprint_num_text :
    (num : ℤ)
    → magnitude num < 2 ^ 32
    → (digits : List ℕ) × IsNumeral 10 (magnitude num) digits
      × ((s : Screen) → kprint_num num s ≡ put_all (sign num ++ digits) s)
unfolding kprint_num put_all
kprint_num_text (pos zero) h =
    (b'0' ∷ [], zero_IsNumeral 10 (omega arith), λ s. sym (bind-some (kputc b'0' s)))
kprint_num_text (pos (suc n)) h =
    let (digits, e, num) =
      write_digits-IsNumeral 10 12 (suc n) (omega arith) (omega arith) (omega arith)
        (omega arith) in
    (digits, num, λ s. rw (ne→== (suc n) 0 (omega arith), e) refl)
kprint_num_text (negsuc n) h =
    let (digits, e, num) =
      write_digits-IsNumeral 10 12 (suc n) (omega arith) (omega arith) (omega arith)
        (omega arith) in
    (digits, num, λ s. rw (ne→== (suc n) 0 (omega arith), e) refl)

-- `kprint_num` of any `int`, the least one included, prints a minus sign if it is negative and then
-- the decimal numeral of its magnitude. Its local buffer of 12 bytes is large enough.
pub kprint_num_lem :
    (num : ℤ) (s : Screen)
    → magnitude num < 2 ^ 32
    → (digits : List ℕ) × (kprint_num num s ≡ put_all (sign num ++ digits) s)
      × IsNumeral 10 (magnitude num) digits
kprint_num_lem num s h = let (digits, numeral, e) = kprint_num_text num h in (digits, e s, numeral)

-- The numeral that `kprint_ulong` prints, whatever the screen.
pub kprint_ulong_text :
    (num : ℕ)
    → num < 2 ^ 32
    → (digits : List ℕ) × IsNumeral 10 num digits
      × ((s : Screen) → kprint_ulong num s ≡ put_all digits s)
unfolding kprint_ulong put_all
kprint_ulong_text zero h =
    (b'0' ∷ [], zero_IsNumeral 10 (omega arith), λ s. sym (bind-some (kputc b'0' s)))
kprint_ulong_text (suc n) h =
    let (digits, e, num) =
      write_digits-IsNumeral 10 21 (suc n) (omega arith) (omega arith) (omega arith)
        (omega arith) in
    (digits, num, λ s. rw (ne→== (suc n) 0 (omega arith), e) refl)

-- The numeral that `kprint_hex` prints, whatever the screen.
pub kprint_hex_text :
    (num : ℕ)
    → num < 2 ^ 32
    → (digits : List ℕ) × IsNumeral 16 num digits
      × ((s : Screen) → kprint_hex num s ≡ put_all digits s)
unfolding kprint_hex put_all
kprint_hex_text zero h =
    (b'0' ∷ [], zero_IsNumeral 16 (omega arith), λ s. sym (bind-some (kputc b'0' s)))
kprint_hex_text (suc n) h =
    let (digits, e, num) =
      write_digits-IsNumeral 16 17 (suc n) (omega arith) (omega arith) (omega arith)
        (omega arith) in
    (digits, num, λ s. rw (ne→== (suc n) 0 (omega arith), e) refl)

-- `kprint_hex` of any 32-bit `unsigned long` prints its hexadecimal numeral, in lower case.
pub kprint_hex_lem :
    (num : ℕ) (s : Screen)
    → num < 2 ^ 32
    → (digits : List ℕ) × (kprint_hex num s ≡ put_all digits s) × IsNumeral 16 num digits
kprint_hex_lem num s h = let (digits, numeral, e) = kprint_hex_text num h in (digits, e s, numeral)
