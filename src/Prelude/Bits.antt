-- ===== src/Prelude/Bits.antt =====
-- The bit operations on the native numbers, split at a power of two.
use Prim.Native.Nat.{
  ℕ, zero, suc, ◌+◌, ◌-◌, ◌*◌, ◌/◌, ◌%◌, ◌^◌, ◌≤◌, ◌<◌, min, max, digits, bit_and, bit_or,
  bit_and-bitwise, bit_or-bitwise,
}
use mathlib.Core.Path.{◌≡◌, refl, sym, ap, ◌∙◌}
use native.Mathlib.Nat.{pow-suc, pow-zero, mul_assoc, div-add-mod', mod-lt}
use native.Mathlib.Omega.{arith}

-- Induction on the binary digits of a number.
halves_below :
    (P : ℕ → Type 0) → P 0 → ((a : ℕ) → P (suc a / 2) → P (suc a)) → (bound a : ℕ) → a ≤ bound → P a
halves_below P start up bound zero h = start
halves_below P start up zero (suc a) h = absurd (omega arith)
halves_below P start up (suc bound) (suc a) h =
    up a (halves_below P start up bound (suc a / 2) (omega arith))

by_halves : (P : ℕ → Type 0) → P 0 → ((a : ℕ) → P (suc a / 2) → P (suc a)) → (a : ℕ) → P a
by_halves P start up a = halves_below P start up a a (omega arith)

-- An operation that the recursion on digits defines, with `last` for what is left of the second
-- number when the first has no digits left, and `digit` for one digit of each.
module _ (op : ℕ → ℕ → ℕ) (last : ℕ → ℕ) (digit : ℕ → ℕ → ℕ)
    (means : (a b : ℕ) → op a b ≡ digits last digit a a b) where
  -- More rounds than the number needs change nothing.
  one_more : (n a b : ℕ) → a ≤ n → digits last digit (suc n) a b ≡ digits last digit n a b
  one_more zero zero b h = refl
  one_more zero (suc a) b h = absurd (omega arith)
  one_more (suc n) zero b h = refl
  one_more (suc n) (suc a) b h =
      ap (λ front. front * 2 + digit (suc a % 2) (b % 2))
        (one_more n (suc a / 2) (b / 2) (omega arith))

  enough : (spare n a b : ℕ) → n ≡ a + spare → digits last digit n a b ≡ digits last digit a a b
  enough zero n a b e = let same : n ≡ a = omega arith in ap (λ k. digits last digit k a b) same
  enough (suc spare) zero a b e = absurd (omega arith)
  enough (suc spare) (suc n) a b e = one_more n a b (omega arith) ∙ enough spare n a b (omega arith)

  op_zero : (b : ℕ) → op 0 b ≡ last b
  op_zero b = means 0 b

  op_suc : (a b : ℕ) → op (suc a) b ≡ op (suc a / 2) (b / 2) * 2 + digit (suc a % 2) (b % 2)
  op_suc a b =
      means (suc a) b
      ∙ ap (λ front. front * 2 + digit (suc a % 2) (b % 2))
          (enough (a - suc a / 2) a (suc a / 2) (b / 2) (omega arith)
            ∙ sym (means (suc a / 2) (b / 2)))

zero-bit_and : (b : ℕ) → bit_and 0 b ≡ 0
zero-bit_and = op_zero bit_and (λ b. zero) min bit_and-bitwise

pub zero-bit_or : (b : ℕ) → bit_or 0 b ≡ b
zero-bit_or = op_zero bit_or (λ b. b) max bit_or-bitwise

bit_and_step : (a b : ℕ) → bit_and a b ≡ bit_and (a / 2) (b / 2) * 2 + min (a % 2) (b % 2)
bit_and_step zero b = zero-bit_and b ∙ omega (arith, zero-bit_and (b / 2))
bit_and_step (suc a) b = op_suc bit_and (λ b. zero) min bit_and-bitwise a b

bit_or_step : (a b : ℕ) → bit_or a b ≡ bit_or (a / 2) (b / 2) * 2 + max (a % 2) (b % 2)
bit_or_step zero b = zero-bit_or b ∙ omega (arith, zero-bit_or (b / 2))
bit_or_step (suc a) b = op_suc bit_or (λ b. b) max bit_or-bitwise a b

power-suc : (h k : ℕ) → h * 2 ^ suc k ≡ (h * 2 ^ k) * 2
power-suc h k = ap (λ p. h * p) (pow-suc 2 k) ∙ sym (mul_assoc h (2 ^ k) 2)

pub power_pos : (k : ℕ) → 0 < 2 ^ k
power_pos zero = omega arith
power_pos (suc k) = omega (arith, pow-suc 2 k, power_pos k)

times_one : (h : ℕ) → h * 2 ^ 0 + 0 ≡ h
times_one h = omega (arith, pow-zero 2)

half-split : (h k l : ℕ) → (h * 2 ^ suc k + l) / 2 ≡ h * 2 ^ k + l / 2
half-split h k l = omega (arith, power-suc h k)

odd-split : (h k l : ℕ) → (h * 2 ^ suc k + l) % 2 ≡ l % 2
odd-split h k l = omega (arith, power-suc h k)

-- Each operation acts on the part above a bit and on the part below it.
pub bit_and-split :
    (k h l m n : ℕ)
    → l < 2 ^ k
    → n < 2 ^ k
    → bit_and (h * 2 ^ k + l) (m * 2 ^ k + n) ≡ bit_and h m * 2 ^ k + bit_and l n
bit_and-split zero h zero m zero p q =
    ap (bit_and (h * 2 ^ 0 + 0)) (times_one m)
    ∙ ap (λ x. bit_and x m) (times_one h)
    ∙ sym (times_one (bit_and h m))
bit_and-split zero h zero m (suc n) p q = absurd (omega arith)
bit_and-split zero h (suc l) m n p q = absurd (omega arith)
bit_and-split (suc k) h l m n p q = omega (
  arith,
  power-suc (bit_and h m) k,
  bit_and_step (h * 2 ^ suc k + l) (m * 2 ^ suc k + n),
  odd-split h k l,
  odd-split m k n,
  ap (bit_and ((h * 2 ^ suc k + l) / 2)) (half-split m k n),
  ap (λ x. bit_and x (m * 2 ^ k + n / 2)) (half-split h k l),
  bit_and_step l n,
  bit_and-split k h (l / 2) m (n / 2) (omega (arith, pow-suc 2 k)) (omega (arith, pow-suc 2 k)),
)

pub bit_or-split :
    (k h l m n : ℕ)
    → l < 2 ^ k
    → n < 2 ^ k
    → bit_or (h * 2 ^ k + l) (m * 2 ^ k + n) ≡ bit_or h m * 2 ^ k + bit_or l n
bit_or-split zero h zero m zero p q =
    ap (bit_or (h * 2 ^ 0 + 0)) (times_one m)
    ∙ ap (λ x. bit_or x m) (times_one h)
    ∙ sym (times_one (bit_or h m))
bit_or-split zero h zero m (suc n) p q = absurd (omega arith)
bit_or-split zero h (suc l) m n p q = absurd (omega arith)
bit_or-split (suc k) h l m n p q = omega (
  arith,
  power-suc (bit_or h m) k,
  bit_or_step (h * 2 ^ suc k + l) (m * 2 ^ suc k + n),
  odd-split h k l,
  odd-split m k n,
  ap (bit_or ((h * 2 ^ suc k + l) / 2)) (half-split m k n),
  ap (λ x. bit_or x (m * 2 ^ k + n / 2)) (half-split h k l),
  bit_or_step l n,
  bit_or-split k h (l / 2) m (n / 2) (omega (arith, pow-suc 2 k)) (omega (arith, pow-suc 2 k)),
)

pub bit_or-zero : (a : ℕ) → bit_or a 0 ≡ a
bit_or-zero =
    by_halves (λ a. bit_or a 0 ≡ a) (zero-bit_or 0)
      (λ a half. omega (arith, bit_or_step (suc a) 0, half))

pub bit_and-zero : (a : ℕ) → bit_and a 0 ≡ 0
bit_and-zero =
    by_halves (λ a. bit_and a 0 ≡ 0) (zero-bit_and 0)
      (λ a half. omega (arith, bit_and_step (suc a) 0, half))

-- A mask of ones below bit `k` keeps a number that fits.
pub bit_and-ones : (k a : ℕ) → a < 2 ^ k → bit_and a (2 ^ k - 1) ≡ a
bit_and-ones zero zero h = refl
bit_and-ones zero (suc a) h = absurd (omega arith)
bit_and-ones (suc k) a h =
    let half : (2 ^ suc k - 1) / 2 ≡ 2 ^ k - 1 = omega arith in
    let odd : (2 ^ suc k - 1) % 2 ≡ 1 = omega arith in
    let below : bit_and (a / 2) ((2 ^ suc k - 1) / 2) ≡ a / 2 =
      ap (bit_and (a / 2)) half ∙ bit_and-ones k (a / 2) (omega arith) in
    omega (arith, bit_and_step a (2 ^ suc k - 1), odd, below)

-- A mask of ones below bit `k` takes a remainder.
pub bit_and-low : (k a : ℕ) → bit_and a (2 ^ k - 1) ≡ a % 2 ^ k
bit_and-low k a =
    let h = a / 2 ^ k in
    let l = a % 2 ^ k in
    let small : l < 2 ^ k = mod-lt a (power_pos k) in
    let mask : 2 ^ k - 1 ≡ 0 * 2 ^ k + (2 ^ k - 1) = omega arith in
    ap (λ x. bit_and x (2 ^ k - 1)) (sym (div-add-mod' a (2 ^ k)))
    ∙ ap (bit_and (h * 2 ^ k + l)) mask
    ∙ bit_and-split k h l 0 (2 ^ k - 1) small (omega (arith, power_pos k))
    ∙ ap (λ x. x * 2 ^ k + bit_and l (2 ^ k - 1)) (bit_and-zero h)
    ∙ omega arith
    ∙ bit_and-ones k l small

pub bit_or-one : (a : ℕ) → bit_or a 1 ≡ a / 2 * 2 + 1
bit_or-one a = omega (arith, bit_or_step a 1, bit_or-zero (a / 2))
