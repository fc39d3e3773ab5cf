-- ===== src/Display/Expansion.antt =====
-- `kprintf` prints what its format stands for.
use mathlib.Core.Path.{fun_ext}
use anaga.Prelude.{
  ℕ, ◌≡◌, refl, ap, ◌∙◌, subst, inl, inr, List, [], ◌∷◌, ◌++◌, Option, some, true, false, arith,
  ◌==◌, ◌>>=◌, bind_assoc, Bool-cases, drop, Returns,
}
use anaga.Display.{Screen, kputc, put_all}
use anaga.Display.Safety
use anaga.Display.Safety.{print_then, kprint_lem, put_all-IsValid}
use anaga.Display.Printf.{Arg, word, str, print_one, kprintf, kprintf_percent, kprintf_long}
use anaga.Display.Format.{
  Expands, ends, copies, converts, percents, FitsArg, Fits, FitsPercent, FitsLong, FitsLongArg,
  long_converts,
}
use anaga.Display.Conversions.{convert, convert_long, converts_kind}

-- The text that `kprintf` prints for a format, and what it stands for.
abbrev pub Printf : List ℕ → List Arg → Type 0
Printf fmt args =
    (out : List ℕ) × Expands fmt args out × ((s : Screen) → kprintf fmt args s ≡ put_all out s)

Printf-copy :
    (c : ℕ) (fmt : List ℕ) (args : List Arg)
    → (c == 0) ≡ false
    → (c == b'%') ≡ false
    → Printf fmt args
    → Printf (c ∷ fmt) args
unfolding kprintf put_all
Printf-copy c fmt args n p (out, x, e) = (
  c ∷ out,
  copies c fmt args out (λ k. ground arith) (λ k. ground arith) x,
  λ s. rw (n, p) (ap (λ (f : Screen → Option Screen). kputc c s >>= f) (fun_ext e)),
)

Printf-percent :
    (fmt : List ℕ) (args : List Arg) → Printf fmt args → Printf (b'%' ∷ b'%' ∷ fmt) args
unfolding kprintf kprintf_percent print_one put_all
Printf-percent fmt args (out, x, e) = (
  b'%' ∷ out,
  percents fmt args out x,
  λ s.
      bind_assoc (kputc b'%' s) (λ s'. some (args, s')) (λ r. kprintf fmt r.0 r.1)
      ∙ ap (λ (f : Screen → Option Screen). kputc b'%' s >>= f) (fun_ext e),
)

Printf-convert :
    (c : ℕ) (fmt : List ℕ) (a : Arg) (args : List Arg)
    → FitsArg c (a ∷ args)
    → Printf fmt args
    → Printf (b'%' ∷ c ∷ fmt) (a ∷ args)
unfolding kprintf kprintf_percent
Printf-convert c fmt a args h (out, x, e) =
    let (piece, p, k) = convert c a args h in
    let (n, l) = converts_kind c a args h in
    (
      piece ++ out,
      converts c fmt a args piece out p x,
      λ s.
          rw (n, l, k s)
            (bind_assoc (put_all piece s) (λ s'. some (args, s')) (λ r. kprintf fmt r.0 r.1)
              ∙ print_then piece out s (kprintf fmt args) e),
    )

convert_fits :
    (c : ℕ) (fmt : List ℕ) (args : List Arg)
    → FitsArg c args
    → Printf fmt (drop 1 args)
    → Printf (b'%' ∷ c ∷ fmt) args
convert_fits c fmt [] h p = absurd h
convert_fits c fmt (a ∷ args) h p = Printf-convert c fmt a args h p

Printf-long :
    (c : ℕ) (fmt : List ℕ) (args : List Arg)
    → FitsLongArg c args
    → Printf fmt (drop 1 args)
    → Printf (b'%' ∷ b'l' ∷ c ∷ fmt) args
unfolding kprintf kprintf_percent kprintf_long
Printf-long c fmt [] h p = absurd h
Printf-long c fmt (str a ∷ args) h p = absurd h
Printf-long c fmt (word w ∷ args) h (out, x, e) =
    let (piece, p, k) = convert_long c w args h in
    (
      piece ++ out,
      long_converts c fmt w args piece out p x,
      λ s. rw (k s) (
          bind_assoc (put_all piece s) (λ s'. some (args, s')) (λ r. kprintf fmt r.0 r.1)
          ∙ print_then piece out s (kprintf fmt args) e),
    )

-- A format that ends at its first byte.
ends_here : (c : ℕ) (fmt : List ℕ) (args : List Arg) → (c == 0) ≡ true → Printf (c ∷ fmt) args
unfolding kprintf put_all
ends_here c fmt args e =
    subst (λ c. Printf (c ∷ fmt) args) (let z : 0 ≡ c = ground arith in z)
      ([], ends fmt args, λ s. refl)

-- The two bytes in front of a conversion, as the tests find them.
percent_at :
    (c : ℕ) (fmt : List ℕ) (args : List Arg)
    → (c == b'%') ≡ true
    → Printf (b'%' ∷ fmt) args
    → Printf (c ∷ fmt) args
percent_at c fmt args e p =
    subst (λ c. Printf (c ∷ fmt) args) (let z : b'%' ≡ c = ground arith in z) p

pub Printf-Fits : (fmt : List ℕ) (args : List Arg) → Fits fmt args → Printf fmt args
unfolding Fits FitsPercent FitsLong
Printf-Fits [] args h = absurd h
Printf-Fits (c ∷ []) args h = elim (Bool-cases (c == 0)) [
  | inl e ↦ ends_here c [] args e
  | inr n ↦ absurd (elim (Bool-cases (c == b'%')) [
    | inl e ↦ let k : ⊥ = rw (n, e) at h in k
    | inr p ↦ let k : ⊥ = rw (n, p) at h in k
  ])
]
Printf-Fits (c ∷ d ∷ []) args h = elim (Bool-cases (c == 0)) [
  | inl e ↦ ends_here c (d ∷ []) args e
  | inr n ↦ elim (Bool-cases (c == b'%')) [
    | inr p ↦
        let k : Fits (d ∷ []) args = rw (n, p) at h in
        Printf-copy c (d ∷ []) args n p (Printf-Fits (d ∷ []) args k)
    | inl e ↦
        let k : FitsPercent (d ∷ []) args = rw (n, e) at h in
        absurd (elim (Bool-cases (d == b'%')) [
          | inl q ↦ let z : ⊥ = rw q at k in z
          | inr m ↦ elim (Bool-cases (d == b'l')) [
            | inl q ↦ let z : ⊥ = rw (m, q) at k in z
            | inr l ↦ let z : FitsArg d args × ⊥ = rw (m, l) at k in z.1
          ]
        ])
  ]
]
Printf-Fits (c ∷ d ∷ b ∷ fmt) args h = elim (Bool-cases (c == 0)) [
  | inl e ↦ ends_here c (d ∷ b ∷ fmt) args e
  | inr n ↦ elim (Bool-cases (c == b'%')) [
    | inr p ↦
        let k : Fits (d ∷ b ∷ fmt) args = rw (n, p) at h in
        Printf-copy c (d ∷ b ∷ fmt) args n p (Printf-Fits (d ∷ b ∷ fmt) args k)
    | inl e ↦
        let k : FitsPercent (d ∷ b ∷ fmt) args = rw (n, e) at h in
        percent_at c (d ∷ b ∷ fmt) args e (elim (Bool-cases (d == b'%')) [
          | inl q ↦
              let k : Fits (b ∷ fmt) args = rw q at k in
              subst (λ d. Printf (b'%' ∷ d ∷ b ∷ fmt) args) (let z : b'%' ≡ d = ground arith in z)
                (Printf-percent (b ∷ fmt) args (Printf-Fits (b ∷ fmt) args k))
          | inr m ↦ elim (Bool-cases (d == b'l')) [
            | inl q ↦
                let k : FitsLongArg b args × Fits fmt (drop 1 args) = rw (m, q) at k in
                subst (λ d. Printf (b'%' ∷ d ∷ b ∷ fmt) args) (let z : b'l' ≡ d = ground arith in z)
                  (Printf-long b fmt args k.0 (Printf-Fits fmt (drop 1 args) k.1))
            | inr l ↦
                let k : FitsArg d args × Fits (b ∷ fmt) (drop 1 args) = rw (m, l) at k in
                convert_fits d (b ∷ fmt) args k.0 (Printf-Fits (b ∷ fmt) (drop 1 args) k.1)
          ]
        ])
  ]
]

-- `kprintf` of a format that is a C string, with arguments that fit its conversions, returns: it
-- prints the format with each `%c`, `%s`, `%d`, `%x`, `%lx` and `%lu` replaced by the character,
-- the text, or the signed decimal, hexadecimal or decimal numeral of the next argument, and `%%` by
-- `%`.
pub kprintf_lem :
    (fmt : List ℕ) (args : List Arg) (s : Screen)
    → Fits fmt args
    → (out : List ℕ) × Expands fmt args out × (kprintf fmt args s ≡ put_all out s)
kprintf_lem fmt args s h = let (out, x, e) = Printf-Fits fmt args h in (out, x, e s)

pub kprintf-IsValid :
    (fmt : List ℕ) (args : List Arg) (s : Screen)
    → Fits fmt args
    → Safety.IsValid s
    → Returns (λ t. Safety.IsValid t) (kprintf fmt args s)
kprintf-IsValid fmt args s h k =
    let (out, x, e) = kprintf_lem fmt args s h in rw e (put_all-IsValid out s k)
