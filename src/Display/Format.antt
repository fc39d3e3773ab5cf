-- ===== src/Display/Format.antt =====
-- What `kprintf` means to print for a format and the arguments that fit it.
use anaga.Prelude.{
  ℕ, ◌%◌, ◌^◌, ◌<◌, ◌≡◌, ◌≢◌, List, [], ◌∷◌, ◌++◌, none, some, true, ◌||◌, ◌==◌, if◌then◌else◌,
  drop, literal,
}
use anaga.CString.Text.{IsCString, text}
use anaga.Display.{magnitude}
use anaga.Display.Numbers.{IsNumeral, sign}
use anaga.Display.Printf.{Arg, word, str, signed}

-- What a conversion prints of its argument.
pub data Converts : ℕ → Arg → List ℕ → Type 0 where
  char : (w : ℕ) → Converts b'c' (word w) (w % 2 ^ 8 ∷ [])
  string : (t : List ℕ) → Converts b's' (str (some t)) (text t)
  null : Converts b's' (str none) (text (literal "(null)"))
  int :
      (w : ℕ) (digits : List ℕ)
      → IsNumeral 10 (magnitude (signed w)) digits
      → Converts b'd' (word w) (sign (signed w) ++ digits)
  hex : (w : ℕ) (digits : List ℕ) → IsNumeral 16 w digits → Converts b'x' (word w) digits

-- What `%lx` and `%lu` print of their argument.
pub data ConvertsLong : ℕ → ℕ → List ℕ → Type 0 where
  long_hex : (w : ℕ) (digits : List ℕ) → IsNumeral 16 w digits → ConvertsLong b'x' w digits
  long_dec : (w : ℕ) (digits : List ℕ) → IsNumeral 10 w digits → ConvertsLong b'u' w digits

-- What a format stands for: its bytes before the first NUL, with each conversion replaced by what it
-- prints of the next argument, and `%%` by `%`.
pub data Expands : List ℕ → List Arg → List ℕ → Type 0 where
  ends : (fmt : List ℕ) (args : List Arg) → Expands (0 ∷ fmt) args []
  copies :
      (c : ℕ) (fmt : List ℕ) (args : List Arg) (out : List ℕ)
      → c ≢ 0
      → c ≢ b'%'
      → Expands fmt args out
      → Expands (c ∷ fmt) args (c ∷ out)
  converts :
      (c : ℕ) (fmt : List ℕ) (a : Arg) (args : List Arg) (piece out : List ℕ)
      → Converts c a piece
      → Expands fmt args out
      → Expands (b'%' ∷ c ∷ fmt) (a ∷ args) (piece ++ out)
  long_converts :
      (c : ℕ) (fmt : List ℕ) (w : ℕ) (args : List Arg) (piece out : List ℕ)
      → ConvertsLong c w piece
      → Expands fmt args out
      → Expands (b'%' ∷ b'l' ∷ c ∷ fmt) (word w ∷ args) (piece ++ out)
  percents :
      (fmt : List ℕ) (args : List Arg) (out : List ℕ)
      → Expands fmt args out
      → Expands (b'%' ∷ b'%' ∷ fmt) args (b'%' ∷ out)

-- An argument fits a conversion.
abbrev pub FitsArg : ℕ → List Arg → Type 0
FitsArg c [] = ⊥
FitsArg c (word w ∷ args) = (w < 2 ^ 32) × ((c == b'c' || c == b'd' || c == b'x') ≡ true)
FitsArg c (str none ∷ args) = c ≡ b's'
FitsArg c (str (some t) ∷ args) = (c ≡ b's') × IsCString t

-- An argument fits a conversion behind `%l`.
abbrev pub FitsLongArg : ℕ → List Arg → Type 0
FitsLongArg c [] = ⊥
FitsLongArg c (word w ∷ args) = (w < 2 ^ 32) × ((c == b'x' || c == b'u') ≡ true)
FitsLongArg c (str s ∷ args) = ⊥

-- A format that is a C string, whose conversions are `%c`, `%s`, `%d`, `%x`, `%lx`, `%lu` and
-- `%%`, and arguments that fit them.
unfoldable mutual
  pub Fits : List ℕ → List Arg → Type 0
  Fits [] args = ⊥
  Fits (c ∷ fmt) args =
      let conversion = FitsPercent fmt args in
      let plain = Fits fmt args in if c == 0 then Unit else if c == b'%' then conversion else plain

  pub FitsPercent : List ℕ → List Arg → Type 0
  FitsPercent [] args = ⊥
  FitsPercent (c ∷ fmt) args =
      let rest = Fits fmt args in
      let next = Fits fmt (drop 1 args) in
      let long = FitsLong fmt args in
      if c == b'%' then rest else if c == b'l' then long else FitsArg c args × next

  pub FitsLong : List ℕ → List Arg → Type 0
  FitsLong [] args = ⊥
  FitsLong (c ∷ fmt) args = let next = Fits fmt (drop 1 args) in FitsLongArg c args × next
