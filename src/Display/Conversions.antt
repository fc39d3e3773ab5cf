-- ===== src/Display/Conversions.antt =====
-- What the conversions of `kprintf` print of their arguments.
use anaga.Prelude.{
  ℕ, ◌%◌, ◌^◌, ◌<◌, ◌≡◌, ◌⊎◌, refl, sym, ap, subst, inl, inr, List, [], ◌∷◌, ◌++◌, Option, none,
  some, true, false, ◌||◌, arith, ◌==◌, ◌>>=◌, bind-some, literal,
}
use anaga.CString.Text.{IsCString, text, IsCString-literal}
use anaga.Display.{Screen, kputc, put_all, magnitude}
use anaga.Display.Safety.{kprint_lem}
use anaga.Display.Numbers.{sign, kprint_num_text, kprint_hex_text, kprint_ulong_text}
use anaga.Display.Printf.{
  Arg, word, str, signed, take_word, take_str, print_word, print_one, print_l,
}
use anaga.Display.Format.{
  Converts, char, string, null, int, hex, FitsArg, FitsLongArg, ConvertsLong, long_hex, long_dec,
}

pub signed-magnitude : (w : ℕ) → w < 2 ^ 32 → magnitude (signed w) < 2 ^ 32
signed-magnitude w h = ground arith

print_word_lem :
    (f : ℕ → Screen → Option Screen) (w : ℕ) (args : List Arg) (s : Screen)
    → print_word f (word w ∷ args) s ≡ (f w s >>= λ s'. some (args, s'))
unfolding print_word take_word
print_word_lem f w args s = refl

-- What `print_one` does of a word, for each of its conversions.
word_kinds :
    (c : ℕ) → (c == b'c' || c == b'd' || c == b'x') ≡ true → (c ≡ b'c') ⊎ (c ≡ b'd') ⊎ (c ≡ b'x')
word_kinds c h = ground arith

long_kinds : (c : ℕ) → (c == b'x' || c == b'u') ≡ true → (c ≡ b'x') ⊎ (c ≡ b'u')
long_kinds c h = ground arith

-- A conversion of one argument, in terms of what it prints.
abbrev pub Converted : Arg → List Arg → ℕ → Type 0
Converted a args c =
    (piece : List ℕ) × Converts c a piece
    × ((s : Screen) → print_one c (a ∷ args) s ≡ (put_all piece s >>= λ s'. some (args, s')))

abbrev keep : List Arg → Option Screen → Option (List Arg × Screen)
keep args m = m >>= λ s'. some (args, s')

convert_char : (w : ℕ) (args : List Arg) → Converted (word w) args b'c'
unfolding print_one print_word take_word put_all
convert_char w args =
    (w % 2 ^ 8 ∷ [], char w, λ s. ap (keep args) (sym (bind-some (kputc (w % 2 ^ 8) s))))

convert_int : (w : ℕ) (args : List Arg) → w < 2 ^ 32 → Converted (word w) args b'd'
unfolding print_one print_word take_word
convert_int w args h =
    let (digits, numeral, e) = kprint_num_text (signed w) (signed-magnitude w h) in
    (sign (signed w) ++ digits, int w digits numeral, λ s. ap (keep args) (e s))

convert_hex : (w : ℕ) (args : List Arg) → w < 2 ^ 32 → Converted (word w) args b'x'
unfolding print_one print_word take_word
convert_hex w args h =
    let (digits, numeral, e) = kprint_hex_text w h in
    (digits, hex w digits numeral, λ s. ap (keep args) (e s))

convert_text : (t : List ℕ) (args : List Arg) → IsCString t → Converted (str (some t)) args b's'
unfolding print_one take_str
convert_text t args h = (text t, string t, λ s. ap (keep args) (kprint_lem t s h))

convert_null : (args : List Arg) → Converted (str none) args b's'
unfolding print_one take_str
convert_null args = (
  text (literal "(null)"),
  null,
  λ s. ap (keep args) (kprint_lem (literal "(null)") s (IsCString-literal "(null)")),
)

pub convert : (c : ℕ) (a : Arg) (args : List Arg) → FitsArg c (a ∷ args) → Converted a args c
convert c (str none) args h = subst (Converted (str none) args) (sym h) (convert_null args)
convert c (str (some t)) args (h, k) =
    subst (Converted (str (some t)) args) (sym h) (convert_text t args k)
convert c (word w) args (small, kind) = elim (word_kinds c kind) [
  | inl e ↦ subst (Converted (word w) args) (sym e) (convert_char w args)
  | inr (inl e) ↦ subst (Converted (word w) args) (sym e) (convert_int w args small)
  | inr (inr e) ↦ subst (Converted (word w) args) (sym e) (convert_hex w args small)
]

-- A conversion behind `%l`, in terms of what it prints.
abbrev pub ConvertedLong : ℕ → List Arg → ℕ → Type 0
ConvertedLong w args c =
    (piece : List ℕ) × ConvertsLong c w piece
    × ((s : Screen) → print_l c (word w ∷ args) s ≡ (put_all piece s >>= λ s'. some (args, s')))

convert_long_hex : (w : ℕ) (args : List Arg) → w < 2 ^ 32 → ConvertedLong w args b'x'
unfolding print_l print_word take_word
convert_long_hex w args h =
    let (digits, numeral, e) = kprint_hex_text w h in
    (digits, long_hex w digits numeral, λ s. ap (keep args) (e s))

convert_long_dec : (w : ℕ) (args : List Arg) → w < 2 ^ 32 → ConvertedLong w args b'u'
unfolding print_l print_word take_word
convert_long_dec w args h =
    let (digits, numeral, e) = kprint_ulong_text w h in
    (digits, long_dec w digits numeral, λ s. ap (keep args) (e s))

pub convert_long :
    (c w : ℕ) (args : List Arg) → FitsLongArg c (word w ∷ args) → ConvertedLong w args c
convert_long c w args (small, kind) = elim (long_kinds c kind) [
  | inl e ↦ subst (ConvertedLong w args) (sym e) (convert_long_hex w args small)
  | inr e ↦ subst (ConvertedLong w args) (sym e) (convert_long_dec w args small)
]

-- The conversions take an argument, and are not the end of the format.
pub converts_kind :
    (c : ℕ) (a : Arg) (args : List Arg)
    → FitsArg c (a ∷ args)
    → ((c == 0) ≡ false) × ((c == b'l') ≡ false)
converts_kind c (str none) args h = rw h (refl, refl)
converts_kind c (str (some t)) args (h, k) = rw h (refl, refl)
converts_kind c (word w) args (small, kind) = elim (word_kinds c kind) [
  | inl e ↦ rw e (refl, refl)
  | inr (inl e) ↦ rw e (refl, refl)
  | inr (inr e) ↦ rw e (refl, refl)
]
