-- ===== src/Display/Lines.antt =====
-- Calls of the printing functions one after another, with the words that are written to ports in
-- between, and what they print together.
use anaga.Prelude.{
  ℕ, ◌+◌, ◌^◌, ◌<◌, ◌≡◌, ◌∙◌, refl, sym, ap, List, [], ◌∷◌, ◌++◌, Option, some, ◌>>=◌, bind_assoc,
  Returns, zero, suc, ◌≤◌, arith,
}
use mathlib.Core.Path.{fun_ext}
use anaga.CString.Text.{IsCString, text}
use anaga.Display.{Screen, put_all, kprint, kprint_num, magnitude}
use anaga.Display.Safety
use anaga.Display.Safety.{print_then, put_all-IsValid, kprint_lem}
use anaga.Display.Numbers.{IsNumeral, sign, kprint_num_text}
use anaga.Display.Printf.{Arg, kprintf, signed}
use anaga.Display.Format.{Fits, Expands}
use anaga.Display.Conversions.{signed-magnitude}
use anaga.Display.Expansion.{Printf-Fits}

-- A call of `kprintf`, of `kprint`, of `kprint_num` or of `outw` with its port and its word.
pub data Line : Type 0 where
  formats : List ℕ → List Arg → Line
  says : List ℕ → Line
  counts : ℕ → Line
  sends : ℕ → ℕ → Line

unfoldable pub print_line : Line → Screen → Option Screen
print_line (formats fmt args) s = kprintf fmt args s
print_line (says str) s = kprint (some str) s
print_line (counts w) s = kprint_num (signed w) s
print_line (sends port word) s = some s

unfoldable pub print_lines : List Line → Screen → Option Screen
unfolding print_line
print_lines [] s = some s
print_lines (line ∷ lines) s = print_line line s >>= print_lines lines

-- What a line stands for.
pub data Shows : Line → List ℕ → Type 0 where
  expands :
      (fmt : List ℕ) (args : List Arg) (out : List ℕ)
      → Expands fmt args out
      → Shows (formats fmt args) out
  plain : (str : List ℕ) → Shows (says str) (text str)
  numeral :
      (w : ℕ) (digits : List ℕ)
      → IsNumeral 10 (magnitude (signed w)) digits
      → Shows (counts w) (sign (signed w) ++ digits)
  silent : (port word : ℕ) → Shows (sends port word) []

-- What the lines stand for, together.
pub data Lines : List Line → List ℕ → Type 0 where
  done : Lines [] []
  next :
      (line : Line) (lines : List Line) (piece out : List ℕ)
      → Shows line piece
      → Lines lines out
      → Lines (line ∷ lines) (piece ++ out)

abbrev pub FitsLine : Line → Type 0
FitsLine (formats fmt args) = Fits fmt args
FitsLine (says str) = IsCString str
FitsLine (counts w) = w < 2 ^ 32
FitsLine (sends port word) = Unit

abbrev pub AllFit : List Line → Type 0
AllFit [] = Unit
AllFit (line ∷ lines) = FitsLine line × AllFit lines

-- The words that are written, each with its port, in order.
unfoldable pub words_sent : List Line → List (ℕ × ℕ)
words_sent [] = []
words_sent (formats fmt args ∷ lines) = words_sent lines
words_sent (says str ∷ lines) = words_sent lines
words_sent (counts w ∷ lines) = words_sent lines
words_sent (sends port word ∷ lines) = (port, word) ∷ words_sent lines

pub words_sent-append : (xs ys : List Line) → words_sent (xs ++ ys) ≡ words_sent xs ++ words_sent ys
unfolding words_sent
words_sent-append [] ys = refl
words_sent-append (formats fmt args ∷ xs) ys = words_sent-append xs ys
words_sent-append (says str ∷ xs) ys = words_sent-append xs ys
words_sent-append (counts w ∷ xs) ys = words_sent-append xs ys
words_sent-append (sends port word ∷ xs) ys =
    ap (λ words. (port, word) ∷ words) (words_sent-append xs ys)

print_line_text :
    (line : Line)
    → FitsLine line
    → (out : List ℕ) × Shows line out × ((s : Screen) → print_line line s ≡ put_all out s)
unfolding print_line put_all
print_line_text (formats fmt args) h =
    let (out, x, e) = Printf-Fits fmt args h in (out, expands fmt args out x, e)
print_line_text (sends port word) h = ([], silent port word, λ s. refl)
print_line_text (says str) h = (text str, plain str, λ s. kprint_lem str s h)
print_line_text (counts w) h =
    let (digits, n, e) = kprint_num_text (signed w) (signed-magnitude w h) in
    (sign (signed w) ++ digits, numeral w digits n, e)

pub print_lines_text :
    (lines : List Line)
    → AllFit lines
    → (out : List ℕ) × Lines lines out × ((s : Screen) → print_lines lines s ≡ put_all out s)
unfolding print_lines put_all
print_lines_text [] h = ([], done, λ s. refl)
print_lines_text (line ∷ lines) (h, rest) =
    let (piece, x, e) = print_line_text line h in
    let (out, l, k) = print_lines_text lines rest in
    (
      piece ++ out,
      next line lines piece out x l,
      λ s.
          ap (λ (m : Option Screen). m >>= print_lines lines) (e s)
          ∙ print_then piece out s (print_lines lines) k,
    )

-- Lines that fit print what they stand for, on a valid screen, and leave a valid one.
pub print_lines_lem :
    (lines : List Line) (s : Screen)
    → AllFit lines
    → Safety.IsValid s
    → (out : List ℕ) × Lines lines out
      × (print_lines lines s ≡ put_all out s)
      × Returns (λ t. Safety.IsValid t) (print_lines lines s)
print_lines_lem lines s h v =
    let (out, l, e) = print_lines_text lines h in (out, l, e s, rw (e s) (put_all-IsValid out s v))

pub print_lines-append :
    (xs ys : List Line) (s : Screen)
    → print_lines (xs ++ ys) s ≡ (print_lines xs s >>= print_lines ys)
unfolding print_lines
print_lines-append [] ys s = refl
print_lines-append (x ∷ xs) ys s =
    ap (λ (k : Screen → Option Screen). print_line x s >>= k) (fun_ext (print_lines-append xs ys))
    ∙ sym (bind_assoc (print_line x s) (print_lines xs) (print_lines ys))

pub AllFit-append : (xs ys : List Line) → AllFit xs → AllFit ys → AllFit (xs ++ ys)
AllFit-append [] ys h k = k
AllFit-append (x ∷ xs) ys h k = (h.0, AllFit-append xs ys h.1 k)

-- The lines of `n` numbers from `i` on.
unfoldable pub range_lines : (ℕ → List Line) → ℕ → ℕ → List Line
range_lines f zero i = []
range_lines f (suc n) i = f i ++ range_lines f n (i + 1)

pub AllFit-range_lines :
    (f : ℕ → List Line) (n i : ℕ)
    → ((j : ℕ) → i ≤ j → j < i + n → AllFit (f j))
    → AllFit (range_lines f n i)
unfolding range_lines
AllFit-range_lines f zero i h = tt
AllFit-range_lines f (suc n) i h =
    AllFit-append (f i) (range_lines f n (i + 1)) (h i (omega arith) (omega arith))
      (AllFit-range_lines f n (i + 1) (λ j lo hi. h j (omega arith) (omega arith)))

-- Lines, and what is done behind them.
unfoldable pub print_with {ℓ} : {A : Type ℓ} → List Line → (Screen → Option A) → Screen → Option A
unfolding print_line
print_with [] k s = k s
print_with (line ∷ lines) k s = print_line line s >>= print_with lines k

pub print_with_lem {ℓ} :
    {A : Type ℓ} (lines : List Line) (k : Screen → Option A) (s : Screen)
    → print_with lines k s ≡ (print_lines lines s >>= k)
unfolding print_with print_lines
print_with_lem [] k s = refl
print_with_lem (line ∷ lines) k s =
    ap (λ (f : Screen → Option _). print_line line s >>= f) (fun_ext (print_with_lem lines k))
    ∙ sym (bind_assoc (print_line line s) (print_lines lines) k)
