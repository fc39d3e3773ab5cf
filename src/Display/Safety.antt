-- ===== src/Display/Safety.antt =====
-- The invariant of the screen, under `kputc` and what is built on it.
use mathlib.Core.Path.{fun_ext}
use anaga.Prelude.{
  ◌++◌, ◌∙◌, refl, sym, bind_assoc, ℕ, ◌+◌, ◌-◌, ◌*◌, ◌≤◌, ◌<◌, ◌≡◌, ap, inl, inr, Option, some,
  List, [], ◌∷◌, arith, length, set, store_lem, length-set, ◌>>=◌, Returns, Returns-bind,
  Returns-mono, Bool-cases, leb, ltb, ◌==◌, false,
}
use mathlib.Core.Path.{fun_ext}
use anaga.CString.Text.{IsCString, text, tail-IsCString}
use anaga.Display.{
  Screen, vga_width, vga_height, blank, poke, cell, put_backspace, put_printable, is_printable,
  put_char, wrap_line, scroll_below, kputc, put_string, kprint, put_all,
}
use anaga.Display.Scroll.{Scrolled, kscroll_up_lem}

pub record IsValid (s : Screen) : Type 0 where
  pub size : length s.vga ≡ vga_width * vga_height
  pub column : s.cursor_x < vga_width
  pub row : s.cursor_y < vga_height

-- Between the write of a character and the scroll the cursor may be one past either edge.
record IsAlmost (s : Screen) : Type 0 where
  size : length s.vga ≡ vga_width * vga_height
  column : s.cursor_x ≤ vga_width
  row : s.cursor_y ≤ vga_height
  corner : s.cursor_x ≡ vga_width → s.cursor_y < vga_height

-- A write at a cursor on the screen succeeds.
pub poke_lem :
    (v : ℕ) (s : Screen)
    → IsValid s
    → poke v s ≡ some (record s { vga = set s.vga (s.cursor_y * vga_width + s.cursor_x) v })
unfolding poke
poke_lem v s h = rw (store_lem s.vga (s.cursor_y * vga_width + s.cursor_x) v (omega arith))

poke-Almost : (v : ℕ) (s : Screen) → IsValid s → Returns IsAlmost (poke v s)
poke-Almost v s h =
    rw (poke_lem v s h) (omega (arith, length-set s.vga (s.cursor_y * vga_width + s.cursor_x) v))

put_backspace-Almost : (s : Screen) → IsValid s → Returns IsAlmost (put_backspace s)
unfolding put_backspace
put_backspace-Almost s h = elim (Bool-cases (ltb 0 s.cursor_x)) [
  | inl x ↦ rw x (poke-Almost blank (record s { cursor_x = s.cursor_x - 1 }) (ground arith))
  | inr x ↦ elim (Bool-cases (ltb 0 s.cursor_y)) [
    | inl y ↦
        rw (x, y)
          (poke-Almost blank (record s { cursor_x = vga_width - 1; cursor_y = s.cursor_y - 1 })
            (ground arith))
    | inr y ↦ rw (x, y) (omega arith)
  ]
]

put_printable-Almost : (c : ℕ) (s : Screen) → IsValid s → Returns IsAlmost (put_printable c s)
unfolding put_printable
put_printable-Almost c s h =
    let inside : leb vga_width s.cursor_x ≡ false = ground arith in
    rw (inside, poke_lem (cell c) s h)
      (omega (arith, length-set s.vga (s.cursor_y * vga_width + s.cursor_x) (cell c)))

put_char-Almost : (c : ℕ) (s : Screen) → IsValid s → Returns IsAlmost (put_char c s)
unfolding put_char
put_char-Almost c s h = elim (Bool-cases (c == b'\n')) [
  | inl n ↦ rw n (omega arith)
  | inr n ↦ elim (Bool-cases (c == 8)) [
    | inl b ↦ rw (n, b) (put_backspace-Almost s h)
    | inr b ↦ elim (Bool-cases (is_printable c)) [
      | inl p ↦ rw (n, b, p) (put_printable-Almost c s h)
      | inr p ↦ rw (n, b, p) (omega arith)
    ]
  ]
]

-- A cursor that is one past an edge is brought back, by a new line and by a scroll.
settle-IsValid : (s : Screen) → IsAlmost s → Returns IsValid (scroll_below (wrap_line s))
unfolding scroll_below wrap_line
settle-IsValid s h = elim (Bool-cases (leb vga_height (wrap_line s).cursor_y)) [
  | inl below ↦ rw below (
      Returns-mono (Scrolled (wrap_line s)) IsValid _ (kscroll_up_lem (wrap_line s) (ground arith))
        (λ t m. ground (arith, m.size, m.cursor_y, m.cursor_x)))
  | inr inside ↦ rw inside (ground arith)
]

-- `kputc` of any byte writes inside the text buffer and leaves the cursor on the screen.
pub kputc-IsValid : (c : ℕ) (s : Screen) → IsValid s → Returns IsValid (kputc c s)
unfolding kputc
kputc-IsValid c s h =
    Returns-bind IsAlmost IsValid (put_char c s) _ (put_char-Almost c s h) settle-IsValid

pub put_all-IsValid : (buf : List ℕ) (s : Screen) → IsValid s → Returns IsValid (put_all buf s)
unfolding put_all
put_all-IsValid [] s h = h
put_all-IsValid (c ∷ buf) s h =
    Returns-bind IsValid IsValid (kputc c s) (put_all buf) (kputc-IsValid c s h)
      (put_all-IsValid buf)

-- `kprint` of a C string prints the bytes of its text, one by one.
pub kprint_lem :
    (str : List ℕ) (s : Screen) → IsCString str → kprint (some str) s ≡ put_all (text str) s
unfolding kprint put_string put_all
kprint_lem [] s h = absurd h
kprint_lem (c ∷ str) s h = elim (Bool-cases (c == 0)) [
  | inl e ↦ rw e
  | inr e ↦ rw e (
      ap (λ (k : Screen → Option Screen). kputc c s >>= k)
        (fun_ext (λ s'. kprint_lem str s' (tail-IsCString c str h e))))
]

-- `kprint` of a C string succeeds on a valid screen and leaves a valid screen.
pub kprint-IsValid :
    (str : List ℕ) (s : Screen) → IsCString str → IsValid s → Returns IsValid (kprint (some str) s)
kprint-IsValid str s k h = rw (kprint_lem str s k) (put_all-IsValid (text str) s h)

-- Printing one text after another.
pub put_all-append :
    (xs ys : List ℕ) (s : Screen) → put_all (xs ++ ys) s ≡ (put_all xs s >>= put_all ys)
unfolding put_all
put_all-append [] ys s = refl
put_all-append (c ∷ xs) ys s =
    ap (λ (k : Screen → Option Screen). kputc c s >>= k) (fun_ext (put_all-append xs ys))
    ∙ sym (bind_assoc (kputc c s) (put_all xs) (put_all ys))

-- Printing one text after another, with the second part written as a function of the screen.
pub print_then :
    (xs ys : List ℕ) (s : Screen) (k : Screen → Option Screen)
    → ((s' : Screen) → k s' ≡ put_all ys s')
    → (put_all xs s >>= k) ≡ put_all (xs ++ ys) s
print_then xs ys s k h =
    ap (λ (f : Screen → Option Screen). put_all xs s >>= f) (fun_ext h)
    ∙ sym (put_all-append xs ys s)
