-- ===== src/Display/Typing.antt =====
-- `kputc` on each kind of character: what it writes, and where it leaves the cursor.
use anaga.Prelude.{
  ℕ, ◌+◌, ◌-◌, ◌*◌, ◌<◌, ◌≡◌, sym, ap, inl, inr, true, false, some, arith, set, length-set,
  Bool-cases, leb, ltb, ◌==◌, if◌then◌else◌,
}
use anaga.Display.{
  Screen, vga_width, vga_height, blank, cell, poke, put_backspace, put_printable, is_printable,
  put_char, wrap_line, scroll_below, kputc, kscroll_up,
}
use anaga.Display.Safety.{IsValid, poke_lem}

-- The index of the cell under the cursor.
abbrev pub here : Screen → ℕ
here s = s.cursor_y * vga_width + s.cursor_x

-- The cell under the cursor holds `c`, and the cursor is one cell further on.
abbrev pub typed : ℕ → Screen → Screen
typed c s = record {
  vga = set s.vga (here s) (cell c);
  cursor_x = if s.cursor_x == 79 then 0 else s.cursor_x + 1;
  cursor_y = if s.cursor_x == 79 then s.cursor_y + 1 else s.cursor_y;
}

abbrev typed_at : ℕ → Screen → ℕ → Screen
typed_at c s x = record s { vga = set s.vga (here s) (cell c); cursor_x = x }

ltb-suc : (n : ℕ) → ltb 0 (n + 1) ≡ true
ltb-suc n = ground arith

add-sub_cancel : (n : ℕ) → n + 1 - 1 ≡ n
add-sub_cancel n = omega arith

-- A printable character that is not typed in the last cell of the screen.
pub kputc_printable :
    (c : ℕ) (s : Screen)
    → IsValid s
    → is_printable c ≡ true
    → here s < 1999
    → kputc c s ≡ some (typed c s)
unfolding kputc put_char put_printable is_printable wrap_line scroll_below
kputc_printable c s h p room =
    let n : (c == 10) ≡ false = ground arith in
    let b : (c == 8) ≡ false = ground arith in
    let inside : leb vga_width s.cursor_x ≡ false = ground arith in
    rw (n, b, p, inside, poke_lem (cell c) s h) (ground arith)

-- In the last cell of the screen, it is written and the screen scrolls.
pub kputc_corner :
    (c : ℕ) (s : Screen)
    → IsValid s
    → is_printable c ≡ true
    → here s ≡ 1999
    → kputc c s ≡ kscroll_up (typed c s)
unfolding kputc put_char put_printable is_printable wrap_line scroll_below
kputc_corner c s h p corner =
    let n : (c == 10) ≡ false = ground arith in
    let b : (c == 8) ≡ false = ground arith in
    let x : s.cursor_x ≡ 79 = omega arith in
    let y : s.cursor_y ≡ 24 = omega arith in
    let inside : leb vga_width s.cursor_x ≡ false = ground arith in
    rw (n, b, p, inside, poke_lem (cell c) s h, x, y)

put_backspace-typed :
    (c : ℕ) (s : Screen)
    → put_backspace (typed c s) ≡ poke blank (record s { vga = set s.vga (here s) (cell c) })
unfolding put_backspace
put_backspace-typed c s = elim (Bool-cases (s.cursor_x == 79)) [
  | inl e ↦
      let x : s.cursor_x ≡ 79 = ground arith in
      rw (e, ltb-suc s.cursor_y, add-sub_cancel)
        (ap (λ (k : ℕ). poke blank (typed_at c s k)) (sym x))
  | inr e ↦ rw (e, ltb-suc s.cursor_x, add-sub_cancel)
]

-- Backspace after a character goes back to where that was typed, over the end of a line too, and
-- blanks it.
pub kputc_backspace :
    (c : ℕ) (s : Screen)
    → IsValid s
    → kputc 8 (typed c s)
      ≡ some (record s { vga = set (set s.vga (here s) (cell c)) (here s) blank })
unfolding kputc put_char wrap_line scroll_below
kputc_backspace c s h =
    let back : Screen = record s { vga = set s.vga (here s) (cell c) } in
    let inside : leb vga_width s.cursor_x ≡ false = ground arith in
    let above : leb vga_height s.cursor_y ≡ false = ground arith in
    rw
      (
        put_backspace-typed c s,
        poke_lem blank back (omega (arith, length-set s.vga (here s) (cell c))),
      )
      (ground arith)
