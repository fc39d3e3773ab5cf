-- ===== src/Display.antt =====
-- display/display.c: the VGA text buffer, the cursor, and the functions that print on them. A
-- `char` is its byte below 256; `none` is an access outside the text buffer or a local array.
pub mod Scroll
pub mod Safety
pub mod Typing
pub mod Digits
pub mod Numbers
pub mod Printf
pub mod Format
pub mod Conversions
pub mod Expansion
pub mod Lines
use Prim.Native.Nat.{bit_or}
use anaga.Prelude.{
  ℕ, zero, suc, ◌+◌, ◌-◌, ◌*◌, ◌/◌, ◌%◌, ◌^◌, Option, none, some, List, [], ◌∷◌, Bool, ◌&&◌, ◌==◌,
  ltb, leb, if◌then◌else◌, ◌>>=◌, get_elem?, store, ℤ, pos, negsuc,
}

abbrev pub vga_width : ℕ
vga_width = 80

abbrev pub vga_height : ℕ
vga_height = 25

abbrev pub vga_attr : ℕ
vga_attr = 0x0f

-- `vga`, `cursor_x` and `cursor_y`. The cursor is decremented only where it is positive, so it is a
-- natural number, and the code's resets of a negative cursor do nothing.
pub record Screen : Type 0 where
  pub vga : List ℕ
  pub cursor_x : ℕ
  pub cursor_y : ℕ

-- `((uint16_t)VGA_ATTR << 8) | (uint8_t)c`
unfoldable pub cell : ℕ → ℕ
cell c = bit_or (vga_attr * 2 ^ 8) (c % 2 ^ 8)

abbrev pub blank : ℕ
blank = 0x0f20

-- `for (...; i++) vga[i] = blank;`, `n` rounds from index `i` on
unfoldable pub blank_cells : ℕ → ℕ → List ℕ → Option (List ℕ)
blank_cells zero i vga = some vga
blank_cells (suc n) i vga = store vga i blank >>= blank_cells n (i + 1)

unfoldable pub kclean_display : Screen → Option Screen
kclean_display s = blank_cells (vga_width * vga_height) 0 s.vga >>= λ vga.
    some (record { vga = vga; cursor_x = 0; cursor_y = 0 })

unfoldable pub copy_cell : ℕ → ℕ → List ℕ → Option (List ℕ)
copy_cell dest src vga = get_elem? vga src >>= λ c. store vga dest c

-- the inner loop of `kscroll_up`, `n` rounds from column `col` on
unfoldable pub copy_cols : ℕ → ℕ → ℕ → List ℕ → Option (List ℕ)
copy_cols zero row col vga = some vga
copy_cols (suc n) row col vga =
    copy_cell ((row - 1) * vga_width + col) (row * vga_width + col) vga
    >>= copy_cols n row (col + 1)

-- the outer loop, `n` rounds from row `row` on
unfoldable pub copy_rows : ℕ → ℕ → List ℕ → Option (List ℕ)
copy_rows zero row vga = some vga
copy_rows (suc n) row vga = copy_cols vga_width row 0 vga >>= copy_rows n (row + 1)

unfoldable pub kscroll_up : Screen → Option Screen
kscroll_up s = copy_rows (vga_height - 1) 1 s.vga >>= λ moved.
    blank_cells vga_width ((vga_height - 1) * vga_width) moved >>= λ vga. some (record {
      vga = vga;
      cursor_x = if leb vga_width s.cursor_x then 0 else s.cursor_x;
      cursor_y = vga_height - 1;
    })

unfoldable pub poke : ℕ → Screen → Option Screen
poke v s =
    store s.vga (s.cursor_y * vga_width + s.cursor_x) v >>= λ vga. some (record s { vga = vga })

-- `if (cursor_x >= VGA_WIDTH) { cursor_x = 0; cursor_y++; }`
unfoldable pub wrap_line : Screen → Screen
wrap_line s =
    if leb vga_width s.cursor_x then record s { cursor_x = 0; cursor_y = s.cursor_y + 1 } else s

unfoldable pub put_backspace : Screen → Option Screen
unfolding poke
put_backspace s =
    if ltb 0 s.cursor_x
    then poke blank (record s { cursor_x = s.cursor_x - 1 })
    else if ltb 0 s.cursor_y
    then poke blank (record s { cursor_x = vga_width - 1; cursor_y = s.cursor_y - 1 })
    else some s

unfoldable pub put_printable : ℕ → Screen → Option Screen
unfolding poke wrap_line
put_printable c s =
    poke (cell c) (wrap_line s) >>= λ s'. some (record s' { cursor_x = s'.cursor_x + 1 })

-- `c >= ' '` for a signed `char`
unfoldable pub is_printable : ℕ → Bool
is_printable c = leb 32 c && ltb c 128

-- The branches of `kputc` on the character, before the cursor is brought back into the screen.
unfoldable pub put_char : ℕ → Screen → Option Screen
unfolding put_backspace put_printable is_printable
put_char c s =
    if c == b'\n'
    then some (record s { cursor_x = 0; cursor_y = s.cursor_y + 1 })
    else if c == 8
    then put_backspace s
    else if is_printable c
    then put_printable c s
    else some s

unfoldable pub scroll_below : Screen → Option Screen
scroll_below s = if leb vga_height s.cursor_y then kscroll_up s else some s

unfoldable pub kputc : ℕ → Screen → Option Screen
unfolding put_char wrap_line scroll_below
kputc c s = put_char c s >>= λ s'. scroll_below (wrap_line s')

-- `while (*str) kputc(*str++);`
unfoldable pub put_string : List ℕ → Screen → Option Screen
put_string [] s = none
put_string (c ∷ str) s = let rest = kputc c s >>= put_string str in if c == 0 then some s else rest

-- The pointer may be NULL, which is `none`.
unfoldable pub kprint : Option (List ℕ) → Screen → Option Screen
unfolding put_string
kprint none s = some s
kprint (some str) s = put_string str s

-- `'0' + d` below ten, `'a' + d - 10` from there on
unfoldable pub digit : ℕ → ℕ
digit d = if ltb d 10 then b'0' + d else b'a' + d - 10

-- `while (u) { buf[i++] = digit(u % base); u /= base; }` with `room` bytes of `buf` left. What is
-- in `buf` stands as a list from its last byte to its first; a byte written past `buf` is `none`.
unfoldable pub write_digits : ℕ → ℕ → ℕ → List ℕ → Option (List ℕ)
unfolding digit
write_digits base zero u buf = if u == 0 then some buf else none
write_digits base (suc room) u buf =
    let rest = write_digits base room (u / base) (digit (u % base) ∷ buf) in
    if u == 0 then some buf else rest

-- `while (--i >= 0) kputc(buf[i]);`
unfoldable pub put_all : List ℕ → Screen → Option Screen
put_all [] s = some s
put_all (c ∷ buf) s = kputc c s >>= put_all buf

-- the magnitude of an `int`, as `unsigned int`
abbrev pub magnitude : ℤ → ℕ
magnitude (pos n) = n
magnitude (negsuc n) = suc n

abbrev pub is_negative : ℤ → Bool
is_negative (pos n) = Bool.false
is_negative (negsuc n) = Bool.true

unfoldable pub kprint_num : ℤ → Screen → Option Screen
kprint_num num s =
    if magnitude num == 0
    then kputc b'0' s
    else (if is_negative num then kputc b'-' s else some s) >>= λ signed.
        write_digits 10 12 (magnitude num) [] >>= λ buf. put_all buf signed

-- The target is 32-bit, so an `unsigned long` is below 2 ^ 32.
unfoldable pub kprint_hex : ℕ → Screen → Option Screen
kprint_hex num s =
    if num == 0 then kputc b'0' s else write_digits 16 17 num [] >>= λ buf. put_all buf s

unfoldable pub kprint_ulong : ℕ → Screen → Option Screen
kprint_ulong num s =
    if num == 0 then kputc b'0' s else write_digits 10 21 num [] >>= λ buf. put_all buf s
