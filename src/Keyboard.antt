-- ===== src/Keyboard.antt =====
-- drivers/keyboard/keyboard.h and keyboard.c: the wait for a scancode at the ports of the keyboard
-- controller, with a number of polls for fuel, and the translation of a scancode.
pub mod Wait
use Prim.Native.Nat.{bit_and}
use anaga.Ports.{Ports}
use anaga.Prelude.{
  ℕ, zero, suc, none, true, false, ◌%◌, List, [], ◌∷◌, Option, some, Bool, ◌||◌, length, get_elem?,
  ◌==◌, leb, if◌then◌else◌, ◌>>=◌,
}

abbrev pub scancode_ascii : List ℕ
scancode_ascii =
    0 ∷ 27 ∷ b'1' ∷ b'2' ∷ b'3' ∷ b'4' ∷ b'5' ∷ b'6' ∷ b'7' ∷ b'8' ∷ b'9' ∷ b'0' ∷ b'-' ∷ b'=' ∷ 8
    ∷ 9 ∷ b'q' ∷ b'w' ∷ b'e' ∷ b'r' ∷ b't' ∷ b'y' ∷ b'u' ∷ b'i' ∷ b'o' ∷ b'p' ∷ b'[' ∷ b']' ∷ b'\n'
    ∷ 0 ∷ b'a' ∷ b's' ∷ b'd' ∷ b'f' ∷ b'g' ∷ b'h' ∷ b'j' ∷ b'k' ∷ b'l' ∷ b';' ∷ 39 ∷ b'`' ∷ 0 ∷ 92
    ∷ b'z' ∷ b'x' ∷ b'c' ∷ b'v' ∷ b'b' ∷ b'n' ∷ b'm' ∷ b',' ∷ b'.' ∷ b'/' ∷ 0 ∷ b'*' ∷ 0 ∷ b' ' ∷ 0
    ∷ []

abbrev pub scancode_ascii_shift : List ℕ
scancode_ascii_shift =
    0 ∷ 27 ∷ b'!' ∷ b'@' ∷ b'#' ∷ b'$' ∷ b'%' ∷ b'^' ∷ b'/' ∷ b'*' ∷ b'(' ∷ b')' ∷ b'_' ∷ b'+' ∷ 8
    ∷ 9 ∷ b'Q' ∷ b'W' ∷ b'E' ∷ b'R' ∷ b'T' ∷ b'Y' ∷ b'U' ∷ b'I' ∷ b'O' ∷ b'P' ∷ b'{' ∷ b'}' ∷ b'\n'
    ∷ 0 ∷ b'A' ∷ b'S' ∷ b'D' ∷ b'F' ∷ b'G' ∷ b'H' ∷ b'J' ∷ b'K' ∷ b'L' ∷ b':' ∷ 34 ∷ b'~' ∷ 0 ∷ b'|'
    ∷ b'Z' ∷ b'X' ∷ b'C' ∷ b'V' ∷ b'B' ∷ b'N' ∷ b'M' ∷ b'<' ∷ b'>' ∷ b'?' ∷ 0 ∷ b'*' ∷ 0 ∷ b' ' ∷ 0
    ∷ []

abbrev pub keyboard_data_port : ℕ
keyboard_data_port = 0x60

abbrev pub keyboard_status_port : ℕ
keyboard_status_port = 0x64

abbrev pub output_full : ℕ
output_full = 0x01

abbrev pub input_full : ℕ
input_full = 0x02

abbrev pub scancode_release : ℕ
scancode_release = 0x80

abbrev pub shift_left : ℕ
shift_left = 0x2a

abbrev pub shift_right : ℕ
shift_right = 0x36

-- `!(scancode & KEYBOARD_SCANCODE_RELEASE)`
unfoldable pub is_press : ℕ → Bool
is_press scancode = bit_and scancode scancode_release == 0

-- `scancode & ~KEYBOARD_SCANCODE_RELEASE`
unfoldable pub key_code : ℕ → ℕ
key_code scancode = scancode % scancode_release

module _ (p : Ports) where
  open p use {Device, inb}

  -- The loop of `get_scancode`; `none` where the polls do not suffice.
  unfoldable pub wait_output : ℕ → Device → Option Device
  wait_output zero d = none
  wait_output (suc polls) d =
      let (status, d) = inb keyboard_status_port d in
      let again = wait_output polls d in
      elim (bit_and status output_full == 0) [ true ↦ again | false ↦ some d ]

  unfoldable pub get_scancode : ℕ → Device → Option (ℕ × Device)
  get_scancode polls d = wait_output polls d >>= λ d. some (inb keyboard_data_port d)

-- `getchar` behind its call of `get_scancode`, which gave `scancode`: the character, 0 for
-- none, and the new `shift_state`.
unfoldable pub getchar : ℕ → Bool → Option (ℕ × Bool)
getchar scancode shift_state =
    let press = is_press scancode in
    let code = key_code scancode in
    if code == shift_left || code == shift_right
    then some (0, press)
    else if press
    then (if leb (length scancode_ascii) code
        then some (0, shift_state)
        else (get_elem? (if shift_state then scancode_ascii_shift else scancode_ascii) code >>= λ c.
            some (c, shift_state)))
    else some (0, shift_state)
