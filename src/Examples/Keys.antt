-- ===== src/Examples/Keys.antt =====
-- The theorem about the wait for a key, at a keyboard that has one after a poll.
use Prim.Native.Nat.{bit_and}
use anaga.Prelude.{ℕ, suc, ◌≡◌, ◌≢◌, refl, some, Bool, true, false, ◌==◌, if◌then◌else◌, arith}
use anaga.Ports.{Ports}
use anaga.Keyboard.{get_scancode}
use anaga.Keyboard.Wait.{HasKeys, get_scancode_lem}

-- Whether the key is still to be pressed.
abbrev status : Bool → ℕ
status true = 0x1C
status false = 0x1D

abbrev keyboard : Ports
keyboard = record {
  Device = Bool;
  inb = λ port d. if port == 0x64 then (status d, false) else (0x1E, d);
  outb = λ port v d. d;
  inw = λ port d. (0xFFFF, d);
  outw = λ port v d. d;
  inl = λ port d. (0xFFFFFFFF, d);
  outl = λ port v d. d;
}

abbrev delay_of : Bool → ℕ
delay_of true = 1
delay_of false = 0

status_none : (b : Bool) (n : ℕ) → delay_of b ≡ suc n → bit_and (status b) 0x01 ≡ 0
status_none true n e = refl
status_none false n e = absurd (omega arith)

status_there : (b : Bool) → delay_of b ≡ 0 → bit_and (status b) 0x01 ≢ 0
status_there true e = absurd (omega arith)
status_there false e = λ z. omega arith

polled_once : (b : Bool) (n : ℕ) → delay_of b ≡ suc n → 0 ≡ n
polled_once true n e = omega arith
polled_once false n e = absurd (omega arith)

abbrev keyboard-HasKeys : HasKeys keyboard
keyboard-HasKeys = record {
  delay = delay_of;
  code = λ d. 0x1E;
  none_yet = status_none;
  there = status_there;
  polled = polled_once;
  polled_there = λ d e. refl;
  code_keeps = λ d. refl;
  data_read = λ d e. refl;
}

get_scancode_example :
    (d : Bool) × (delay_of d ≡ 0) × (get_scancode keyboard 2 true ≡ some (0x1E, d))
get_scancode_example = get_scancode_lem keyboard keyboard-HasKeys 2 true (omega arith)
