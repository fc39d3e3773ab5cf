-- ===== src/Keyboard/Wait.antt =====
-- The wait for a key.
use Prim.Native.Nat.{bit_and}
use anaga.Prelude.{ℕ, zero, suc, ◌<◌, ◌≡◌, ◌≢◌, ◌∙◌, refl, ap, some, arith, eq→==, ne→==}
use anaga.Ports.{Ports}
use anaga.Keyboard.{wait_output, get_scancode}

-- A keyboard controller as its documentation has it: it says that there is no byte for `delay` more
-- reads of the status, and then that there is one, which is `code`, until the data is read.
pub record HasKeys (p : Ports) : Type 0 where
  pub delay : p.Device → ℕ
  pub code : p.Device → ℕ
  pub none_yet : (d : p.Device) (n : ℕ) → delay d ≡ suc n → bit_and (p.inb 0x64 d).0 0x01 ≡ 0
  pub there : (d : p.Device) → delay d ≡ 0 → bit_and (p.inb 0x64 d).0 0x01 ≢ 0
  pub polled : (d : p.Device) (n : ℕ) → delay d ≡ suc n → delay (p.inb 0x64 d).1 ≡ n
  pub polled_there : (d : p.Device) → delay d ≡ 0 → delay (p.inb 0x64 d).1 ≡ 0
  pub code_keeps : (d : p.Device) → code (p.inb 0x64 d).1 ≡ code d
  pub data_read : (d : p.Device) → delay d ≡ 0 → (p.inb 0x60 d).0 ≡ code d

module _ (p : Ports) (c : HasKeys p) where
  open c use {delay, code}

  wait_output_lem :
      (polls n : ℕ) (d : p.Device)
      → delay d ≡ n
      → n < polls
      → (d' : p.Device) × (wait_output p polls d ≡ some d') × (delay d' ≡ 0) × (code d' ≡ code d)
  unfolding wait_output
  wait_output_lem zero n d e h = absurd (omega arith)
  wait_output_lem (suc polls) zero d e h = (
    (p.inb 0x64 d).1,
    rw (ne→== (bit_and (p.inb 0x64 d).0 0x01) 0 (c.there d e), wait_output) refl,
    c.polled_there d e,
    c.code_keeps d,
  )
  wait_output_lem (suc polls) (suc n) d e h =
      let (d', f, r, k) = wait_output_lem polls n (p.inb 0x64 d).1 (c.polled d n e) (omega arith) in
      (
        d',
        rw (eq→== (bit_and (p.inb 0x64 d).0 0x01) 0 (c.none_yet d n e), wait_output) f,
        r,
        k ∙ c.code_keeps d,
      )

  -- `get_scancode` at a keyboard controller that follows the documentation, with more polls than it
  -- takes until a key is pressed, returns the code of that key, which it reads when it is there.
  pub get_scancode_lem :
      (polls : ℕ) (d : p.Device)
      → delay d < polls
      → (d' : p.Device) × (delay d' ≡ 0)
        × (get_scancode p polls d ≡ some (code d, (p.inb 0x60 d').1))
  unfolding get_scancode
  get_scancode_lem polls d h =
      let (d', e, r, k) = wait_output_lem polls (delay d) d refl h in
      (d', r, rw e (ap (λ v. some (v, (p.inb 0x60 d').1)) (c.data_read d' r ∙ k)))
