-- ===== src/Input/Poll.antt =====
-- `input_poll`, and the table lookup of `getchar` that it reads its key by.
use anaga.Prelude.{
  length, length-take, [], ap, ℕ, ◌^◌, ◌<◌, ◌≡◌, ◌≢◌, inl, inr, some, Bool, false, ◌||◌, arith,
  get_elem?_of_lt, ◌==◌, leb, if◌then◌else◌, Returns, Returns-mono, Bool-cases,
}
use anaga.CString.Text.{text}
use anaga.Keyboard.{
  getchar, is_press, key_code, scancode_ascii, scancode_ascii_shift, shift_left, shift_right,
}
use anaga.Input.{Terminal, put_key, input_poll}
use anaga.Input.Line.{line, IsReady, edit, Keyed, put_key-Keyed}

-- `getchar` stays inside its tables, for every scancode.
pub getchar-Returns :
    (scancode : ℕ) (shift_state : Bool) → Returns (λ key. Unit {0}) (getchar scancode shift_state)
unfolding getchar
getchar-Returns scancode shift_state =
    elim (Bool-cases (key_code scancode == shift_left || key_code scancode == shift_right)) [
      | inl shift ↦ rw shift tt
      | inr plain ↦ elim (Bool-cases (is_press scancode)) [
        | inl press ↦ elim (Bool-cases (leb 59 (key_code scancode))) [
          | inl out ↦ rw (plain, press, out) tt
          | inr inside ↦
              rw (plain, press, inside)
                (elim (Bool-cases shift_state) [
                  | inl s ↦
                      let x =
                        get_elem?_of_lt scancode_ascii_shift (key_code scancode) (ground arith) in
                      rw (s, x.1) tt
                  | inr s ↦
                      let x = get_elem?_of_lt scancode_ascii (key_code scancode) (ground arith) in
                      rw (s, x.1) tt
                ])
        ]
        | inr release ↦ rw (plain, release) tt
      ]
    ]

-- `if (c == '\r') c = '\n';`
abbrev pub line_key : ℕ → ℕ
line_key c = if c == 13 then b'\n' else c

pub record Polled (size c : ℕ) (t : Terminal) (r : ℕ × Terminal) : Type 0 where
  pub ready : IsReady size r.1
  pub result : r.0 ≡ (if line_key c == b'\n' then 1 else 0)
  pub edited : line r.1 ≡ (if c == 0 then line t else edit size (line_key c) (line t))
  pub closed : line_key c ≡ b'\n' → text r.1.buffer ≡ line t

-- With the index inside a buffer of `size` bytes, `size` below 2 ^ 32, and the cursor on the screen,
-- `input_poll` returns for the key `key` that `getchar` gives it. The index is inside the buffer
-- still and the cursor on the screen; the line is what the editor `edit` makes of it; the result is
-- 1 at a new line only, and the buffer is then a C string of the line.
pub input_poll_lem :
    (size scancode : ℕ) (t : Terminal) (key : ℕ × Bool)
    → IsReady size t
    → size < 2 ^ 32
    → getchar scancode t.shift_state ≡ some key
    → Returns (Polled size key.0 t) (input_poll size scancode t)
unfolding input_poll
input_poll_lem size scancode t key h small e =
    let now = record t { shift_state = key.1 } in
    let now_ready : IsReady size now = record {
      screen_valid = h.screen_valid;
      inside = h.inside;
      room = h.room;
      no_nul = h.no_nul;
    } in
    elim (Bool-cases (key.0 == 0)) [
      | inl no_key ↦
          let other : (key.0 == 13) ≡ false = ground arith in
          let plain : (key.0 == b'\n') ≡ false = ground arith in
          rw (e, no_key)
            (record {
              ready = now_ready;
              result = rw (other, plain);
              edited = rw no_key;
              closed = rw other (λ z. ground arith);
            })
      | inr some_key ↦
          let ne : line_key key.0 ≢ 0 = λ z. ground arith in
          rw (e, some_key)
            (Returns-mono (Keyed size (line_key key.0) now) (Polled size key.0 t)
              (put_key size (line_key key.0) now)
              (put_key-Keyed size (line_key key.0) now now_ready small ne)
              (λ r k. record {
                ready = k.ready;
                result = k.result;
                edited = rw some_key k.edited;
                closed = k.closed;
              }))
    ]

-- After a new line nothing is typed.
pub Polled-start :
    (size c : ℕ) (t : Terminal) (r : ℕ × Terminal)
    → Polled size c t r
    → line_key c ≡ b'\n'
    → r.1.idx ≡ 0
unfolding edit
Polled-start size c t r p enter =
    let typed : (c == 0) ≡ false = ground arith in
    let empty : line r.1 ≡ [] = rw (typed, enter) at p.edited in
    let short : length (line r.1) ≡ 0 = ap length empty in
    omega (
      arith,
      short,
      p.ready.inside,
      p.ready.room,
      length-take r.1.idx r.1.buffer (omega (arith, p.ready.inside, p.ready.room)),
    )
