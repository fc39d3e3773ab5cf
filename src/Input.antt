-- ===== src/Input.antt =====
-- io/kinput.c: the line that is typed at the prompt.
mod Arrays
pub mod Line
pub mod Poll
use anaga.Prelude.{
  ℕ, zero, suc, ◌+◌, ◌-◌, ◌%◌, ◌^◌, List, Option, some, Bool, ◌||◌, ◌==◌, ltb, if◌then◌else◌, ◌>>=◌,
  store, literal,
}
use anaga.Display.{Screen, kputc, kprint}
use anaga.Keyboard.{getchar}

-- The keyboard's `shift_state`, the static `idx`, the caller's buffer and the screen. `idx` is
-- decremented only where it is positive, and stays below the size of the buffer.
pub record Terminal : Type 0 where
  pub shift_state : Bool
  pub idx : ℕ
  pub buffer : List ℕ
  pub screen : Screen

unfoldable pub input_prompt : Screen → Option Screen
input_prompt s = kprint (some (literal "> ")) s

-- `kputc('\b'); kputc(' '); kputc('\b');`
unfoldable pub erase : Screen → Option Screen
erase s = kputc 8 s >>= kputc b' ' >>= kputc 8

-- `while (idx > 0) { idx--; ... }`
unfoldable pub erase_all : ℕ → Screen → Option Screen
erase_all zero s = some s
erase_all (suc idx) s = erase s >>= erase_all idx

unfoldable pub end_line : Terminal → Option (ℕ × Terminal)
end_line t = kputc b'\n' t.screen >>= λ s.
    store t.buffer t.idx 0 >>= λ b. some (1, record t { buffer = b; idx = 0; screen = s })

unfoldable pub erase_last : Terminal → Option (ℕ × Terminal)
erase_last t =
    if ltb 0 t.idx
    then (erase t.screen >>= λ s. some (0, record t { idx = t.idx - 1; screen = s }))
    else some (0, t)

unfoldable pub erase_line : Terminal → Option (ℕ × Terminal)
erase_line t = erase_all t.idx t.screen >>= λ s. some (0, record t { idx = 0; screen = s })

-- `buffer_size` is a 32-bit `size_t`, so `buffer_size - 1` wraps at 0.
unfoldable pub add_char : ℕ → ℕ → Terminal → Option (ℕ × Terminal)
add_char buffer_size c t =
    if ltb t.idx ((buffer_size + 2 ^ 32 - 1) % 2 ^ 32)
    then (store t.buffer t.idx c >>= λ b.
        kputc c t.screen >>= λ s. some (0, record t { buffer = b; idx = t.idx + 1; screen = s }))
    else some (0, t)

-- `input_poll` behind its first two tests
unfoldable pub put_key : ℕ → ℕ → Terminal → Option (ℕ × Terminal)
put_key buffer_size c t =
    if c == b'\n'
    then end_line t
    else if c == 8 || c == 127
    then erase_last t
    else if c == 0x15
    then erase_line t
    else add_char buffer_size c t

-- `scancode` is the byte that `get_scancode` returns.
unfoldable pub input_poll : ℕ → ℕ → Terminal → Option (ℕ × Terminal)
input_poll buffer_size scancode t = getchar scancode t.shift_state >>= λ key.
    let now = record t { shift_state = key.1 } in
    if key.0 == 0
    then some (0, now)
    else put_key buffer_size (if key.0 == 13 then b'\n' else key.0) now
