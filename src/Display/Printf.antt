-- ===== src/Display/Printf.antt =====
-- display/display.c: `kprintf`.
use anaga.Prelude.{
  ℕ, ◌-◌, ◌^◌, ◌%◌, List, [], ◌∷◌, Option, none, some, ◌==◌, ltb, if◌then◌else◌, ◌>>=◌, ℤ, pos,
  negsuc, literal,
}
use anaga.Display.{
  Screen, kputc, kprint, kprint_num, kprint_hex, kprint_ulong, magnitude, is_negative,
}

-- A variable argument: a 32-bit word, or a `char *`, `none` for NULL.
pub data Arg : Type 0 where
  word : ℕ → Arg
  str : Option (List ℕ) → Arg

-- The word read as an `int` or a `long`.
abbrev pub signed : ℕ → ℤ
signed w = if ltb w (2 ^ 31) then pos w else negsuc (2 ^ 32 - w - 1)

-- `va_arg` of a word; a missing argument, or one of the other kind, is `none`.
unfoldable pub take_word : List Arg → Option (ℕ × List Arg)
take_word [] = none
take_word (word w ∷ args) = some (w, args)
take_word (str s ∷ args) = none

-- `va_arg(args, const char*) ?: "(null)"`
unfoldable pub take_str : List Arg → Option (List ℕ × List Arg)
take_str [] = none
take_str (word w ∷ args) = none
take_str (str none ∷ args) = some (literal "(null)", args)
take_str (str (some s) ∷ args) = some (s, args)

-- `va_arg` of a word, printed by `f`
unfoldable pub print_word :
    (ℕ → Screen → Option Screen) → List Arg → Screen → Option (List Arg × Screen)
print_word f args s = take_word args >>= λ a. f a.0 s >>= λ s'. some (a.1, s')

-- `%ld`; `-v` overflows at the least `long`.
unfoldable pub print_long : ℕ → Screen → Option Screen
print_long w s =
    if w == 2 ^ 31
    then none
    else (if is_negative (signed w) then kputc b'-' s else some s)
      >>= kprint_ulong (magnitude (signed w))

-- The case `l`, on the byte that follows it.
unfoldable pub print_l : ℕ → List Arg → Screen → Option (List Arg × Screen)
print_l c args s =
    if c == b'x'
    then print_word kprint_hex args s
    else if c == b'u'
    then print_word kprint_ulong args s
    else if c == b'd'
    then print_word print_long args s
    else some (args, s)

-- The other cases, on the byte that follows `%`.
unfoldable pub print_one : ℕ → List Arg → Screen → Option (List Arg × Screen)
print_one c args s =
    if c == b'c'
    then print_word (λ w. kputc (w % 2 ^ 8)) args s
    else if c == b's'
    then (take_str args >>= λ a. kprint (some a.0) s >>= λ s'. some (a.1, s'))
    else if c == b'd'
    then print_word (λ w. kprint_num (signed w)) args s
    else if c == b'x'
    then print_word kprint_hex args s
    else if c == b'%'
    then (kputc b'%' s >>= λ s'. some (args, s'))
    else (kputc b'%' s >>= kputc c >>= λ s'. some (args, s'))

-- After `%l` the pointer moves on before the byte is tested, so at `%l` and a NUL the loop goes on
-- behind the NUL.
unfoldable mutual
  pub kprintf : List ℕ → List Arg → Screen → Option Screen
  kprintf [] args s = none
  kprintf (c ∷ fmt) args s =
      let plain = kputc c s >>= kprintf fmt args in
      let conversion = kprintf_percent fmt args s in
      if c == 0 then some s else if c == b'%' then conversion else plain

  -- The rest of the loop's body behind a `%`.
  pub kprintf_percent : List ℕ → List Arg → Screen → Option Screen
  kprintf_percent [] args s = none
  kprintf_percent (c ∷ fmt) args s =
      let long = kprintf_long fmt args s in
      let one = print_one c args s >>= λ r. kprintf fmt r.0 r.1 in
      if c == 0 then some s else if c == b'l' then long else one

  pub kprintf_long : List ℕ → List Arg → Screen → Option Screen
  kprintf_long [] args s = none
  kprintf_long (c ∷ fmt) args s = print_l c args s >>= λ r. kprintf fmt r.0 r.1
