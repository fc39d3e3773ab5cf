-- ===== src/Syscall/Dispatch.antt =====
-- `syscall_handler` by the number of the call.
use anaga.Prelude.{
  ℕ, zero, suc, ◌-◌, ◌^◌, ◌<◌, ◌≡◌, refl, ap, inl, inr, List, [], ◌∷◌, some, arith, ◌==◌, take,
  ◌>>=◌, Bool-cases, ◌||◌, ◌≢◌, false, ltb, if◌then◌else◌, Returns-elim, true, leb,
}
use anaga.CString.Text.{IsCString, text, tail-IsCString}
use anaga.Display.{Screen, kputc, put_all}
use anaga.Display.Safety
use anaga.Display.Safety.{kputc-IsValid, put_all-IsValid}
use anaga.Syscall.{
  Regs, resumes, write_bytes, sys_read, sys_open, sys_close, sys_getpid, sys_write, call_entry,
  syscall_handler,
}
use mathlib.Core.Path.{fun_ext}

-- The bytes before the first NUL and before `count`.
write_bytes_lem :
    (count : ℕ) (buf : List ℕ) (s : Screen)
    → IsCString buf
    → write_bytes count buf s ≡ put_all (take count (text buf)) s
unfolding write_bytes put_all
write_bytes_lem zero buf s h = refl
write_bytes_lem (suc count) [] s h = absurd h
write_bytes_lem (suc count) (c ∷ buf) s h = elim (Bool-cases (c == 0)) [
  | inl e ↦ rw e
  | inr e ↦ rw e (
      ap (λ k. kputc c s >>= k)
        (fun_ext (λ s'. write_bytes_lem count buf s' (tail-IsCString c buf h e))))
]

-- What a call other than `exit` and `write` returns, by its number.
abbrev pub fixed_result : ℕ → ℕ
fixed_result n = if n == 4 then 0 else if n == 5 then 1 else 2 ^ 32 - 1

-- Every call but `exit` and `write` only sets `eax`: to 0 for `close`, to 1 for `getpid`, and to -1
-- for `read`, for `open` and for every number that is not in the table.
pub syscall_handler-fixed :
    (memory : ℕ → List ℕ) (r : Regs) (s : Screen)
    → r.eax ≢ 0
    → r.eax ≢ 2
    → syscall_handler memory r s ≡ some (resumes (record r { eax = fixed_result r.eax }) s)
unfolding syscall_handler call_entry sys_read sys_open sys_close sys_getpid
syscall_handler-fixed memory r s exit write = ground arith

-- `write` of `count` bytes from a C string to descriptor 1 or 2 prints its bytes before the first
-- NUL and before `count`, and sets `eax` to `count`, whatever it has printed.
pub syscall_handler-write :
    (memory : ℕ → List ℕ) (r : Regs) (s : Screen)
    → r.eax ≡ 2
    → (r.ebx == 1 || r.ebx == 2) ≡ true
    → r.edx < 2 ^ 31
    → IsCString (memory r.ecx)
    → Safety.IsValid s
    → (s' : Screen) × (put_all (take r.edx (text (memory r.ecx))) s ≡ some s')
      × Safety.IsValid s'
      × (syscall_handler memory r s ≡ some (resumes (record r { eax = r.edx }) s'))
unfolding syscall_handler call_entry sys_write
syscall_handler-write memory r s e fd count h v =
    let (s', printed, valid) =
      Returns-elim (λ s. Safety.IsValid s) (put_all (take r.edx (text (memory r.ecx))) s)
        (put_all-IsValid (take r.edx (text (memory r.ecx))) s v) in
    let known : leb 6 r.eax ≡ false = ground arith in
    let not_0 : (r.eax == 0) ≡ false = ground arith in
    let not_1 : (r.eax == 1) ≡ false = ground arith in
    let is_2 : (r.eax == 2) ≡ true = ground arith in
    let positive : ltb r.edx (2 ^ 31) ≡ true = ground arith in
    (
      s',
      printed,
      valid,
      rw
          (
            known,
            not_0,
            not_1,
            is_2,
            fd,
            positive,
            write_bytes_lem r.edx (memory r.ecx) s h,
            printed,
          )
          refl,
    )
