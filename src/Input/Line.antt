-- ===== src/Input/Line.antt =====
-- The line that is typed, and what each key of `put_key` does to it.
use anaga.Prelude.{
  ℕ, zero, suc, ◌+◌, ◌-◌, ◌%◌, ◌^◌, ◌≤◌, ◌<◌, ◌≡◌, ◌≢◌, refl, sym, subst, inl, inr, List, [], ◌∷◌,
  ◌++◌, Option, some, true, false, ◌||◌, arith, length, set, take, length-set, length-take, store,
  store_lem, ◌==◌, ltb, if◌then◌else◌, ◌>>=◌, Returns, Returns-bind, Bool-cases,
}
use anaga.CString.Text.{text}
use anaga.CString.Nul.{NoNul, take-NoNul}
use anaga.Display.{Screen, kputc}
use anaga.Display.Safety
use anaga.Display.Safety.{kputc-IsValid}
use anaga.Input.{Terminal, erase, erase_all, end_line, erase_last, erase_line, add_char, put_key}
use anaga.Input.Arrays.{take-take, take-set_snoc, text-close, NoNul-snoc}

-- What has been typed of the line.
abbrev pub line : Terminal → List ℕ
line t = take t.idx t.buffer

pub record IsReady (size : ℕ) (t : Terminal) : Type 0 where
  pub screen_valid : Safety.IsValid t.screen
  pub inside : t.idx < size
  pub room : size ≤ length t.buffer
  pub no_nul : NoNul (line t)

-- The line after a key, as a user sees it.
unfoldable pub edit : ℕ → ℕ → List ℕ → List ℕ
edit size c l =
    if c == b'\n'
    then []
    else if c == 8 || c == 127
    then take (length l - 1) l
    else if c == 0x15
    then []
    else if ltb (length l) (size - 1)
    then l ++ c ∷ []
    else l

-- `put_key` edits the line, and a new line closes it with a NUL.
pub record Keyed (size c : ℕ) (t : Terminal) (r : ℕ × Terminal) : Type 0 where
  pub ready : IsReady size r.1
  pub result : r.0 ≡ (if c == b'\n' then 1 else 0)
  pub edited : line r.1 ≡ edit size c (line t)
  pub closed : c ≡ b'\n' → text r.1.buffer ≡ line t

Returns-kputc :
    {B : Type 0} (Q : B → Type 0) (c : ℕ) (s : Screen) (f : Screen → Option B)
    → Safety.IsValid s
    → ((s' : Screen) → Safety.IsValid s' → Returns Q (f s'))
    → Returns Q (kputc c s >>= f)
Returns-kputc Q c s f h k =
    Returns-bind (λ s. Safety.IsValid s) Q (kputc c s) f (kputc-IsValid c s h) k

erase-IsValid : (s : Screen) → Safety.IsValid s → Returns (λ s. Safety.IsValid s) (erase s)
unfolding erase
erase-IsValid s h =
    Returns-bind (λ s. Safety.IsValid s) (λ s. Safety.IsValid s) (kputc 8 s >>= kputc b' ')
      (kputc 8)
      (Returns-kputc (λ s. Safety.IsValid s) 8 s (kputc b' ') h (λ s' h'. kputc-IsValid b' ' s' h'))
      (λ s' h'. kputc-IsValid 8 s' h')

erase_all-IsValid :
    (n : ℕ) (s : Screen) → Safety.IsValid s → Returns (λ s. Safety.IsValid s) (erase_all n s)
unfolding erase_all
erase_all-IsValid zero s h = h
erase_all-IsValid (suc n) s h =
    Returns-bind (λ s. Safety.IsValid s) (λ s. Safety.IsValid s) (erase s) (erase_all n)
      (erase-IsValid s h) (λ s' h'. erase_all-IsValid n s' h')

end_line-Keyed :
    (size : ℕ) (t : Terminal) → IsReady size t → Returns (Keyed size b'\n' t) (end_line t)
unfolding end_line edit
end_line-Keyed size t h =
    let inside : t.idx < length t.buffer = omega (arith, h.inside, h.room) in
    Returns-kputc (Keyed size b'\n' t) b'\n' t.screen
      (λ s. store t.buffer t.idx 0 >>= λ b. some (1, record t { buffer = b; idx = 0; screen = s }))
      h.screen_valid
      (λ s v. rw (store_lem t.buffer t.idx 0 inside) (record {
        ready = record {
          screen_valid = v;
          inside = omega (arith, h.inside);
          room = omega (arith, h.room, length-set t.buffer t.idx 0);
          no_nul = tt;
        };
        result = refl;
        edited = refl;
        closed = λ e. text-close t.idx t.buffer inside h.no_nul;
      }))

erase_last-Keyed :
    (size c : ℕ) (t : Terminal)
    → IsReady size t
    → (c == 8 || c == 127) ≡ true
    → Returns (Keyed size c t) (erase_last t)
unfolding erase_last edit
erase_last-Keyed size c t h key =
    let nl : (c == b'\n') ≡ false = ground arith in
    let n : length (line t) ≡ t.idx =
      length-take t.idx t.buffer (omega (arith, h.inside, h.room)) in
    let shorter : take (t.idx - 1) t.buffer ≡ take (length (line t) - 1) (line t) =
      rw n (sym (take-take (t.idx - 1) t.idx t.buffer (omega arith))) in
    elim (Bool-cases (ltb 0 t.idx)) [
      | inl pos ↦ rw pos (
          Returns-bind (λ s. Safety.IsValid s) (Keyed size c t) (erase t.screen)
            (λ s. some (0, record t { idx = t.idx - 1; screen = s }))
            (erase-IsValid t.screen h.screen_valid)
            (λ s v. record {
              ready = record {
                screen_valid = v;
                inside = omega (arith, h.inside);
                room = h.room;
                no_nul = rw shorter (take-NoNul (length (line t) - 1) (line t) h.no_nul);
              };
              result = rw nl;
              edited = rw (nl, key) shorter;
              closed = λ e. ground arith;
            }))
      | inr empty ↦
          let none_typed : t.idx - 1 ≡ t.idx = ground arith in
          rw empty (record {
            ready = h;
            result = rw nl;
            edited =
                rw (nl, key)
                  (subst (λ i. take i t.buffer ≡ take (length (line t) - 1) (line t)) none_typed
                    shorter);
            closed = λ e. ground arith;
          })
    ]

erase_line-Keyed :
    (size : ℕ) (t : Terminal) → IsReady size t → Returns (Keyed size 0x15 t) (erase_line t)
unfolding erase_line edit
erase_line-Keyed size t h =
    Returns-bind (λ s. Safety.IsValid s) (Keyed size 0x15 t) (erase_all t.idx t.screen)
      (λ s. some (0, record t { idx = 0; screen = s }))
      (erase_all-IsValid t.idx t.screen h.screen_valid)
      (λ s v. record {
        ready = record {
          screen_valid = v;
          inside = omega (arith, h.inside);
          room = h.room;
          no_nul = tt;
        };
        result = refl;
        edited = refl;
        closed = λ e. ground arith;
      })

add_char-Keyed :
    (size c : ℕ) (t : Terminal)
    → IsReady size t
    → size < 2 ^ 32
    → c ≢ 0
    → (c == b'\n') ≡ false
    → (c == 8 || c == 127) ≡ false
    → (c == 0x15) ≡ false
    → Returns (Keyed size c t) (add_char size c t)
unfolding add_char edit
add_char-Keyed size c t h small ne nl del kill =
    let inside : t.idx < length t.buffer = omega (arith, h.inside, h.room) in
    let n : length (line t) ≡ t.idx = length-take t.idx t.buffer (omega arith) in
    let last : (size + 2 ^ 32 - 1) % 2 ^ 32 ≡ size - 1 = omega (arith, h.inside) in
    let one : t.idx + 1 ≡ suc t.idx = omega arith in
    let snoc : take (t.idx + 1) (set t.buffer t.idx c) ≡ line t ++ c ∷ [] =
      subst (λ i. take i (set t.buffer t.idx c) ≡ line t ++ c ∷ []) (sym one)
        (take-set_snoc t.idx t.buffer c inside) in
    elim (Bool-cases (ltb t.idx (size - 1))) [
      | inl room ↦
          rw (last, room, store_lem t.buffer t.idx c inside)
            (Returns-kputc (Keyed size c t) c t.screen
              (λ s.
                some (0, record t { buffer = set t.buffer t.idx c; idx = t.idx + 1; screen = s }))
              h.screen_valid
              (λ s v. record {
                ready = record {
                  screen_valid = v;
                  inside = ground arith;
                  room = omega (arith, h.room, length-set t.buffer t.idx c);
                  no_nul = rw snoc (NoNul-snoc (line t) c h.no_nul ne);
                };
                result = rw nl;
                edited = rw (nl, del, kill, n, room) snoc;
                closed = λ e. ground arith;
              }))
      | inr full ↦
          rw (last, full)
            (record {
              ready = h;
              result = rw nl;
              edited = rw (nl, del, kill, n, full);
              closed = λ e. ground arith;
            })
    ]

-- `input_poll` behind its test for no key: the key `c` edits the line.
pub put_key-Keyed :
    (size c : ℕ) (t : Terminal)
    → IsReady size t
    → size < 2 ^ 32
    → c ≢ 0
    → Returns (Keyed size c t) (put_key size c t)
unfolding put_key
put_key-Keyed size c t h small ne = elim (Bool-cases (c == b'\n')) [
  | inl nl ↦
      let e : c ≡ b'\n' = ground arith in
      rw nl (subst (λ k. Returns (Keyed size k t) (end_line t)) (sym e) (end_line-Keyed size t h))
  | inr nl ↦ elim (Bool-cases (c == 8 || c == 127)) [
    | inl del ↦ rw (nl, del) (erase_last-Keyed size c t h del)
    | inr del ↦ elim (Bool-cases (c == 0x15)) [
      | inl kill ↦
          let e : c ≡ 0x15 = ground arith in
          rw (nl, del, kill)
            (subst (λ k. Returns (Keyed size k t) (erase_line t)) (sym e)
              (erase_line-Keyed size t h))
      | inr kill ↦ rw (nl, del, kill) (add_char-Keyed size c t h small ne nl del kill)
    ]
  ]
]
