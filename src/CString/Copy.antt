-- ===== src/CString/Copy.antt =====
-- What the copying functions write, and where they write past the end.
use anaga.Prelude.{
  ℕ, zero, suc, ◌+◌, ◌-◌, ◌%◌, ◌≤◌, ◌<◌, ◌≡◌, refl, ap, ◌∙◌, inl, inr, none, some, List, [], ◌∷◌,
  ◌++◌, arith, length, take, drop, replicate, ◌==◌, Bool-cases,
}
use anaga.CString.{strcpy, strcat, memset, strncpy, memcpy}
use anaga.CString.Text.{IsCString, text, tail-IsCString}

-- `memset` of `n` bytes inside the object sets those, and leaves the rest.
pub memset_lem :
    (s : List ℕ) (c n : ℕ) → n ≤ length s → memset s c n ≡ some (replicate n (c % 256) ++ drop n s)
unfolding memset replicate
memset_lem s c zero h = refl
memset_lem [] c (suc n) h = absurd (omega arith)
memset_lem (x ∷ s) c (suc n) h = rw (memset_lem s c n (omega arith))

pub memset-overrun : (s : List ℕ) (c n : ℕ) → length s < n → memset s c n ≡ none
unfolding memset
memset-overrun s c zero h = absurd (omega arith)
memset-overrun [] c (suc n) h = refl
memset-overrun (x ∷ s) c (suc n) h = rw (memset-overrun s c n (omega arith))

-- `memcpy` of `n` bytes that both objects hold copies those, and leaves the rest.
pub memcpy_lem :
    (dest src : List ℕ) (n : ℕ)
    → n ≤ length dest
    → n ≤ length src
    → memcpy dest src n ≡ some (take n src ++ drop n dest)
unfolding memcpy
memcpy_lem dest src zero h k = refl
memcpy_lem dest [] (suc n) h k = absurd (omega arith)
memcpy_lem [] (x ∷ src) (suc n) h k = absurd (omega arith)
memcpy_lem (d ∷ dest) (x ∷ src) (suc n) h k = rw (memcpy_lem dest src n (omega arith) (omega arith))

pub memcpy-overrun_dest : (dest src : List ℕ) (n : ℕ) → length dest < n → memcpy dest src n ≡ none
unfolding memcpy
memcpy-overrun_dest dest src zero h = absurd (omega arith)
memcpy-overrun_dest dest [] (suc n) h = refl
memcpy-overrun_dest [] (x ∷ src) (suc n) h = refl
memcpy-overrun_dest (d ∷ dest) (x ∷ src) (suc n) h =
    rw (memcpy-overrun_dest dest src n (omega arith))

pub memcpy-overrun_src : (dest src : List ℕ) (n : ℕ) → length src < n → memcpy dest src n ≡ none
unfolding memcpy
memcpy-overrun_src dest src zero h = absurd (omega arith)
memcpy-overrun_src dest [] (suc n) h = refl
memcpy-overrun_src [] (x ∷ src) (suc n) h = refl
memcpy-overrun_src (d ∷ dest) (x ∷ src) (suc n) h = rw (memcpy-overrun_src dest src n (omega arith))

-- `strcpy` writes the text and its NUL, and leaves the rest.
pub strcpy_lem :
    (dest src : List ℕ)
    → IsCString src
    → length (text src) < length dest
    → strcpy dest src ≡ some (text src ++ 0 ∷ drop (suc (length (text src))) dest)
unfolding strcpy
strcpy_lem dest [] h k = absurd h
strcpy_lem [] (c ∷ src) h k = absurd (omega arith)
strcpy_lem (d ∷ dest) (c ∷ src) h k = elim (Bool-cases (c == 0)) [
  | inl e ↦ rw e (ground arith)
  | inr e ↦ rw e (
      let inner : suc (length (text src)) < suc (length dest) = rw e at k in
      rw (strcpy_lem dest src (tail-IsCString c src h e) (omega arith)))
]

-- `strcat` appends the text of `src` to the text of `dest`, with its NUL.
pub strcat_lem :
    (dest src : List ℕ)
    → IsCString dest
    → IsCString src
    → length (text dest) + length (text src) < length dest
    → strcat dest src
      ≡ some (text dest ++ text src ++ 0 ∷ drop (length (text dest) + suc (length (text src))) dest)
unfolding strcat
strcat_lem [] src h k r = absurd h
strcat_lem (d ∷ dest) src h k r = elim (Bool-cases (d == 0)) [
  | inl e ↦ rw e (
      let room : 0 + length (text src) < suc (length dest) = rw e at r in
      let shift : suc (length (text src)) ≡ 0 + suc (length (text src)) = omega arith in
      strcpy_lem (d ∷ dest) src k (omega arith)
      ∙ ap (λ (m : ℕ). some (text src ++ 0 ∷ drop m (d ∷ dest))) shift)
  | inr e ↦ rw e (
      let room : suc (length (text dest)) + length (text src) < suc (length dest) = rw e at r in
      let shift : suc (length (text dest) + suc (length (text src)))
          ≡ suc (length (text dest)) + suc (length (text src)) =
        omega arith in
      rw (strcat_lem dest src (tail-IsCString d dest h e) k (omega arith))
        (ap (λ (m : ℕ). some (d ∷ (text dest ++ text src ++ 0 ∷ drop m (d ∷ dest)))) shift))
]

-- A text shorter than `n`: `strncpy` writes it and pads with NULs, `n + 1` bytes in all.
pub strncpy_short :
    (dest src : List ℕ) (n : ℕ)
    → IsCString src
    → length (text src) < n
    → n < length dest
    → strncpy dest src n
      ≡ some (text src ++ replicate (suc n - length (text src)) 0 ++ drop (suc n) dest)
unfolding strncpy replicate
strncpy_short dest src zero h k r = absurd (omega arith)
strncpy_short dest [] (suc n) h k r = absurd h
strncpy_short [] (c ∷ src) (suc n) h k r = absurd (omega arith)
strncpy_short (d ∷ dest) (c ∷ src) (suc n) h k r = elim (Bool-cases (c == 0)) [
  | inl e ↦
      rw (e, memset_lem dest 0 (suc n) (omega arith))
        (let z : c ≡ 0 = ground arith in
          let count : suc (suc n) ≡ suc (suc n) - 0 = omega arith in
          rw z (ap (λ (m : ℕ). some (replicate m 0 ++ drop (suc n) dest)) count))
  | inr e ↦ rw e (
      let inner : suc (length (text src)) < suc n = rw e at k in
      rw (strncpy_short dest src n (tail-IsCString c src h e) (omega arith) (omega arith))
        (ap (λ (m : ℕ). some (c ∷ (text src ++ replicate m 0 ++ drop (suc n) dest))) (omega arith)))
]

-- A text of `n` bytes or more: `strncpy` writes its first `n`, and no NUL.
pub strncpy_long :
    (dest src : List ℕ) (n : ℕ)
    → IsCString src
    → n ≤ length (text src)
    → n ≤ length dest
    → strncpy dest src n ≡ some (take n (text src) ++ drop n dest)
unfolding strncpy
strncpy_long dest src zero h k r = refl
strncpy_long dest [] (suc n) h k r = absurd h
strncpy_long [] (c ∷ src) (suc n) h k r = absurd (omega arith)
strncpy_long (d ∷ dest) (c ∷ src) (suc n) h k r = elim (Bool-cases (c == 0)) [
  | inl e ↦ absurd (let q : suc n ≤ 0 = rw e at k in omega arith)
  | inr e ↦ rw e (
      let inner : suc n ≤ suc (length (text src)) = rw e at k in
      rw (strncpy_long dest src n (tail-IsCString c src h e) (omega arith) (omega arith)))
]

-- A text shorter than `n` copied into an object of exactly `n` bytes: `strncpy` writes past its end.
pub strncpy-overrun :
    (dest src : List ℕ) (n : ℕ)
    → IsCString src
    → length (text src) < n
    → length dest ≡ n
    → strncpy dest src n ≡ none
unfolding strncpy
strncpy-overrun dest src zero h k r = absurd (omega arith)
strncpy-overrun dest [] (suc n) h k r = absurd h
strncpy-overrun [] (c ∷ src) (suc n) h k r = refl
strncpy-overrun (d ∷ dest) (c ∷ src) (suc n) h k r = elim (Bool-cases (c == 0)) [
  | inl e ↦ rw (e, memset-overrun dest 0 (suc n) (omega arith))
  | inr e ↦ rw e (
      let inner : suc (length (text src)) < suc n = rw e at k in
      rw (strncpy-overrun dest src n (tail-IsCString c src h e) (omega arith) (omega arith)))
]
