-- ===== src/CString/Nul.antt =====
-- Texts closed by a NUL that the program itself writes.
use anaga.Prelude.{
  ℕ, zero, suc, ◌≤◌, ◌≡◌, ◌≢◌, refl, ap, inl, inr, List, [], ◌∷◌, ◌++◌, arith, length, set, take,
  ◌==◌, Bool-cases, ne→==,
}
use anaga.CString.Text.{IsCString, text, tail-IsCString}

-- No byte is NUL.
abbrev pub NoNul : List ℕ → Type 0
NoNul [] = Unit {0}
NoNul (c ∷ t) = (c ≢ 0) × NoNul t

pub text-NoNul : (s : List ℕ) → NoNul (text s)
text-NoNul [] = tt
text-NoNul (c ∷ s) = elim (Bool-cases (c == 0)) [
  | inl e ↦ rw e tt
  | inr e ↦ rw e ((λ z. ground arith), text-NoNul s)
]

pub take-NoNul : (n : ℕ) (t : List ℕ) → NoNul t → NoNul (take n t)
take-NoNul zero t h = tt
take-NoNul (suc n) [] h = tt
take-NoNul (suc n) (c ∷ t) h = (h.0, take-NoNul n t h.1)

pub IsCString-append_nul : (t r : List ℕ) → IsCString (t ++ 0 ∷ r)
IsCString-append_nul [] r = inl refl
IsCString-append_nul (c ∷ t) r = inr (IsCString-append_nul t r)

pub text-append_nul : (t r : List ℕ) → NoNul t → text (t ++ 0 ∷ r) ≡ t
text-append_nul [] r h = refl
text-append_nul (c ∷ t) r h = rw (ne→== c 0 h.0) (ap (λ l. c ∷ l) (text-append_nul t r h.1))

-- A NUL written behind the text leaves the text.
pub text-set_nul :
    (s : List ℕ) (i : ℕ) → IsCString s → length (text s) ≤ i → text (set s i 0) ≡ text s
text-set_nul [] i h k = refl
text-set_nul (c ∷ s) zero h k = elim (Bool-cases (c == 0)) [
  | inl e ↦ rw e
  | inr e ↦ absurd (let q : suc (length (text s)) ≤ 0 = rw e at k in omega arith)
]
text-set_nul (c ∷ s) (suc i) h k = elim (Bool-cases (c == 0)) [
  | inl e ↦ rw e
  | inr e ↦
      let q : suc (length (text s)) ≤ suc i = rw e at k in
      rw e (ap (λ l. c ∷ l) (text-set_nul s i (tail-IsCString c s h e) (omega arith)))
]

pub IsCString-set_nul : (s : List ℕ) (i : ℕ) → IsCString s → IsCString (set s i 0)
IsCString-set_nul [] i h = h
IsCString-set_nul (c ∷ s) zero h = inl refl
IsCString-set_nul (c ∷ s) (suc i) (inl e) = inl e
IsCString-set_nul (c ∷ s) (suc i) (inr t) = inr (IsCString-set_nul s i t)

pub take_all : (n : ℕ) (t : List ℕ) → length t ≤ n → take n t ≡ t
take_all zero [] h = refl
take_all zero (c ∷ t) h = absurd (omega arith)
take_all (suc n) [] h = refl
take_all (suc n) (c ∷ t) h = ap (λ l. c ∷ l) (take_all n t (omega arith))

pub length-take_le : (n : ℕ) (t : List ℕ) → length (take n t) ≤ n
length-take_le zero t = omega arith
length-take_le (suc n) [] = omega arith
length-take_le (suc n) (c ∷ t) = omega (arith, length-take_le n t)
