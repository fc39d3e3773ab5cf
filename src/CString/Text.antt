-- ===== src/CString/Text.antt =====
-- The text of a C string: its bytes before the first NUL.
use anaga.Prelude.{
  ℕ, suc, ◌+◌, ◌<◌, ◌≡◌, ap, ◌∙◌, ◌⊎◌, inl, inr, some, List, [], ◌∷◌, String, refl, literal, false,
  arith, length, ◌==◌, if◌then◌else◌, Bool-cases,
}
use anaga.CString.{strlen, strlen_from}

-- A NUL stands in the object.
abbrev pub IsCString : List ℕ → Type 0
IsCString [] = ⊥
IsCString (c ∷ s) = (c ≡ 0) ⊎ IsCString s

pub IsCString-literal : (s : String) → IsCString (literal s)
IsCString-literal String.[] = inl refl
IsCString-literal (String.◌∷◌ c s) = inr (IsCString-literal s)

abbrev pub text : List ℕ → List ℕ
text [] = []
text (c ∷ s) = if c == 0 then [] else c ∷ text s

-- What follows a byte that is not NUL is a C string still.
pub tail-IsCString : (c : ℕ) (s : List ℕ) → IsCString (c ∷ s) → (c == 0) ≡ false → IsCString s
tail-IsCString c s (inl e) h = ground arith
tail-IsCString c s (inr t) h = t

pub length-text-lt : (s : List ℕ) → IsCString s → length (text s) < length s
length-text-lt [] h = absurd h
length-text-lt (c ∷ s) h = elim (Bool-cases (c == 0)) [
  | inl e ↦ rw e (omega arith)
  | inr e ↦ rw e (omega (arith, length-text-lt s (tail-IsCString c s h e)))
]

strlen_from_lem :
    (len : ℕ) (s : List ℕ) → IsCString s → strlen_from len s ≡ some (len + length (text s))
unfolding strlen_from
strlen_from_lem len [] h = absurd h
strlen_from_lem len (c ∷ s) h = elim (Bool-cases (c == 0)) [
  | inl e ↦ rw e (ap some (omega arith))
  | inr e ↦ rw e (strlen_from_lem (suc len) s (tail-IsCString c s h e) ∙ ap some (omega arith))
]

-- `strlen` of a C string is the length of its text.
pub strlen_lem : (s : List ℕ) → IsCString s → strlen s ≡ some (length (text s))
unfolding strlen
strlen_lem s h = strlen_from_lem 0 s h ∙ ap some (omega arith)
