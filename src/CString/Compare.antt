-- ===== src/CString/Compare.antt =====
-- `strcmp`, `strncmp` and `starts_with` compare texts.
use anaga.Prelude.{
  ℕ, zero, suc, ◌≡◌, refl, ap, ◌∙◌, ◌↔◌, inl, inr, some, List, [], ◌∷◌, Bool, true, false, arith,
  take, ◌==◌, if◌then◌else◌, Bool-cases,
}
use anaga.CString.{Diff, equal, less, more, byte_diff, strcmp, strncmp, starts_with}
use anaga.CString.Text.{IsCString, text, tail-IsCString}

-- Lexicographic comparison of texts by their first difference; a proper prefix comes first.
pub lex : List ℕ → List ℕ → Diff
lex [] [] = equal
lex [] (b ∷ t) = less b
lex (a ∷ s) [] = more a
lex (a ∷ s) (b ∷ t) = let rest = lex s t in if a == b then rest else byte_diff a b

-- `strcmp` of two C strings compares their texts lexicographically, and reads no byte beyond them.
pub strcmp_lem :
    (s1 s2 : List ℕ) → IsCString s1 → IsCString s2 → strcmp s1 s2 ≡ some (lex (text s1) (text s2))
unfolding strcmp lex byte_diff
strcmp_lem [] s2 h k = absurd h
strcmp_lem (a ∷ s1) [] h k = absurd k
strcmp_lem (a ∷ s1) (b ∷ s2) h k = elim (Bool-cases (a == 0)) [
  | inl p ↦ elim (Bool-cases (b == 0)) [
    | inl q ↦ rw (p, q) (ground arith)
    | inr q ↦ rw (p, q) (ground arith)
  ]
  | inr p ↦ elim (Bool-cases (b == 0)) [
    | inl q ↦ rw (p, q) (ground arith)
    | inr q ↦
        rw (p, q)
          (ground (arith, strcmp_lem s1 s2 (tail-IsCString a s1 h p) (tail-IsCString b s2 k q)))
  ]
]

pub lex_self : (s : List ℕ) → lex s s ≡ equal
unfolding lex byte_diff
lex_self [] = refl
lex_self (a ∷ s) = ground (arith, lex_self s)

pub eq_of_lex : (s t : List ℕ) → lex s t ≡ equal → s ≡ t
unfolding lex byte_diff
eq_of_lex [] [] h = refl
eq_of_lex [] (b ∷ t) h = cc
eq_of_lex (a ∷ s) [] h = cc
eq_of_lex (a ∷ s) (b ∷ t) h = ground (arith, eq_of_lex s t)

-- `strcmp` returns 0 exactly when the two texts are the same.
pub strcmp-eq_iff :
    (s1 s2 : List ℕ)
    → IsCString s1
    → IsCString s2
    → (strcmp s1 s2 ≡ some equal) ↔ (text s1 ≡ text s2)
strcmp-eq_iff s1 s2 h k = (
  λ e. eq_of_lex (text s1) (text s2) (cc (strcmp_lem s1 s2 h k)),
  λ e. strcmp_lem s1 s2 h k ∙ rw e (ap some (lex_self (text s2))),
)

-- `strncmp` with a bound compares the first bytes of the texts.
pub strncmp_lem :
    (n : ℕ) (s1 s2 : List ℕ)
    → IsCString s1
    → IsCString s2
    → strncmp n s1 s2 ≡ some (lex (take n (text s1)) (take n (text s2)))
unfolding strncmp lex byte_diff
strncmp_lem zero s1 s2 h k = refl
strncmp_lem (suc n) [] s2 h k = absurd h
strncmp_lem (suc n) (a ∷ s1) [] h k = absurd k
strncmp_lem (suc n) (a ∷ s1) (b ∷ s2) h k = elim (Bool-cases (a == 0)) [
  | inl p ↦ elim (Bool-cases (b == 0)) [
    | inl q ↦ rw (p, q) (ground arith)
    | inr q ↦ rw (p, q) (ground arith)
  ]
  | inr p ↦ elim (Bool-cases (b == 0)) [
    | inl q ↦ rw (p, q) (ground arith)
    | inr q ↦
        rw (p, q)
          (ground (arith, strncmp_lem n s1 s2 (tail-IsCString a s1 h p) (tail-IsCString b s2 k q)))
  ]
]

pub is_prefix : List ℕ → List ℕ → Bool
is_prefix [] s = true
is_prefix (p ∷ ps) [] = false
is_prefix (p ∷ ps) (c ∷ s) = let rest = is_prefix ps s in if c == p then rest else false

-- `starts_with` decides whether one text is a prefix of the other.
pub starts_with_lem :
    (str prefix : List ℕ)
    → IsCString str
    → IsCString prefix
    → starts_with str prefix ≡ some (is_prefix (text prefix) (text str))
unfolding starts_with is_prefix
starts_with_lem str [] h k = absurd k
starts_with_lem [] (p ∷ prefix) h k = absurd h
starts_with_lem (c ∷ str) (p ∷ prefix) h k = elim (Bool-cases (p == 0)) [
  | inl e ↦ rw e
  | inr e ↦ elim (Bool-cases (c == 0)) [
    | inl q ↦ rw (e, q) (ground arith)
    | inr q ↦
        rw (e, q)
          (ground (
            arith,
            starts_with_lem str prefix (tail-IsCString c str h q) (tail-IsCString p prefix k e),
          ))
  ]
]
