-- ===== src/Command/Parse.antt =====
-- `parse`: the first word of a command line, and its argument.
use anaga.Prelude.{
  ℕ, ◌≡◌, refl, ap, inl, inr, List, [], ◌∷◌, Option, none, some, false, arith, ◌==◌, if◌then◌else◌,
  Bool-cases, Returns, Returns-bind,
}
use anaga.CString.Text.{IsCString, text, tail-IsCString}
use anaga.Command.{skip_spaces, parse}

-- A line up to its first space.
pub first_word : List ℕ → List ℕ
first_word [] = []
first_word (c ∷ t) = if c == b' ' then [] else c ∷ first_word t

-- What follows the spaces at the front, unless nothing does.
pub after_spaces : List ℕ → Option (List ℕ)
after_spaces [] = none
after_spaces (c ∷ t) = if c == b' ' then after_spaces t else some (c ∷ t)

-- What follows the first word and the spaces behind it.
pub argument : List ℕ → Option (List ℕ)
argument [] = none
argument (c ∷ t) = if c == b' ' then after_spaces t else argument t

abbrev pub text_of : Option (List ℕ) → Option (List ℕ)
text_of none = none
text_of (some a) = some (text a)

skip_spaces_lem :
    (s : List ℕ) → IsCString s → Returns (λ a. text_of a ≡ after_spaces (text s)) (skip_spaces s)
unfolding skip_spaces after_spaces
skip_spaces_lem [] h = h
skip_spaces_lem (c ∷ s) h = elim (Bool-cases (c == b' ')) [
  | inl sp ↦
      let n : (c == 0) ≡ false = ground arith in
      rw (sp, n, sp) (skip_spaces_lem s (tail-IsCString c s h n))
  | inr w ↦ elim (Bool-cases (c == 0)) [ inl e ↦ rw (w, e) refl | inr e ↦ rw (w, e, w) (rw e refl) ]
]

pub record Parsed (s : List ℕ) (r : List ℕ × Option (List ℕ)) : Type 0 where
  pub name : text r.0 ≡ first_word (text s)
  pub args : text_of r.1 ≡ argument (text s)

-- `parse` of a C string returns: the name is its text up to the first space, and the argument is
-- what follows the spaces behind it, or NULL where nothing does.
pub parse_lem : (s : List ℕ) → IsCString s → Returns (Parsed s) (parse s)
unfolding parse first_word argument
parse_lem [] h = h
parse_lem (c ∷ s) h = elim (Bool-cases (c == 0)) [
  | inl e ↦ rw e (record { name = rw e refl; args = rw e refl })
  | inr e ↦ elim (Bool-cases (c == b' ')) [
    | inl sp ↦
        rw (e, sp)
          (Returns-bind (λ a. text_of a ≡ after_spaces (text s)) (Parsed (c ∷ s)) (skip_spaces s)
            (λ args. some (0 ∷ s, args)) (skip_spaces_lem s (tail-IsCString c s h e))
            (λ a k. record { name = rw (e, sp) refl; args = rw (e, sp) k }))
    | inr w ↦
        rw (e, w)
          (Returns-bind (Parsed s) (Parsed (c ∷ s)) (parse s) (λ r. some (c ∷ r.0, r.1))
            (parse_lem s (tail-IsCString c s h e))
            (λ r k. record { name = rw (e, w) (ap (λ l. c ∷ l) k.name); args = rw (e, w) k.args }))
  ]
]
