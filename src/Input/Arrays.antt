-- ===== src/Input/Arrays.antt =====
-- Writes and cuts at the end of what is typed.
use anaga.Prelude.{
  ℕ, zero, suc, ◌≤◌, ◌<◌, ◌≡◌, ◌≢◌, refl, ap, List, [], ◌∷◌, ◌++◌, false, arith, length, set, take,
  ◌==◌,
}
use anaga.CString.Text.{text}
use anaga.CString.Nul.{NoNul}

pub take-take : (m n : ℕ) (xs : List ℕ) → m ≤ n → take m (take n xs) ≡ take m xs
take-take zero n xs h = refl
take-take (suc m) zero xs h = absurd (omega arith)
take-take (suc m) (suc n) [] h = refl
take-take (suc m) (suc n) (x ∷ xs) h = ap (λ l. x ∷ l) (take-take m n xs (omega arith))

pub take-set_snoc :
    (i : ℕ) (xs : List ℕ) (v : ℕ) → i < length xs → take (suc i) (set xs i v) ≡ take i xs ++ v ∷ []
take-set_snoc i [] v h = elim h [ ]
take-set_snoc zero (x ∷ xs) v h = refl
take-set_snoc (suc i) (x ∷ xs) v h = ap (λ l. x ∷ l) (take-set_snoc i xs v (omega arith))

pub text-close :
    (i : ℕ) (xs : List ℕ) → i < length xs → NoNul (take i xs) → text (set xs i 0) ≡ take i xs
text-close i [] h k = elim h [ ]
text-close zero (x ∷ xs) h k = refl
text-close (suc i) (x ∷ xs) h k =
    let e : (x == 0) ≡ false = (let q = k.0 in ground arith) in
    rw e (ap (λ l. x ∷ l) (text-close i xs (omega arith) k.1))

pub NoNul-snoc : (xs : List ℕ) (c : ℕ) → NoNul xs → c ≢ 0 → NoNul (xs ++ c ∷ [])
NoNul-snoc [] c h k = (k, tt)
NoNul-snoc (x ∷ xs) c h k = (h.0, NoNul-snoc xs c h.1 k)
