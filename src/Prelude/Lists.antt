-- ===== src/Prelude/Lists.antt =====
-- C arrays: lists measured and indexed by native numbers.
use Prim.Native.Nat.{ℕ, zero, suc, ◌+◌, ◌-◌, ◌≤◌, ◌<◌}
use mathlib.Core.Path.{◌≡◌, refl, ap, sym, subst}
use mathlib.Core.Logic.{◌≢◌, ◌⊎◌, inl, inr}
use mathlib.Core.List.{List, [], ◌∷◌, ◌++◌}
use mathlib.Core.Option.{Option, none, some}
use native.Mathlib.Omega.{arith}

module _ {ℓ} {A : Type ℓ} where
  abbrev pub length : List A → ℕ
  length [] = 0
  length (x ∷ xs) = suc (length xs)

  abbrev pub get_elem? : List A → ℕ → Option A
  get_elem? [] i = none
  get_elem? (x ∷ xs) zero = some x
  get_elem? (x ∷ xs) (suc i) = get_elem? xs i

  -- A write out of bounds changes nothing: `store` of `Partial` faults there.
  abbrev pub set : List A → ℕ → A → List A
  set [] i v = []
  set (x ∷ xs) zero v = v ∷ xs
  set (x ∷ xs) (suc i) v = x ∷ set xs i v

  abbrev pub take : ℕ → List A → List A
  take zero xs = []
  take (suc n) [] = []
  take (suc n) (x ∷ xs) = x ∷ take n xs

  abbrev pub drop : ℕ → List A → List A
  drop zero xs = xs
  drop (suc n) [] = []
  drop (suc n) (x ∷ xs) = drop n xs

  -- Not an abbreviation: the arrays of this program are long.
  unfoldable pub replicate : ℕ → A → List A
  replicate zero a = []
  replicate (suc n) a = a ∷ replicate n a

  pub length-append : (xs ys : List A) → length (xs ++ ys) ≡ length xs + length ys
  length-append [] ys = omega arith
  length-append (x ∷ xs) ys = omega (arith, length-append xs ys)

  pub length-set : (xs : List A) (i : ℕ) (v : A) → length (set xs i v) ≡ length xs
  length-set [] i v = refl
  length-set (x ∷ xs) zero v = refl
  length-set (x ∷ xs) (suc i) v = ap suc (length-set xs i v)

  pub length-replicate : (n : ℕ) (a : A) → length (replicate n a) ≡ n
  unfolding replicate
  length-replicate zero a = refl
  length-replicate (suc n) a = ap suc (length-replicate n a)

  pub length-take : (n : ℕ) (xs : List A) → n ≤ length xs → length (take n xs) ≡ n
  length-take zero xs h = refl
  length-take (suc n) [] h = absurd (omega arith)
  length-take (suc n) (x ∷ xs) h = ap suc (length-take n xs (omega arith))

  pub length-drop : (n : ℕ) (xs : List A) → length (drop n xs) ≡ length xs - n
  length-drop zero xs = omega arith
  length-drop (suc n) [] = omega arith
  length-drop (suc n) (x ∷ xs) = omega (arith, length-drop n xs)

  pub get_elem?-set_self :
      (xs : List A) (i : ℕ) (v : A) → i < length xs → get_elem? (set xs i v) i ≡ some v
  get_elem?-set_self [] i v h = elim h [ ]
  get_elem?-set_self (x ∷ xs) zero v h = refl
  get_elem?-set_self (x ∷ xs) (suc i) v h = get_elem?-set_self xs i v (omega arith)

  pub get_elem?-set_ne :
      (xs : List A) {i j : ℕ} (v : A) → i ≢ j → get_elem? (set xs i v) j ≡ get_elem? xs j
  get_elem?-set_ne [] v h = refl
  get_elem?-set_ne (x ∷ xs) {i = zero} {j = zero} v h = absurd (h refl)
  get_elem?-set_ne (x ∷ xs) {i = zero} {j = suc j} v h = refl
  get_elem?-set_ne (x ∷ xs) {i = suc i} {j = zero} v h = refl
  get_elem?-set_ne (x ∷ xs) {i = suc i} {j = suc j} v h = get_elem?-set_ne xs v (λ e. h (ap suc e))

  -- What stands in an array after a write: the value written, or what stood there.
  pub get_elem?-set_cases :
      (xs : List A) (i j : ℕ) (v : A) {x : A}
      → get_elem? (set xs i v) j ≡ some x
      → ((j ≡ i) × (x ≡ v)) ⊎ ((j ≢ i) × (get_elem? xs j ≡ some x))
  get_elem?-set_cases [] i j v h = cc
  get_elem?-set_cases (y ∷ ys) zero zero v h = ground arith
  get_elem?-set_cases (y ∷ ys) zero (suc j) v h = ground arith
  get_elem?-set_cases (y ∷ ys) (suc i) zero v h = ground arith
  get_elem?-set_cases (y ∷ ys) (suc i) (suc j) v h = ground (arith, get_elem?-set_cases ys i j v h)

  pub get_elem?_of_lt : (xs : List A) (i : ℕ) → i < length xs → (x : A) × (get_elem? xs i ≡ some x)
  get_elem?_of_lt [] i h = elim h [ ]
  get_elem?_of_lt (x ∷ xs) zero h = (x, refl)
  get_elem?_of_lt (x ∷ xs) (suc i) h = get_elem?_of_lt xs i (omega arith)

  pub get_elem?-lt : (xs : List A) (i : ℕ) {x : A} → get_elem? xs i ≡ some x → i < length xs
  get_elem?-lt [] i h = cc
  get_elem?-lt (y ∷ ys) zero h = omega arith
  get_elem?-lt (y ∷ ys) (suc i) h = omega (arith, get_elem?-lt ys i h)

  pub get_elem?-replicate : (n i : ℕ) (a : A) → i < n → get_elem? (replicate n a) i ≡ some a
  unfolding replicate
  get_elem?-replicate zero i a h = elim h [ ]
  get_elem?-replicate (suc n) zero a h = refl
  get_elem?-replicate (suc n) (suc i) a h = get_elem?-replicate n i a (omega arith)

  pub take-append-drop : (n : ℕ) (xs : List A) → take n xs ++ drop n xs ≡ xs
  take-append-drop zero xs = refl
  take-append-drop (suc n) [] = refl
  take-append-drop (suc n) (x ∷ xs) = rw (take-append-drop n xs)

  pub take-length-append : (xs ys : List A) → take (length xs) (xs ++ ys) ≡ xs
  take-length-append [] ys = refl
  take-length-append (x ∷ xs) ys = ap (λ l. x ∷ l) (take-length-append xs ys)

  pub drop-length-append : (xs ys : List A) → drop (length xs) (xs ++ ys) ≡ ys
  drop-length-append [] ys = refl
  drop-length-append (x ∷ xs) ys = drop-length-append xs ys

  -- What stands behind the first part.
  pub drop-behind :
      (before rest : List A) (q r : ℕ)
      → r ≡ length before + q
      → drop r (before ++ rest) ≡ drop q rest
  drop-behind [] rest q r e =
      let same : r ≡ q = omega arith in subst (λ k. drop k rest ≡ drop q rest) (sym same) refl
  drop-behind (x ∷ before) rest q zero e = absurd (omega arith)
  drop-behind (x ∷ before) rest q (suc r) e = drop-behind before rest q r (omega arith)

  pub take-front : (this rest : List A) (n : ℕ) → length this ≡ n → take n (this ++ rest) ≡ this
  take-front this rest n k =
      subst (λ m. take m (this ++ rest) ≡ this) k (take-length-append this rest)

  take-nil : (c : ℕ) → take c [] ≡ []
  take-nil zero = refl
  take-nil (suc c) = refl

  -- The first parts of a list of parts.
  pub take_add : (p c : ℕ) (l : List A) → take (p + c) l ≡ take p l ++ take c (drop p l)
  take_add zero c l = let e : 0 + c ≡ c = omega arith in rw e
  take_add (suc p) c [] = let e : suc p + c ≡ suc (p + c) = omega arith in rw e (sym (take-nil c))
  take_add (suc p) c (x ∷ l) =
      let e : suc p + c ≡ suc (p + c) = omega arith in rw e (ap (λ r. x ∷ r) (take_add p c l))

-- Every element, with its index, satisfies `P`.
abbrev pub AllAt {ℓ κ} : {A : Type ℓ} → (ℕ → A → Type κ) → List A → Type (ℓ ⊔ κ)
AllAt {A} P xs = (i : ℕ) (x : A) → get_elem? xs i ≡ some x → P i x

pub AllAt-set {ℓ κ} :
    {A : Type ℓ} (P : ℕ → A → Type κ) (xs : List A) (i : ℕ) (v : A)
    → AllAt P xs
    → P i v
    → AllAt P (set xs i v)
AllAt-set P xs i v all pv j x h = elim (get_elem?-set_cases xs i j v h) [
  | inl e ↦ rw (e.0, e.1) pv
  | inr e ↦ all j x e.1
]
