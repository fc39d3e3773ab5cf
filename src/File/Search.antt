-- ===== src/File/Search.antt =====
-- The search for the first free slot of a table.
use anaga.Prelude.{
  ℕ, zero, suc, ◌+◌, ◌≤◌, ◌<◌, ◌≡◌, refl, inl, inr, some, List, [], ◌∷◌, Bool, true, false, arith,
  length, get_elem?, Bool-cases, Returns, Returns-mono, ℤ, pos, negsuc,
}
use anaga.File.{find_first}

-- The result of a search for the first element of `xs` that passes the test, from index `i` on.
abbrev pub First : {A : Type 0} → (A → Bool) → ℕ → ℕ → List A → ℤ → Type 0
First {A} test n i xs (pos j) =
    (k : ℕ) × (x : A) × (j ≡ i + k)
    × (k < n)
    × (get_elem? xs k ≡ some x)
    × (test x ≡ true)
    × ((m : ℕ) (y : A) → m < k → get_elem? xs m ≡ some y → test y ≡ false)
First {A} test n i xs (negsuc e) =
    (e ≡ 0) × ((k : ℕ) (x : A) → k < n → get_elem? xs k ≡ some x → test x ≡ false)

-- An element that fails the test is passed over.
pub fails_after :
    {A : Type 0} (test : A → Bool) (n : ℕ) (x : A) (xs : List A)
    → test x ≡ false
    → ((m : ℕ) (y : A) → m < n → get_elem? xs m ≡ some y → test y ≡ false)
    → (m : ℕ) (y : A) → m < suc n
    → get_elem? (x ∷ xs) m ≡ some y
    → test y ≡ false
fails_after test n x xs skip rest zero y p e = let same : x ≡ y = cc in rw (← same) skip
fails_after test n x xs skip rest (suc m) y p e = rest m y (omega arith) e

First-skip :
    {A : Type 0} (test : A → Bool) (n i : ℕ) (x : A) (xs : List A) (r : ℤ)
    → test x ≡ false
    → First test n (i + 1) xs r
    → First test (suc n) i (x ∷ xs) r
First-skip test n i x xs (pos j) skip (k, y, at, below, found, passes, before) =
    (suc k, y, omega arith, omega arith, found, passes, fails_after test k x xs skip before)
First-skip test n i x xs (negsuc e) skip (z, none_passes) =
    (z, fails_after test n x xs skip none_passes)

-- A search over the first `n` elements of an array that has them finds the first that passes.
pub find_first_lem :
    {A : Type 0} (test : A → Bool) (n i : ℕ) (xs : List A)
    → n ≤ length xs
    → Returns (First test n i xs) (find_first test n i xs)
unfolding find_first
find_first_lem test zero i xs h = (refl, λ k x p. absurd (omega arith))
find_first_lem test (suc n) i [] h = absurd (omega arith)
find_first_lem test (suc n) i (x ∷ xs) h = elim (Bool-cases (test x)) [
  | inl passes ↦
      rw passes (0, x, omega arith, omega arith, refl, passes, λ m y p. absurd (omega arith))
  | inr fails ↦ rw fails (
      Returns-mono (First test n (i + 1) xs) (First test (suc n) i (x ∷ xs))
        (find_first test n (i + 1) xs) (find_first_lem test n (i + 1) xs (omega arith))
        (λ r. First-skip test n i x xs r fails))
]
