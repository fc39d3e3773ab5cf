-- ===== src/Prelude/First.antt =====
-- The first of the numbers in a range where a function has a given value.
use Prim.Native.Nat.{ℕ, suc, ◌≤◌, ◌<◌}
use mathlib.Core.Path.{◌≡◌, subst}
use mathlib.Core.Logic.{◌≢◌, inl, inr}
use mathlib.Core.Option.{Option, none, some}
use native.Mathlib.Omega.{arith}
use anaga.Prelude.Tests.{eq-cases}

-- What a search from `lo` to below `hi` gives: the first place, or none where there is none.
pub data IsFirst {ℓ} {A : Type ℓ} (f : ℕ → A) (v : A) (lo hi : ℕ) : Option ℕ → Type ℓ where
  found :
      (k : ℕ)
      → lo ≤ k
      → k < hi
      → f k ≡ v
      → ((j : ℕ) → lo ≤ j → j < k → f j ≢ v)
      → IsFirst f v lo hi (some k)
  absent : ((j : ℕ) → lo ≤ j → j < hi → f j ≢ v) → IsFirst f v lo hi none

pub IsFirst-here {ℓ} :
    {A : Type ℓ} (f : ℕ → A) (v : A) (lo hi : ℕ) → lo < hi → f lo ≡ v → IsFirst f v lo hi (some lo)
IsFirst-here f v lo hi h e = found lo (omega arith) h e (λ j a b. absurd (omega arith))

-- What holds of a place holds at all places from it on, given those behind it.
above {ℓ} :
    {A : Type ℓ} (f : ℕ → A) (v : A) (lo top : ℕ)
    → f lo ≢ v
    → ((j : ℕ) → suc lo ≤ j → j < top → f j ≢ v)
    → (j : ℕ) → lo ≤ j
    → j < top
    → f j ≢ v
above f v lo top ne rest j a b = elim (eq-cases lo j) [
  | inl e ↦ subst (λ i. f i ≢ v) e ne
  | inr d ↦ rest j (omega arith) b
]

pub IsFirst-next {ℓ} :
    {A : Type ℓ} (f : ℕ → A) (v : A) (lo hi : ℕ) (r : Option ℕ)
    → f lo ≢ v
    → IsFirst f v (suc lo) hi r
    → IsFirst f v lo hi r
IsFirst-next f v lo hi (some k) ne (found _ a b e rest) =
    found k (omega arith) b e (above f v lo k ne rest)
IsFirst-next f v lo hi none ne (absent rest) = absent (above f v lo hi ne rest)
