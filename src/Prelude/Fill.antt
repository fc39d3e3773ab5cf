-- ===== src/Prelude/Fill.antt =====
-- `for (i = a; i < b; i++) array[i] = f(i);`: a loop that sets a range of an array.
use Prim.Native.Nat.{ℕ, zero, suc, ◌+◌, ◌≤◌, ◌<◌}
use mathlib.Core.Path.{◌≡◌, ◌∙◌, refl}
use mathlib.Core.Logic.{inl, inr}
use mathlib.Core.Option.{Option, some}
use mathlib.Core.List.{List}
use native.Mathlib.Omega.{arith}
use anaga.Prelude.Tests.{eq-cases}
use anaga.Prelude.Lists.{length, get_elem?, get_elem?-set_ne, get_elem?-set_self, length-set, set}
use anaga.Prelude.Partial.{◌>>=◌, Returns, Returns-mono, store, store_lem}

-- `n` rounds from index `i` on
unfoldable pub fill {ℓ} : {A : Type ℓ} → (ℕ → A) → ℕ → ℕ → List A → Option (List A)
fill f zero i xs = some xs
fill f (suc n) i xs = store xs i (f i) >>= fill f n (i + 1)

pub record Filled {A : Type 0} (f : ℕ → A) (n i : ℕ) (xs ys : List A) : Type 0 where
  pub size : length ys ≡ length xs
  pub set : (j : ℕ) → i ≤ j → j < i + n → get_elem? ys j ≡ some (f j)
  pub kept : (j : ℕ) → j < i → get_elem? ys j ≡ get_elem? xs j
  pub above : (j : ℕ) → i + n ≤ j → get_elem? ys j ≡ get_elem? xs j

pub fill_lem :
    {A : Type 0} (f : ℕ → A) (n i : ℕ) (xs : List A)
    → i + n ≤ length xs
    → Returns (Filled f n i xs) (fill f n i xs)
unfolding fill
fill_lem f zero i xs h = record {
  size = refl;
  set = λ j lo hi. absurd (omega arith);
  kept = λ j lo. refl;
  above = λ j hi. refl;
}
fill_lem f (suc n) i xs h =
    let size = length-set xs i (f i) in
    rw (store_lem xs i (f i) (omega arith)) (
      Returns-mono (Filled f n (i + 1) (set xs i (f i))) (Filled f (suc n) i xs)
        (fill f n (i + 1) (set xs i (f i)))
        (fill_lem f n (i + 1) (set xs i (f i)) (omega (arith, size)))
        (λ ys k. record {
          size = k.size ∙ size;
          set = λ j lo hi. elim (eq-cases i j) [
            | inl e ↦
                rw (← e) (k.kept i (omega arith) ∙ get_elem?-set_self xs i (f i) (omega arith))
            | inr ne ↦ k.set j (omega arith) (omega arith)
          ];
          kept = λ j lo. k.kept j (omega arith) ∙ get_elem?-set_ne xs (f i) (λ e. omega arith);
          above = λ j hi. k.above j (omega arith) ∙ get_elem?-set_ne xs (f i) (λ e. omega arith);
        }))
