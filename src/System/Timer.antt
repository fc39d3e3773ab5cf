-- ===== src/System/Timer.antt =====
-- How long `system_wait` waits.
use anaga.Prelude.{
  ℕ, zero, suc, ◌+◌, ◌%◌, ◌^◌, ◌<◌, ◌≤◌, ◌≡◌, refl, List, [], ◌∷◌, none, some, Bool, true, false,
  ltb, if◌then◌else◌, arith, ltb-true, ltb-false, lt-cases, inl, inr,
}
use anaga.System.{timer_handler, wait_until, system_wait}

-- The interrupts of the timer among those that end the halts.
abbrev pub ticks_in : List Bool → ℕ
ticks_in [] = 0
ticks_in (true ∷ interrupts) = suc (ticks_in interrupts)
ticks_in (false ∷ interrupts) = ticks_in interrupts

ltb-suc : (a b : ℕ) → ltb (suc a) (suc b) ≡ ltb a b
ltb-suc a b = elim (lt-cases a b) [
  | inl h ↦ rw (ltb-true a b h, ltb-true (suc a) (suc b) (omega arith)) refl
  | inr h ↦ rw (ltb-false a b h, ltb-false (suc a) (suc b) (omega arith)) refl
]

-- A wait for `ms` more of them
wait_until_lem :
    (ms timer_ticks target : ℕ) (interrupts : List Bool)
    → timer_ticks + ms ≡ target
    → target < 2 ^ 32
    → wait_until target timer_ticks interrupts
      ≡ (if ltb (ticks_in interrupts) ms then none else some target)
unfolding wait_until timer_handler
wait_until_lem zero timer_ticks target [] e h =
    let stay : timer_ticks ≡ target = omega arith in
    rw (stay, ltb-false target target (omega arith)) refl
wait_until_lem (suc ms) timer_ticks target [] e h =
    rw (ltb-true timer_ticks target (omega arith), ltb-true 0 (suc ms) (omega arith)) refl
wait_until_lem zero timer_ticks target (timer ∷ interrupts) e h =
    let stay : timer_ticks ≡ target = omega arith in
    rw
      (
        stay,
        ltb-false target target (omega arith),
        ltb-false (ticks_in (timer ∷ interrupts)) 0 (omega arith),
      )
      refl
wait_until_lem (suc ms) timer_ticks target (false ∷ interrupts) e h =
    rw (ltb-true timer_ticks target (omega arith))
      (wait_until_lem (suc ms) timer_ticks target interrupts e h)
wait_until_lem (suc ms) timer_ticks target (true ∷ interrupts) e h =
    let tick : (timer_ticks + 1) % 2 ^ 32 ≡ suc timer_ticks = omega arith in
    rw (ltb-true timer_ticks target (omega arith), tick, ltb-suc (ticks_in interrupts) ms)
      (wait_until_lem ms (suc timer_ticks) target interrupts (omega arith) h)

-- `system_wait`, where the sum of the ticks so far and `ms` is below 2 ^ 32, returns behind `ms`
-- interrupts of the timer, however many others there are, and with `ms` more ticks; it does not return
-- before.
pub system_wait_lem :
    (ms timer_ticks : ℕ) (interrupts : List Bool)
    → timer_ticks + ms < 2 ^ 32
    → system_wait ms timer_ticks interrupts
      ≡ (if ltb (ticks_in interrupts) ms then none else some (timer_ticks + ms))
unfolding system_wait
system_wait_lem ms timer_ticks interrupts h =
    let low : (timer_ticks + ms) % 2 ^ 32 ≡ timer_ticks + ms = omega arith in
    rw low (wait_until_lem ms timer_ticks (timer_ticks + ms) interrupts refl h)

-- `system_wait`, where that sum reaches 2 ^ 32, does not wait.
pub system_wait-wrap :
    (ms timer_ticks : ℕ) (interrupts : List Bool)
    → ms < 2 ^ 32
    → timer_ticks < 2 ^ 32
    → 2 ^ 32 ≤ timer_ticks + ms
    → system_wait ms timer_ticks interrupts ≡ some timer_ticks
unfolding system_wait wait_until
system_wait-wrap ms timer_ticks [] hm ht h =
    rw (ltb-false timer_ticks ((timer_ticks + ms) % 2 ^ 32) (omega arith)) refl
system_wait-wrap ms timer_ticks (timer ∷ interrupts) hm ht h =
    rw (ltb-false timer_ticks ((timer_ticks + ms) % 2 ^ 32) (omega arith)) refl
