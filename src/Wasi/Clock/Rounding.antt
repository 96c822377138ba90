-- ===== src/Wasi/Clock/Rounding.antt =====
-- How far a conversion to `double` moves a number.
use native.Mathlib.Nat.{pow-le-pow_right, one-le-pow, div-add-mod, mod-lt}
use wasrisc.Base.{
  ℕ, zero, suc, ◌+◌, ◌*◌, ◌^◌, ◌≤◌, ◌<◌, ◌≡◌, refl, arith, ltb, true, Bool-cases, inl, inr, lt→ltb,
}
use wasrisc.Wasi.Clock.{round_at, to_double_from, to_double, advance, pseudoclock_increments}

-- Rounding to a multiple moves a number by half the spacing at most.
round_at-near : (k n : ℕ) → (2 * n ≤ 2 * round_at k n + 2 ^ k) × (2 * round_at k n ≤ 2 * n + 2 ^ k)
unfolding round_at
round_at-near k n = ground (arith, div-add-mod n (2 ^ k), mod-lt n {m = 2 ^ k}, one-le-pow k 2)

unit_bound : (k : ℕ) → k ≤ 10 → 2 ^ k ≤ 1024
unit_bound k h = pow-le-pow_right (omega arith) h

to_double_from-near :
    (r k n : ℕ)
    → r + k ≡ 10
    → n < 2 ^ 63
    → (n ≤ to_double_from (suc r) k n + 512) × (to_double_from (suc r) k n ≤ n + 512)
unfolding to_double_from
to_double_from-near zero k n e h =
    let ten : k ≡ 10 = omega arith in
    let fits : ltb n (2 ^ (53 + k)) ≡ true = rw ten (lt→ltb n (2 ^ 63) h) in
    rw fits (omega (arith, round_at-near k n, unit_bound k (omega arith)))
to_double_from-near (suc r) k n e h = elim (Bool-cases (ltb n (2 ^ (53 + k)))) [
  | inl fits ↦ rw fits (omega (arith, round_at-near k n, unit_bound k (omega arith)))
  | inr large ↦ rw large (to_double_from-near r (suc k) n (omega arith) h)
]

to_double_from-exact : (r n : ℕ) → n < 2 ^ 53 → to_double_from (suc r) 0 n ≡ n
unfolding to_double_from round_at
to_double_from-exact r n h = rw (lt→ltb n (2 ^ 53) h) (ground arith)

-- A number below 2 ^ 53 is a double.
pub to_double-exact : (n : ℕ) → n < 2 ^ 53 → to_double n ≡ n
unfolding to_double
to_double-exact n h = to_double_from-exact 10 n h

pub to_double-near : (n : ℕ) → n < 2 ^ 63 → (n ≤ to_double n + 512) × (to_double n ≤ n + 512)
unfolding to_double
to_double-near n h = to_double_from-near 10 0 n refl h

-- The clock advances by the exact increment while its counter stays below 2 ^ 53.
pub advance-exact :
    (ticks : ℕ)
    → ticks + pseudoclock_increments < 2 ^ 53
    → advance ticks ≡ ticks + pseudoclock_increments
unfolding advance
advance-exact ticks h =
    rw (to_double-exact ticks (omega arith)) (to_double-exact (ticks + pseudoclock_increments) h)

-- For a counter that stays below 2 ^ 63 by 512, the rounding moves an advance by 1024 at most.
pub advance-near :
    (ticks : ℕ)
    → ticks + pseudoclock_increments + 512 < 2 ^ 63
    → (ticks + pseudoclock_increments ≤ advance ticks + 1024)
      × (advance ticks ≤ ticks + pseudoclock_increments + 1024)
unfolding advance
advance-near ticks h =
    let first = to_double-near ticks (omega arith) in
    let second = to_double-near (to_double ticks + pseudoclock_increments) (omega arith) in
    omega arith
