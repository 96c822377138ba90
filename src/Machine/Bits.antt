-- ===== src/Machine/Bits.antt =====
-- `&` with the low four bits is the remainder by 16.
use Prim.Native.Nat.{digits, bit_and-bitwise}
use native.Mathlib.Nat.{le_refl}
use wasrisc.Base.{ℕ, zero, suc, ◌/◌, ◌%◌, ◌≤◌, min, bit_and, ◌≡◌, refl, arith}

abbrev and_digits : ℕ → ℕ → ℕ → ℕ
and_digits n a b = digits (λ _. 0) min n a b

mask_zero : (n a : ℕ) → and_digits n a 0 ≡ 0
mask_zero zero a = refl
mask_zero (suc n) zero = refl
mask_zero (suc n) (suc a) = omega (arith, mask_zero n (suc a / 2))

mask_one : (n a : ℕ) → a ≤ n → and_digits n a 1 ≡ a % 2
mask_one zero zero h = refl
mask_one zero (suc a) h = absurd (omega arith)
mask_one (suc n) zero h = refl
mask_one (suc n) (suc a) h = omega (arith, mask_zero n (suc a / 2))

mask_three : (n a : ℕ) → a ≤ n → and_digits n a 3 ≡ a % 4
mask_three zero zero h = refl
mask_three zero (suc a) h = absurd (omega arith)
mask_three (suc n) zero h = refl
mask_three (suc n) (suc a) h = omega (arith, mask_one n (suc a / 2) (omega arith))

mask_seven : (n a : ℕ) → a ≤ n → and_digits n a 7 ≡ a % 8
mask_seven zero zero h = refl
mask_seven zero (suc a) h = absurd (omega arith)
mask_seven (suc n) zero h = refl
mask_seven (suc n) (suc a) h = omega (arith, mask_three n (suc a / 2) (omega arith))

mask_fifteen : (n a : ℕ) → a ≤ n → and_digits n a 15 ≡ a % 16
mask_fifteen zero zero h = refl
mask_fifteen zero (suc a) h = absurd (omega arith)
mask_fifteen (suc n) zero h = refl
mask_fifteen (suc n) (suc a) h = omega (arith, mask_seven n (suc a / 2) (omega arith))

pub bit_and_fifteen : (a : ℕ) → bit_and a 15 ≡ a % 16
bit_and_fifteen a = omega (arith, bit_and-bitwise a 15, mask_fifteen a a (le_refl a))
