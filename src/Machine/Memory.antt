-- ===== src/Machine/Memory.antt =====
-- The byte-addressed memory of the target, with the little-endian words of RISC-V.
use wasrisc.Base.{
  ℕ, zero, suc, ◌+◌, ◌*◌, ◌/◌, ◌%◌, ◌^◌, ◌≤◌, ◌<◌, ◌≡◌, ◌⊎◌, arith, ◌==◌, if◌then◌else◌,
}

-- The byte at each address.
abbrev pub Memory : Type 0
Memory = ℕ → ℕ

-- `*(uint32_t *)p`
unfoldable pub load32 : Memory → ℕ → ℕ
load32 m p = m p + m (p + 1) * 256 + m (p + 2) * 65536 + m (p + 3) * 16777216

-- `*(uint32_t *)p = v`
unfoldable pub store32 : Memory → ℕ → ℕ → Memory
store32 m p v q =
    if q == p
    then v % 256
    else if q == p + 1
    then v / 256 % 256
    else if q == p + 2
    then v / 65536 % 256
    else if q == p + 3
    then v / 16777216 % 256
    else m q

pub load32-store32_self : (m : Memory) (p v : ℕ) → v < 2 ^ 32 → load32 (store32 m p v) p ≡ v
unfolding load32 store32
load32-store32_self m p v h = ground arith

pub store32_outside : (m : Memory) (p v q : ℕ) → (q < p) ⊎ (p + 4 ≤ q) → store32 m p v q ≡ m q
unfolding store32
store32_outside m p v q h = ground arith

pub load32-store32_ne :
    (m : Memory) (p q v : ℕ) → (p + 4 ≤ q) ⊎ (q + 4 ≤ p) → load32 (store32 m p v) q ≡ load32 m q
unfolding load32
load32-store32_ne m p q v h = ground (
  arith,
  store32_outside m p v q,
  store32_outside m p v (q + 1),
  store32_outside m p v (q + 2),
  store32_outside m p v (q + 3),
)

abbrev pub IsBytes : Memory → Type 0
IsBytes m = (a : ℕ) → m a < 256

-- The bytes of a word, the lowest first.
pub load32-byte :
    (m : Memory) (p k : ℕ) → IsBytes m → k < 4 → load32 m p / 256 ^ k % 256 ≡ m (p + k)
unfolding load32
load32-byte m p zero b h = ground (arith, b p)
load32-byte m p (suc zero) b h = ground (arith, b p, b (p + 1))
load32-byte m p (suc (suc zero)) b h = ground (arith, b p, b (p + 1), b (p + 2))
load32-byte m p (suc (suc (suc zero))) b h = ground (arith, b p, b (p + 1), b (p + 2), b (p + 3))
load32-byte m p (suc (suc (suc (suc k)))) b h = absurd (omega arith)
