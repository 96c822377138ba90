-- ===== src/Tests/Linear.antt =====
-- A linear memory that is a function from addresses to bytes.
use wasrisc.Wasi.Write.Gather.{length_at}
use wasrisc.Base.{
  zero, suc, ◌∷◌, get_or, codes, ℕ, ◌+◌, ◌-◌, ◌*◌, true, false, ◌/◌, ◌%◌, ◌^◌, ◌≤◌, ◌<◌, ◌≡◌, refl,
  ◌⊎◌, arith, ltb, leb, ◌&&◌, if◌then◌else◌,
}
use wasrisc.Host.{Wasm}
use wasrisc.Machine.Memory.{Memory, load32}

-- The bytes of `v` at the `width` addresses from `p` on.
unfoldable pub store_bytes : ℕ → Memory → ℕ → ℕ → Memory
store_bytes width m p v q = if leb p q && ltb q (p + width) then v / 256 ^ (q - p) % 256 else m q

pub store_bytes-inside :
    (width : ℕ) (m : Memory) (p v k : ℕ)
    → k < width
    → store_bytes width m p v (p + k) ≡ v / 256 ^ k % 256
unfolding store_bytes
store_bytes-inside width m p v k h =
    let there : p + k - p ≡ k = omega arith in
    let inside : (leb p (p + k) && ltb (p + k) (p + width)) ≡ true = ground arith in
    rw (inside, there) refl

pub store_bytes-outside :
    (width : ℕ) (m : Memory) (p v q : ℕ)
    → (q < p) ⊎ (p + width ≤ q)
    → store_bytes width m p v q ≡ m q
unfolding store_bytes
store_bytes-outside width m p v q h =
    let outside : (leb p q && ltb q (p + width)) ≡ false = ground arith in rw outside refl

pub load32_bytes :
    (m : Memory) (p : ℕ)
    → load32 m p ≡ m p + m (p + 1) * 256 + m (p + 2) * 65536 + m (p + 3) * 16777216
unfolding load32
load32_bytes m p = refl

abbrev pub test_wasm : Wasm
test_wasm = record {
  Linear = Memory;
  byte = λ m p. m p;
  i32_load = load32;
  i32_store = store_bytes 4;
  i64_store = store_bytes 8;
  i32_load_bytes = load32_bytes;
  byte-i32_store = store_bytes-inside 4;
  byte-i32_store_outside = store_bytes-outside 4;
  byte-i64_store = store_bytes-inside 8;
  byte-i64_store_outside = store_bytes-outside 8;
}

-- Two ciovecs, at 0 and 8, and their bytes, at 16.
abbrev pub two_buffers : Memory
two_buffers a =
    get_or (16 ∷ 0 ∷ 0 ∷ 0 ∷ 2 ∷ 0 ∷ 0 ∷ 0 ∷ 18 ∷ 0 ∷ 0 ∷ 0 ∷ 1 ∷ 0 ∷ 0 ∷ 0 ∷ codes "hey") a 0

pub two_buffers-small : (j : ℕ) → j < 2 → length_at test_wasm two_buffers 0 j < 2 ^ 31
unfolding load32
two_buffers-small zero h = omega arith
two_buffers-small (suc zero) h = omega arith
two_buffers-small (suc (suc j)) h = absurd (omega arith)
