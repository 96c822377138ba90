-- ===== src/Session/Prepared.antt =====
-- A buffer of one byte in the linear memory, and a ciovec that is that buffer.
use native.Mathlib.Nat.{add-zero}
use wasrisc.Base.{ℕ, ◌+◌, ◌%◌, ◌^◌, ◌≤◌, ◌<◌, ◌≡◌, ◌⊎◌, refl, sym, ap, ◌∙◌, arith, [], ◌∷◌, inr}
use wasrisc.Host.{Wasm}
use wasrisc.Machine.Word.{u8}
use wasrisc.Wasi.Write.Gather.{gathered, region}

module _ (wasm : Wasm) where
  load-store : (m : wasm.Linear) (p v : ℕ) → v < 2 ^ 32 → wasm.i32_load (wasm.i32_store m p v) p ≡ v
  load-store m p v small =
      let first : wasm.byte (wasm.i32_store m p v) p ≡ v % 256 =
        ap (wasm.byte (wasm.i32_store m p v)) (sym (add-zero p))
        ∙ wasm.byte-i32_store m p v 0 (omega arith)
        ∙ omega arith in
      rw
        (
          wasm.i32_load_bytes (wasm.i32_store m p v) p,
          first,
          wasm.byte-i32_store m p v 1 (omega arith),
          wasm.byte-i32_store m p v 2 (omega arith),
          wasm.byte-i32_store m p v 3 (omega arith),
        )
        (omega arith)

  load-store_apart :
      (m : wasm.Linear) (p q v : ℕ)
      → (p + 4 ≤ q) ⊎ (q + 4 ≤ p)
      → wasm.i32_load (wasm.i32_store m p v) q ≡ wasm.i32_load m q
  load-store_apart m p q v apart =
      rw
        (
          wasm.i32_load_bytes (wasm.i32_store m p v) q,
          wasm.i32_load_bytes m q,
          wasm.byte-i32_store_outside m p v q (ground arith),
          wasm.byte-i32_store_outside m p v (q + 1) (ground arith),
          wasm.byte-i32_store_outside m p v (q + 2) (ground arith),
          wasm.byte-i32_store_outside m p v (q + 3) (ground arith),
        )
        refl

  -- One ciovec, at 0, of one byte, at 16.
  abbrev pub prepared : ℕ → wasm.Linear → wasm.Linear
  prepared c m = wasm.i32_store (wasm.i32_store (wasm.i32_store m 16 c) 0 16) 4 1

  pub size-prepared : (c : ℕ) (m : wasm.Linear) → wasm.i32_load (prepared c m) 4 ≡ 1
  size-prepared c m = load-store (wasm.i32_store (wasm.i32_store m 16 c) 0 16) 4 1 (omega arith)

  pub gathered-prepared : (c : ℕ) (m : wasm.Linear) → gathered wasm (prepared c m) 0 1 0 ≡ u8 c ∷ []
  unfolding gathered region
  gathered-prepared c m =
      let buffer = wasm.i32_store m 16 c in
      let base : wasm.i32_load (prepared c m) 0 ≡ 16 =
        load-store_apart (wasm.i32_store buffer 0 16) 4 0 1 (inr (omega arith))
        ∙ load-store buffer 0 16 (omega arith) in
      let content : wasm.byte (prepared c m) 16 ≡ c % 256 =
        wasm.byte-i32_store_outside (wasm.i32_store buffer 0 16) 4 1 16 (inr (omega arith))
        ∙ wasm.byte-i32_store_outside buffer 0 16 16 (inr (omega arith))
        ∙ wasm.byte-i32_store m 16 c 0 (omega arith)
        ∙ omega arith in
      rw (size-prepared c m, base, content) (ap (λ b. b ∷ []) (omega arith))
