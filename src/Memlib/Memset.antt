-- ===== src/Memlib/Memset.antt =====
-- What `memset` does to memory, with the shortcut for large zeroings.
use wasrisc.Base.{
  ℕ, ◌+◌, ◌≤◌, ◌<◌, ◌≡◌, ◌⊎◌, ◌↔◌, refl, ap, ◌∙◌, arith, leb, ltb, ◌&&◌, ◌==◌, true, false,
  Bool-cases, inl, inr, if◌then◌else◌,
}
use wasrisc.Machine.{done, Ensures}
use wasrisc.Machine.Memory.{Memory}
use wasrisc.Machine.Word.{u8}
use wasrisc.Zkvm.{Zkvm}
use wasrisc.Memlib.{wasm_function_table_buf_size, Memops, memset}

-- Memory after the `len` bytes at `b` are filled with the low byte of `c`.
abbrev pub Filled : ℕ → ℕ → ℕ → Memory → Memory → Type 0
Filled b c len m m' = (a : ℕ) → m' a ≡ (if leb b a && ltb a (b + len) then u8 c else m a)

module _ (ops : Memops) (b c len : ℕ) (z : Zkvm) where
  -- `memset` fills what it is told to, unless it is to zero more than the shortcut's threshold.
  pub memset-Filled :
      (len ≤ wasm_function_table_buf_size) ⊎ (0 < c)
      → Ensures (memset ops b c len z) (λ p t. (p ≡ b) × Filled b c len z.memory t.memory)
  unfolding memset
  memset-Filled asked =
      let kept : (ltb wasm_function_table_buf_size len && (c == 0)) ≡ false = ground arith in
      rw kept (
        b,
        record z { memory = ops.asm_memset b c len z.memory },
        refl,
        (refl, λ a. ops.asm_memset_lem b c len z.memory a),
      )

  -- Above the threshold a zeroing is skipped, and memory stays as it was.
  pub memset-skipped : wasm_function_table_buf_size < len → c ≡ 0 → memset ops b c len z ≡ done b z
  unfolding memset
  memset-skipped large zeroes =
      let skipped : (ltb wasm_function_table_buf_size len && (c == 0)) ≡ true = ground arith in
      rw skipped

  -- On memory that holds zeros already, the shortcut makes no difference.
  memset_fresh-Filled :
      ((a : ℕ) → b ≤ a → a < b + len → z.memory a ≡ 0)
      → Ensures (memset ops b c len z) (λ p t. (p ≡ b) × Filled b c len z.memory t.memory)
  memset_fresh-Filled fresh = elim (Bool-cases (ltb wasm_function_table_buf_size len && (c == 0))) [
    | inl skipped ↦
        (b, z, memset-skipped (ground arith) (ground arith), (refl, λ a. ground (arith, fresh a)))
    | inr kept ↦ memset-Filled (ground arith)
  ]

  -- `memset` always returns its first argument, and the range is filled exactly if it is not above the
  -- threshold, is not to be zeroed, or holds zeros already.
  pub memset-Filled_iff :
      (t : Zkvm) × (memset ops b c len z ≡ done b t)
      × (Filled b c len z.memory t.memory ↔ (
          (len ≤ wasm_function_table_buf_size)
          ⊎ ((0 < c) ⊎ ((a : ℕ) → b ≤ a → a < b + len → z.memory a ≡ 0))))
  memset-Filled_iff = elim (Bool-cases (ltb wasm_function_table_buf_size len && (c == 0))) [
    | inl skipped ↦
        let large : wasm_function_table_buf_size < len = ground arith in
        let zeroes : c ≡ 0 = ground arith in
        (
          z,
          memset-skipped large zeroes,
          (
            λ filled. inr (inr λ a above below. ground (arith, filled a)),
            λ cause. elim cause [
              | inl small ↦ absurd (omega arith)
              | inr (inl nonzero) ↦ absurd (omega arith)
              | inr (inr fresh) ↦ λ a. ground (arith, fresh a)
            ],
          ),
        )
    | inr kept ↦
        let asked : (len ≤ wasm_function_table_buf_size) ⊎ (0 < c) = ground arith in
        let (p, t, ran, (at, filled)) = memset-Filled asked in
        (
          t,
          ran ∙ ap (λ q. done q t) at,
          (
            λ _. elim asked [ inl small ↦ inl small | inr nonzero ↦ inr (inl nonzero) ],
            λ _. filled,
          ),
        )
  ]
