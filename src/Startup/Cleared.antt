-- ===== src/Startup/Cleared.antt =====
-- The loops end, and what they clear.
use wasrisc.Base.{
  ℕ, zero, suc, ◌+◌, ◌-◌, ◌^◌, ◌≤◌, ◌<◌, ◌≡◌, ◌⊎◌, refl, ◌∙◌, arith, some, leb, ltb, Bool-cases,
  inl, inr,
}
use wasrisc.Machine.Memory.{Memory}
use wasrisc.Machine.Word.{u64}
use wasrisc.Startup.{store_zero, clear_bss}

-- Every byte from `t0` to `t1` is zero, and none before is changed nor any from `width - 1` bytes
-- behind `t1` on.
pub record IsCleared (width t0 t1 : ℕ) (m m' : Memory) : Type 0 where
  pub zeroed : (a : ℕ) → t0 ≤ a → a < t1 → m' a ≡ 0
  pub kept : (a : ℕ) → (a < t0) ⊎ (t1 + width ≤ a + 1) → m' a ≡ m a

module _ (width t1 : ℕ) (some_width : 0 < width) (fits : t1 + width < 2 ^ 64) where
  round-IsCleared :
      (t0 : ℕ) (m m' : Memory)
      → t0 < t1
      → IsCleared width (t0 + width) t1 (store_zero width t0 m) m'
      → IsCleared width t0 t1 m m'
  unfolding store_zero
  round-IsCleared t0 m m' more h = record {
    zeroed = λ a above below. elim (Bool-cases (ltb a (t0 + width))) [
      | inl within ↦ h.kept a (inl (ground arith)) ∙ ground arith
      | inr beyond ↦ h.zeroed a (ground arith) below
    ];
    kept = λ a out. h.kept a (ground arith) ∙ ground arith;
  }

  -- For a positive width and an end that it does not carry past 2 ^ 64: with more rounds than there
  -- are bytes to clear the loop ends, and has cleared them.
  pub clear_bss-IsCleared :
      (rounds t0 : ℕ) (m : Memory)
      → t1 - t0 < rounds
      → (m' : Memory) × (clear_bss width rounds t0 t1 m ≡ some m') × IsCleared width t0 t1 m m'
  unfolding clear_bss
  clear_bss-IsCleared zero t0 m enough = absurd (omega arith)
  clear_bss-IsCleared (suc rounds) t0 m enough = elim (Bool-cases (leb t1 t0)) [
    | inl ended ↦
        rw ended (
          m,
          refl,
          record { zeroed = λ a above below. absurd (ground arith); kept = λ a out. refl },
        )
    | inr more ↦
        let next : u64 (t0 + width) ≡ t0 + width = ground arith in
        let (m', ran, cleared) =
          clear_bss-IsCleared rounds (t0 + width) (store_zero width t0 m) (ground arith) in
        rw (more, next) (m', ran, round-IsCleared t0 m m' (ground arith) cleared)
  ]
