-- ===== src/Host.antt =====
-- What wasi.c takes from outside the repository and from the platform that it is linked with.
use wasrisc.Base.{
  ℕ, suc, ◌+◌, ◌*◌, ◌/◌, ◌%◌, ◌^◌, ◌≤◌, ◌<◌, ◌≡◌, ◌≢◌, ◌⊎◌, List, [], ◌∷◌, ◌++◌, length,
}
use wasrisc.Machine.{done, Cmd, Ensures}
use wasrisc.Machine.Word.{u8}

-- The linear memory of w2c2_base.h: `byte m p` is `m->data[p]`, and the accessors are
-- little-endian and check no bound.
pub record Wasm : Type 1 where
  pub Linear : Type 0
  pub byte : Linear → ℕ → ℕ
  pub i32_load : Linear → ℕ → ℕ
  pub i32_store : Linear → ℕ → ℕ → Linear
  pub i64_store : Linear → ℕ → ℕ → Linear
  pub i32_load_bytes :
      (m : Linear) (p : ℕ)
      → i32_load m p
        ≡ byte m p + byte m (p + 1) * 256 + byte m (p + 2) * 65536 + byte m (p + 3) * 16777216
  pub byte-i32_store :
      (m : Linear) (p v k : ℕ) → k < 4 → byte (i32_store m p v) (p + k) ≡ v / 256 ^ k % 256
  pub byte-i32_store_outside :
      (m : Linear) (p v q : ℕ) → (q < p) ⊎ (p + 4 ≤ q) → byte (i32_store m p v) q ≡ byte m q
  pub byte-i64_store :
      (m : Linear) (p v k : ℕ) → k < 8 → byte (i64_store m p v) (p + k) ≡ v / 256 ^ k % 256
  pub byte-i64_store_outside :
      (m : Linear) (p v q : ℕ) → (q < p) ⊎ (p + 8 ≤ q) → byte (i64_store m p v) q ≡ byte m q

-- The C library of a platform, over the device that it writes to. `Accepts n d` says that the
-- device takes `n` more bytes, `formatted` is what a format and its arguments print, and `rest` is
-- what else the device holds, which printing leaves alone.
pub record Libc : Type 1 where
  pub Device : Type 0
  pub printf : List ℕ → List ℕ → Cmd Device ℕ
  pub putchar : ℕ → Cmd Device ℕ
  pub exit : ℕ → Cmd Device (Unit {0})
  pub output : Device → List ℕ
  pub Rest : Type 0
  pub rest : Device → Rest
  pub Accepts : ℕ → Device → Type 0
  pub formatted : List ℕ → List ℕ → List ℕ
  pub printf_lem :
      (fmt args : List ℕ) (n : ℕ) (d : Device)
      → Accepts (length (formatted fmt args) + n) d
      → Ensures
          (printf fmt args d)
          (λ _ e. (output e ≡ output d ++ formatted fmt args) × (rest e ≡ rest d) × Accepts n e)
  pub putchar_lem :
      (c n : ℕ) (d : Device)
      → Accepts (suc n) d
      → Ensures
          (putchar c d)
          (λ _ e. (output e ≡ output d ++ u8 c ∷ []) × (rest e ≡ rest d) × Accepts n e)
  pub exit_lem : (status : ℕ) (d e : Device) → exit status d ≢ done tt e
