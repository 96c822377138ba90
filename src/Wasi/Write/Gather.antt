-- ===== src/Wasi/Write/Gather.antt =====
-- What `fd_write` is to print: the buffers that the ciovecs describe, in order.
use wasrisc.Base.{
  ℕ, zero, suc, ◌+◌, ◌*◌, ◌≡◌, refl, arith, List, [], ◌∷◌, ◌++◌, length, length-append, false,
  codes, if◌then◌else◌,
}
use wasrisc.Host.{Libc, Wasm}
use wasrisc.Machine.Word.{u8, u64}
use wasrisc.Wasi.Write.{ciovec_size, is_other}

module _ (wasm : Wasm) (m : wasm.Linear) where
  -- `k` bytes of the linear memory from `p` on.
  unfoldable pub region : ℕ → ℕ → List ℕ
  region zero p = []
  region (suc k) p = u8 (wasm.byte m p) ∷ region k (p + 1)

  -- The ciovec at an index of the array at `p`.
  abbrev pub ciovec_at : ℕ → ℕ → ℕ
  ciovec_at p index = u64 (p + index * ciovec_size)

  abbrev pub base_at : ℕ → ℕ → ℕ
  base_at p index = wasm.i32_load m (ciovec_at p index)

  abbrev pub length_at : ℕ → ℕ → ℕ
  length_at p index = wasm.i32_load m (u64 (ciovec_at p index + 4))

  -- The contents of `k` buffers, from the one at `index` on.
  unfoldable pub gathered : ℕ → ℕ → ℕ → List ℕ
  gathered p zero index = []
  gathered p (suc k) index =
      region (length_at p index) (base_at p index) ++ gathered p k (index + 1)

  -- The sum of their lengths.
  unfoldable pub lengths : ℕ → ℕ → ℕ → ℕ
  lengths p zero index = 0
  lengths p (suc k) index = length_at p index + lengths p k (index + 1)

  pub length-region : (k p : ℕ) → length (region k p) ≡ k
  unfolding region
  length-region zero p = refl
  length-region (suc k) p = omega (arith, length-region k (p + 1))

  pub length-gathered : (p k index : ℕ) → length (gathered p k index) ≡ lengths p k index
  unfolding gathered lengths
  length-gathered p zero index = refl
  length-gathered p (suc k) index = omega (
    arith,
    length-append (region (length_at p index) (base_at p index)) (gathered p k (index + 1)),
    length-region (length_at p index) (base_at p index),
    length-gathered p k (index + 1),
  )

-- With the messages that a descriptor other than 1 and 2 adds.
module _ (libc : Libc) (wasi_fd : ℕ) where
  abbrev pub announced : List ℕ → List ℕ → List ℕ
  announced fmt args = if is_other wasi_fd then libc.formatted fmt args else []

module _ (libc : Libc) (wasm : Wasm) (m : wasm.Linear) (wasi_fd : ℕ) where
  unfoldable pub transcript : ℕ → ℕ → ℕ → List ℕ
  transcript p zero index = []
  transcript p (suc k) index =
      announced libc wasi_fd (codes "length = %d\n") (length_at wasm m p index ∷ [])
      ++ (region wasm m (length_at wasm m p index) (base_at wasm m p index)
          ++ transcript p k (index + 1))

  -- For the console these are none.
  pub transcript-gathered :
      (p k index : ℕ) → is_other wasi_fd ≡ false → transcript p k index ≡ gathered wasm m p k index
  unfolding transcript gathered
  transcript-gathered p zero index e = refl
  transcript-gathered p (suc k) index e = rw (e, transcript-gathered p k (index + 1) e)
