-- ===== src/Wasi/Clock.antt =====
-- The pseudo clock of wasi.c: `clock_time_get` and the arithmetic of `ticks += 1e8`, whose addition
-- is done in `double`.
pub mod Rounding
pub mod Time
use wasrisc.Base.{ℕ, zero, suc, ◌+◌, ◌*◌, ◌/◌, ◌%◌, ◌^◌, ◌==◌, ltb, leb, if◌then◌else◌}
use wasrisc.Host.{Libc, Wasm}
use wasrisc.Machine.{done, undefined, Cmd}
use wasrisc.Wasi.{State, errno_success}

abbrev pub time_offset : ℕ
time_offset = 1758880055000000000

abbrev pub pseudoclock_increments : ℕ
pseudoclock_increments = 100000000

-- The multiple of `2 ^ k` nearest to `n`, the even one of two.
unfoldable pub round_at : ℕ → ℕ → ℕ
round_at k n =
    let unit = 2 ^ k in
    let q = n / unit in
    let r = n % unit in
    if ltb (2 * r) unit
    then q * unit
    else if ltb unit (2 * r)
    then (q + 1) * unit
    else (if q % 2 == 0 then q else q + 1) * unit

-- The first `k` for which `n` has `53 + k` bits gives the spacing of the doubles around `n`.
unfoldable pub to_double_from : ℕ → ℕ → ℕ → ℕ
to_double_from zero k n = round_at k n
to_double_from (suc rounds) k n =
    let next = to_double_from rounds (suc k) n in
    if ltb n (2 ^ (53 + k)) then round_at k n else next

-- `(double)n` for a number of 64 bits, as a number.
unfoldable pub to_double : ℕ → ℕ
to_double n = to_double_from 11 0 n

-- `ticks += PSEUDOCLOCK_INCREMENTS`, where the increment is a `double`.
unfoldable pub advance : ℕ → ℕ
advance ticks = to_double (to_double ticks + pseudoclock_increments)

-- A sum or a conversion that leaves `int64_t` is undefined.
module _ (libc : Libc) (wasm : Wasm) where
  unfoldable pub clock_time_get : ℕ → ℕ → ℕ → Cmd (State libc.Device wasm.Linear) ℕ
  clock_time_get clock_id precision result_pointer s =
      let time = time_offset + s.ticks in
      let next = advance s.ticks in
      if leb (2 ^ 63) time
      then undefined
      else if leb (2 ^ 63) next
      then undefined
      else done errno_success
          (record s { memory = wasm.i64_store s.memory result_pointer time; ticks = next })
