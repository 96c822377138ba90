-- ===== src/Wasi/Clock/Time.antt =====
-- What the guest is told of the time.
use wasrisc.Base.{
  ℕ, suc, ◌+◌, ◌*◌, ◌/◌, ◌%◌, ◌^◌, ◌<◌, ◌≤◌, ◌≡◌, refl, ◌∙◌, arith, List, [], ◌∷◌, length, lt→leb,
}
use mathlib.Core.Path.{ap₂}
use wasrisc.Host.{Libc, Wasm}
use wasrisc.Machine.{done, Cmd, Ensures, Ensures-bind, Ensures-mono, pure, ◌>>◌}
use wasrisc.Wasi.{State}
use wasrisc.Wasi.Clock.{time_offset, pseudoclock_increments, advance, clock_time_get}
use wasrisc.Wasi.Clock.Rounding.{advance-exact, advance-near}

module _ (libc : Libc) (wasm : Wasm) where
  -- The state after a call that stays in range.
  abbrev told : ℕ → State libc.Device wasm.Linear → State libc.Device wasm.Linear
  told p s = record s {
    memory = wasm.i64_store s.memory p (time_offset + s.ticks);
    ticks = advance s.ticks;
  }

  clock_time_get-told :
      (id precision p : ℕ) (s : State libc.Device wasm.Linear)
      → time_offset + s.ticks < 2 ^ 63
      → clock_time_get libc wasm id precision p s ≡ done 0 (told p s)
  unfolding clock_time_get
  clock_time_get-told id precision p s h =
      rw
        (
          lt→leb (2 ^ 63) (time_offset + s.ticks) h,
          lt→leb (2 ^ 63) (advance s.ticks) (omega (arith, advance-near s.ticks (omega arith))),
        )
        refl

  -- After `n` calls from the start of the program the clock is still exact.
  pub clock_time_get-exact :
      (id precision p n : ℕ) (s : State libc.Device wasm.Linear)
      → s.ticks ≡ 1 + n * pseudoclock_increments
      → n < 90000000
      → clock_time_get libc wasm id precision p s
        ≡ done 0 (record s {
          memory = wasm.i64_store s.memory p (time_offset + (1 + n * pseudoclock_increments));
          ticks = 1 + suc n * pseudoclock_increments;
        })
  clock_time_get-exact id precision p n s e h =
      let next : advance s.ticks ≡ 1 + suc n * pseudoclock_increments =
        omega (arith, advance-exact s.ticks (omega arith)) in
      clock_time_get-told id precision p s (omega arith)
      ∙ ap₂
          (λ k l.
            done 0 (record s { memory = wasm.i64_store s.memory p (time_offset + k); ticks = l }))
          e next

  -- As long as the time fits its type, `clock_time_get` stores it, succeeds, and leaves a counter from
  -- which the next time is later by the increment, within the 1024 that the conversions to double may
  -- add or take; nothing else changes.
  pub clock_time_get-later :
      (id precision p : ℕ) (s : State libc.Device wasm.Linear)
      → time_offset + s.ticks < 2 ^ 63
      → Ensures (clock_time_get libc wasm id precision p s) (λ r t.
        (r ≡ 0)
        × (t.memory ≡ wasm.i64_store s.memory p (time_offset + s.ticks))
        × (s.ticks + pseudoclock_increments ≤ t.ticks + 1024)
        × (t.ticks ≤ s.ticks + pseudoclock_increments + 1024)
        × (t.device ≡ s.device))
  clock_time_get-later id precision p s h =
      let near = advance-near s.ticks (omega arith) in
      (0, told p s, clock_time_get-told id precision p s h, (refl, refl, near.0, near.1, refl))

  -- Calls of the clock, one after another, that store at the given places.
  unfoldable pub clock_each : List ℕ → Cmd (State libc.Device wasm.Linear) (Unit {0})
  clock_each [] = pure tt
  clock_each (p ∷ ps) = clock_time_get libc wasm 0 0 p >> clock_each ps

  clock_each-ticks :
      (ps : List ℕ) (n : ℕ) (s : State libc.Device wasm.Linear)
      → s.ticks ≡ 1 + n * pseudoclock_increments
      → n + length ps < 90071992
      → Ensures
          (clock_each ps s)
          (λ _ t. (t.ticks ≡ 1 + (n + length ps) * pseudoclock_increments) × (t.device ≡ s.device))
  unfolding clock_each
  clock_each-ticks [] n s e h = (tt, s, refl, (omega arith, refl))
  clock_each-ticks (p ∷ ps) n s e h = rw (clock_time_get-told 0 0 p s (omega arith)) (
      Ensures-mono
        (clock_each-ticks ps (suc n) (told p s) (omega (arith, advance-exact s.ticks (omega arith)))
          (omega arith))
        λ _ t q. (omega arith, q.1))

  -- After `n` calls of the clock from the start of the program, fewer than ninety million, the next
  -- call succeeds, and the eight bytes that it stores are those of the offset, one, and `n` times a
  -- hundred million.
  pub clock_time_get-nth :
      (ps : List ℕ) (p k : ℕ) (s : State libc.Device wasm.Linear)
      → s.ticks ≡ 1
      → length ps < 90000000
      → k < 8
      → Ensures ((clock_each ps >> clock_time_get libc wasm 0 0 p) s) (λ r t.
        (r ≡ 0)
        × (wasm.byte t.memory (p + k)
            ≡ (time_offset + (1 + length ps * pseudoclock_increments)) / 256 ^ k % 256))
  clock_time_get-nth ps p k s e h small =
      Ensures-bind (clock_each-ticks ps 0 s (omega arith) (omega arith)) λ _ t (now, same).
        let now' : t.ticks ≡ 1 + length ps * pseudoclock_increments = omega arith in
        (
          0,
          told p t,
          clock_time_get-told 0 0 p t (omega arith),
          (refl, rw (← now') (wasm.byte-i64_store t.memory p (time_offset + t.ticks) k small)),
        )
