-- ===== src/Zkvm/Session/Reaches.antt =====
-- Guests that may call for ever: the states of the zkvm between two of their calls.
use wasrisc.Base.{ℕ, ◌+◌, ◌≤◌, ◌≡◌, arith}
use wasrisc.Host.{Wasm}
use wasrisc.Machine.{Run, done, Settles}
use wasrisc.Session.{Call, perform}
use wasrisc.Wasi.{State}
use wasrisc.Zkvm.{Zkvm, capacity}
use wasrisc.Zkvm.Session.{zkvm_target}
use wasrisc.Zkvm.Session.Intact.{Intact, Intact-refl, Intact-mono, hands_over}
use wasrisc.Zkvm.Session.Keeps.{Kept, perform-Settles}

-- From `s` the guest has come to `t` by calls that returned, and has handed over `n` values.
pub data Reaches (wasm : Wasm) (s : State Zkvm wasm.Linear)
    : ℕ → State Zkvm wasm.Linear → Type 0 where
  here : Reaches wasm s 0 s
  next :
      {n : ℕ} {t u : State Zkvm wasm.Linear} (c : Call wasm.Linear) (r : ℕ)
      → Reaches wasm s n t
      → perform zkvm_target wasm c t ≡ done r u
      → Reaches wasm s (hands_over c + n) u

module _ (wasm : Wasm) (s : State Zkvm wasm.Linear) where
  settled :
      {A : Type 0} (P : State Zkvm wasm.Linear → Type 0) (r : Run (State Zkvm wasm.Linear) A)
      {a : A} {t : State Zkvm wasm.Linear}
      → Settles r P
      → r ≡ done a t
      → P t
  settled P r h e = rw e at h

  Reaches-Kept :
      {n : ℕ} {t : State Zkvm wasm.Linear} (room : ℕ)
      → Reaches wasm s n t
      → s.device.output_count + (n + room) ≤ capacity
      → Kept wasm room s.device t
  Reaches-Kept room here fits = Intact-refl room s.device (omega arith)
  Reaches-Kept room (next {n} {t} c r before ran) fits =
      settled (Kept wasm room s.device) (perform zkvm_target wasm c t)
        (perform-Settles wasm s.device c room t
          (Reaches-Kept (hands_over c + room) before (omega arith)))
        ran

  -- Whatever calls a guest has made, for however long, while the output area has room for the values
  -- that it has handed over and for that of its next call: the memory below the area, where the input
  -- lies, is as at the start, the console shows what it had shown and more, and the next call does not
  -- run for ever; it returns or halts with as much intact, or comes to behaviour that C leaves
  -- undefined.
  pub Reaches-Settles :
      {n : ℕ} {t : State Zkvm wasm.Linear} (c : Call wasm.Linear)
      → Reaches wasm s n t
      → s.device.output_count + (n + hands_over c) ≤ capacity
      → Intact 0 s.device t.device
        × Settles (perform zkvm_target wasm c t) (λ u. Intact 0 s.device u.device)
  Reaches-Settles c before fits =
      let h = Reaches-Kept (hands_over c + 0) before (omega arith) in
      (Intact-mono (hands_over c + 0) 0 (omega arith) h, perform-Settles wasm s.device c 0 _ h)
