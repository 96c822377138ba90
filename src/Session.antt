-- ===== src/Session.antt =====
-- A guest, as the imports that it calls, each chosen by what the ones before have returned and by what
-- its linear memory holds, with what it computes in that memory in between: wasi.c, wasip2.c and the
-- custom imports of a target, over one machine. A target supplies `Target`.
pub mod View
pub mod Performs
pub mod Refines
pub mod Portable
pub mod Prepared
pub mod Echo
pub mod Ending
use wasrisc.Base.{ℕ, ◌+◌, ◌≡◌, List, [], ◌∷◌, ◌++◌, length}
use wasrisc.Host.{Libc, Wasm}
use wasrisc.Machine.{Run, done, halted, hangs, undefined, Cmd, Ensures, pure, ◌>>=◌, ◌>>◌}
use wasrisc.Wasi.{State, on_device}
use wasrisc.Wasi.Clock.{clock_time_get}
use wasrisc.Wasi.Imports.{Import, invoke}
use wasrisc.Wasi.Write.{fd_write}
use wasrisc.Wasip2.{bare, adapter}
use wasrisc.Wasip2.Bare.{BareImport}
use wasrisc.Wasip2.Adapter.{AdapterImport}

pub data Call (Linear : Type 0) : Type 0 where
  compute : (Linear → Linear) → Call Linear
  write : ℕ → ℕ → ℕ → ℕ → Call Linear
  clock : ℕ → ℕ → ℕ → Call Linear
  report : Import → Call Linear
  bare_stub : BareImport → Call Linear
  adapter_stub : AdapterImport → Call Linear
  input_at : ℕ → Call Linear
  input_length : Call Linear
  print : ℕ → Call Linear

-- What a guest does: it has come to `a`, or it calls an import and goes on by the result and the
-- memory that the call has left.
pub data Program (Linear A : Type 0) : Type 0 where
  ret : A → Program Linear A
  call : Call Linear → (ℕ → Linear → Program Linear A) → Program Linear A

-- The input that the host has placed.
pub record Input : Type 0 where
  pub bytes : ℕ → ℕ
  pub length : ℕ

-- A target's C library, the imports that read the input, and its `testmodule__printk`, which prints a
-- text, hands its value to the host, or both. `Holds given vs d` says that the input is `given` and
-- that the host can read the values `vs`; `Takes` is what a further value must satisfy, and
-- `Readable` an index of the input.
pub record Target : Type 1 where
  pub libc : Libc
  pub guest_printk : ℕ → Cmd libc.Device (Unit {0})
  pub printk_text : ℕ → List ℕ
  pub input_data : ℕ → Cmd libc.Device ℕ
  pub input_data_len : libc.Device → ℕ
  pub Holds : Input → List ℕ → libc.Device → Type 0
  pub Readable : ℕ → Type 0
  pub Takes : List ℕ → ℕ → Type 0
  pub Holds_rest :
      (given : Input) (vs : List ℕ) (d e : libc.Device)
      → libc.rest e ≡ libc.rest d
      → Holds given vs d
      → Holds given vs e
  pub input_data_lem :
      (given : Input) (vs : List ℕ) (d : libc.Device) (k : ℕ)
      → Holds given vs d
      → Readable k
      → input_data k d ≡ done (given.bytes k) d
  pub input_data_len_lem :
      (given : Input) (vs : List ℕ) (d : libc.Device)
      → Holds given vs d
      → input_data_len d ≡ given.length
  pub guest_printk_lem :
      (given : Input) (v n : ℕ) (vs : List ℕ) (d : libc.Device)
      → Holds given vs d
      → Takes vs v
      → libc.Accepts (length (printk_text v) + n) d
      → Ensures (guest_printk v d) (λ _ e.
        (libc.output e ≡ libc.output d ++ printk_text v)
        × Holds given (vs ++ v ∷ []) e
        × libc.Accepts n e)

module _ (target : Target) (wasm : Wasm) where
  abbrev pub Session : Type 0 → Type 0
  Session A = Cmd (State target.libc.Device wasm.Linear) A

  -- A call and its result, which is 0 where there is none.
  unfoldable pub perform : Call wasm.Linear → Session ℕ
  perform (compute f) = λ s. done 0 (record s { memory = f s.memory })
  perform (write wasi_fd p count result) = fd_write target.libc wasm wasi_fd p count result
  perform (clock clock_id precision p) = clock_time_get target.libc wasm clock_id precision p
  perform (report i) = invoke target.libc i
  perform (bare_stub i) = bare target.libc i
  perform (adapter_stub i) = adapter target.libc i
  perform (input_at index) = on_device target.libc (target.input_data index)
  perform input_length = λ s. done (target.input_data_len s.device) s
  perform (print val) = on_device target.libc (target.guest_printk val) >> pure 0

  unfoldable pub follow : {A : Type 0} → Program wasm.Linear A → Session A
  follow (ret a) = pure a
  follow (call c next) = do r ← perform c; λ s. follow (next r s.memory) s

-- The machine of a run of the guest.
abbrev pub machine_of :
    {Device Linear A : Type 0} → Run (State Device Linear) A → Run Device (Unit {0})
machine_of (done a s) = done tt s.device
machine_of (halted s) = halted s.device
machine_of (hangs s) = hangs s.device
machine_of undefined = undefined
