-- ===== src/Wasi.antt =====
-- w2c2/embedded/wasi.c: the state that its functions share. `memory` is what `wasiMemory` returns,
-- `ticks` the static counter of `clock_time_get`.
pub mod Init
pub mod Printing
pub mod Stubs
pub mod Clock
pub mod Imports
pub mod Write
use wasrisc.Base.{ℕ, ◌+◌, ◌≡◌, refl, List, ◌++◌, length}
use wasrisc.Host.{Wasm, Libc}
use wasrisc.Machine.{Run, done, halted, hangs, undefined, Cmd, Ensures, over}

abbrev pub errno_success : ℕ
errno_success = 0

abbrev pub errno_badf : ℕ
errno_badf = 8

abbrev pub errno_nomem : ℕ
errno_nomem = 48

pub record State (Device Linear : Type 0) : Type 0 where
  pub device : Device
  pub memory : Linear
  pub ticks : ℕ

module _ (libc : Libc) {Linear : Type 0} where
  -- A call of the C library.
  abbrev pub on_device : {A : Type 0} → Cmd libc.Device A → Cmd (State libc.Device Linear) A
  on_device m s = over (λ d t. record t { device = d }) (m s.device) s

  unfoldable pub print : List ℕ → List ℕ → Cmd (State libc.Device Linear) ℕ
  print fmt args = on_device (libc.printf fmt args)

  unfoldable pub put : ℕ → Cmd (State libc.Device Linear) ℕ
  put c = on_device (libc.putchar c)

  -- The device has printed `bytes` and takes `n` more; the rest of the state is as it was.
  pub record Printed (bytes : List ℕ) (n : ℕ) (s t : State libc.Device Linear) : Type 0 where
    pub memory : t.memory ≡ s.memory
    pub ticks : t.ticks ≡ s.ticks
    pub output : libc.output t.device ≡ libc.output s.device ++ bytes
    pub rest : libc.rest t.device ≡ libc.rest s.device
    pub room : libc.Accepts n t.device
