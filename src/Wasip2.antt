-- ===== src/Wasip2.antt =====
-- w2c2/embedded/wasip2.c: stubs that print their name and return zero or nothing.
pub mod Bare
pub mod Adapter
pub mod Messages
use wasrisc.Base.{ℕ, List, []}
use wasrisc.Host.{Libc}
use wasrisc.Machine.{Cmd, pure, ◌>>◌}
use wasrisc.Wasi.{State, print}
use wasrisc.Wasip2.Bare.{BareImport, bare_message}
use wasrisc.Wasip2.Adapter.{AdapterImport, adapter_message}

-- A function of type `void` is given the result 0 too.
module _ (libc : Libc) {Linear : Type 0} where
  unfoldable pub bare : BareImport → Cmd (State libc.Device Linear) ℕ
  bare i = print libc (bare_message i) [] >> pure 0

  unfoldable pub adapter : AdapterImport → Cmd (State libc.Device Linear) ℕ
  adapter i = print libc (adapter_message i) [] >> pure 0
