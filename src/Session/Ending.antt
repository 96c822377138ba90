-- ===== src/Session/Ending.antt =====
-- How a guest's run ends, and the guest that follows a program to such an end.
use wasrisc.Base.{ℕ}
use wasrisc.Host.{Wasm}
use wasrisc.Machine.{Cmd, pure, ◌>>=◌}
use wasrisc.Session.{Target, Program, Session, follow, machine_of}
use wasrisc.Wasi.{on_device}
use wasrisc.Wasi.Stubs.Process.{proc_exit}
use wasrisc.Zkvm.Port.{Guest, Trap}

-- A guest ends by returning, by `proc_exit` with a status, by a trap, or by the import that shuts the
-- machine down.
pub data Ending : Type 0 where
  returns shuts_down : Ending
  exits : ℕ → Ending
  traps : Trap → Ending

-- What the target does for a trap, and for that import.
pub record Ends (Device : Type 0) : Type 0 where
  pub trap : Trap → Cmd Device (Unit {0})
  pub guest_shutdown : Cmd Device (Unit {0})

module _ (target : Target) (wasm : Wasm) (ends : Ends target.libc.Device) where
  unfoldable pub finish : Ending → Session target wasm (Unit {0})
  finish returns = pure tt
  finish shuts_down = on_device target.libc ends.guest_shutdown
  finish (exits status) = proc_exit target.libc status
  finish (traps code) = on_device target.libc (ends.trap code)

  -- The guest starts with the memory `m`, and the clock with its first count.
  abbrev pub session : wasm.Linear → Program wasm.Linear Ending → Cmd target.libc.Device (Unit {0})
  session m p d =
      machine_of ((follow target wasm p >>= finish) (record { device = d; memory = m; ticks = 1 }))

  abbrev pub session_guest : wasm.Linear → Program wasm.Linear Ending → Guest target.libc.Device
  session_guest m p = record { instantiate = pure tt; start = session m p; free_instance = pure tt }
