-- ===== src/Zkvm/Session/Whole.antt =====
-- A whole run of the zkvm: `main` with a guest that follows a program and then returns, exits, traps or
-- shuts the machine down.
use wasrisc.Base.{
  ℕ, ◌≡◌, refl, sym, append-nil, ap, ◌∙◌, arith, List, [], ◌++◌, inl, codes, append_assoc,
}
use wasrisc.Console.Text.{shown}
use wasrisc.Host.{Wasm}
use wasrisc.Machine.{done, halted}
use wasrisc.Wasi.{State, print}
use wasrisc.Zkvm.{shutdown}
use wasrisc.Zkvm.Imports.{guest_shutdown, input_data, input_data_len}
use wasrisc.Wasi.Stubs.Process.{proc_exit}
use wasrisc.Zkvm.{Zkvm}
use wasrisc.Zkvm.Library.{zkvm_libc}
use wasrisc.Zkvm.OutputBuffer.{Holds}
use wasrisc.Zkvm.Port.{Guest, main, trap, trap_message}
use wasrisc.Zkvm.Port.Endings.{
  sent, printf-sent, exit-halted, trap-halted, begun, guest_run, concluded, main-concluded,
}
use wasrisc.Session.{Input, Program, follow, machine_of}
use wasrisc.Zkvm.Session.{zkvm_target, Readable}
use wasrisc.Machine.Memory.{Memory}
use mathlib.Core.Path.{ap₂}
use wasrisc.Session.Ending
use wasrisc.Session.Ending.{Ending, Ends, finish, returns, shuts_down, exits, traps}
use wasrisc.Session.View.{first_view, result, text_all, observe_all, AdmitsAll}
use wasrisc.Session.Refines.{follow-Shows}

-- The host has placed the input in its area.
abbrev pub HasInput : Input → Memory → Type 0
HasInput given m =
    ((k : ℕ) → Readable k → input_data m k ≡ given.bytes k) × (input_data_len m ≡ given.length)

abbrev pub zkvm_ends : Ends Zkvm
zkvm_ends = record { trap = trap; guest_shutdown = guest_shutdown }

module _ (wasm : Wasm) where
  abbrev pub session_guest : wasm.Linear → Program wasm.Linear Ending → Guest Zkvm
  session_guest = Ending.session_guest zkvm_target wasm zkvm_ends

  -- The last lines of the console.
  abbrev pub farewell : Ending → List ℕ
  farewell returns = codes "guest program completed\n"
  farewell shuts_down = []
  farewell (exits status) = codes "wasi_snapshot_preview1__proc_exit\nexit()\n"
  farewell (traps code) = codes "trap(..)\n" ++ trap_message code

  proc_exit-halted :
      (status : ℕ) (s : State Zkvm wasm.Linear)
      → machine_of (proc_exit zkvm_libc status s)
        ≡ halted (sent (codes "wasi_snapshot_preview1__proc_exit\nexit()\n") s.device)
  unfolding proc_exit print shown
  proc_exit-halted status s =
      rw (printf-sent (codes "wasi_snapshot_preview1__proc_exit\n") [] s.device, exit-halted)
        (ap (λ o. halted (record s.device { uart = o })) (append_assoc s.device.uart _ _))

  concluded-session :
      (m : wasm.Linear) (p : Program wasm.Linear Ending) (ending : Ending) (z : Zkvm)
      (s : State Zkvm wasm.Linear)
      → follow zkvm_target wasm p
          (record { device = begun (session_guest m p) z; memory = m; ticks = 1 })
        ≡ done ending s
      → concluded (session_guest m p) z (guest_run (session_guest m p) z)
        ≡ halted (sent (farewell ending) s.device)
  unfolding finish guest_shutdown shutdown
  concluded-session m p returns z s ran = rw ran refl
  concluded-session m p shuts_down z s ran =
      rw ran (ap (λ o. halted (record s.device { uart = o })) (sym (append-nil s.device.uart)))
  concluded-session m p (exits status) z s ran = rw (ran, proc_exit-halted status s) refl
  concluded-session m p (traps code) z s ran = rw (ran, trap-halted code s.device) refl

  -- On a machine with the given input that has printed no value yet, a guest whose calls are within
  -- the target's bounds, however it ends, brings `main` to halt: the console has the first message,
  -- what the calls print and the last lines, and the host finds the guest's values in the output area.
  pub main-session :
      (given : Input) (m : wasm.Linear) (p : Program wasm.Linear Ending) (z : Zkvm)
      → z.output_count ≡ 0
      → HasInput given z.memory
      → AdmitsAll zkvm_target wasm given p (first_view m)
      → (t : Zkvm) × (main (session_guest m p) z ≡ halted t)
        × (t.uart
            ≡ z.uart
              ++ (codes "instantiating guest program...\n"
                  ++ (text_all zkvm_target wasm given p (first_view m)
                      ++ farewell (result wasm given p (first_view m)))))
        × Holds (observe_all wasm given p (first_view m)).values t
  main-session given m p z fresh (bytes, len) ok =
      let (e, s, ran, (came, printed, shows)) =
        follow-Shows zkvm_target wasm given p (first_view m) 0
          (record { device = begun (session_guest m p) z; memory = m; ticks = 1 })
          (record {
            memory = refl;
            values = record {
              held = record {
                counted = fresh;
                count_word = inl refl;
                words = λ i h. absurd (omega arith);
              };
              bytes = bytes;
              len = len;
            };
            calls = refl;
            room = tt;
          })
          ok in
      (
        sent (farewell e) s.device,
        main-concluded (session_guest m p) z ∙ concluded-session m p e z s ran,
        ap₂ (λ o e. o ++ farewell e) printed came
            ∙ append_assoc (z.uart ++ codes "instantiating guest program...\n") _ _
            ∙ append_assoc z.uart _ _,
        record {
          counted = shows.values.held.counted;
          count_word = shows.values.held.count_word;
          words = shows.values.held.words;
        },
      )
