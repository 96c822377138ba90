-- ===== src/Zkvm/Session/AnyGuest.antt =====
-- A whole run of the zkvm with a guest of which only the number of values is bounded.
use wasrisc.Base.{ℕ, ◌+◌, ◌≤◌, arith, ◌≡◌, ◌⊎◌, inl, inr, refl, [], ◌++◌, codes}
use wasrisc.Host.{Wasm}
use wasrisc.Machine.{Run, done, halted, hangs, undefined, Settles, Settles-bind}
use wasrisc.Wasi.{State}
use wasrisc.Wasi.Stubs.Process.{proc_exit}
use wasrisc.Zkvm.{Zkvm, shutdown, capacity}
use wasrisc.Zkvm.Imports.{guest_shutdown}
use wasrisc.Zkvm.Port.{main, exit, trap, trap_message}
use wasrisc.Zkvm.Port.Endings.{
  begun, guest_run, concluded, main-concluded, exit-halted, trap-halted,
}
use wasrisc.Session.{Program, machine_of}
use wasrisc.Zkvm.Session.{zkvm_target}
use wasrisc.Zkvm.Session.Intact.{Intact, Intact-refl, Intact-printed, HandsAtMost}
use wasrisc.Zkvm.Session.Keeps.{
  Keeps, Kept, bind-Keeps, on_device-Keeps, print-Keeps, follow-Settles,
}
use wasrisc.Session.Ending.{Ending, returns, shuts_down, exits, traps, finish, session}
use wasrisc.Zkvm.Session.Whole.{zkvm_ends, session_guest}

-- How a run ends that came to behaviour which C defines.
abbrev pub Halts : {A : Type 0} → Zkvm → Run Zkvm A → Type 0
Halts z r = (t : Zkvm) × (r ≡ halted t) × Intact 0 z t

machine_of-Settles :
    {Linear A : Type 0} (z : Zkvm) (r : Run (State Zkvm Linear) A)
    → Settles r (λ s. Intact 0 z s.device)
    → Settles (machine_of r) (Intact 0 z)
machine_of-Settles z (done a s) h = h
machine_of-Settles z (halted s) h = h
machine_of-Settles z (hangs s) h = h
machine_of-Settles z undefined h = h

module _ (wasm : Wasm) (z : Zkvm) where
  finish-Keeps : (ending : Ending) → Keeps wasm 0 z (finish zkvm_target wasm zkvm_ends ending)
  unfolding finish guest_shutdown shutdown proc_exit
  finish-Keeps returns s h = h
  finish-Keeps shuts_down s h = h
  finish-Keeps (exits status) s h =
      bind-Keeps wasm 0 z _ _ (print-Keeps wasm 0 z _ [])
        (λ _.
          on_device-Keeps wasm 0 z (exit status)
            λ t h'. rw (exit-halted status t) (Intact-printed (codes "exit()\n") h' refl refl))
        s h
  finish-Keeps (traps code) s h =
      on_device-Keeps wasm 0 z (trap code)
        (λ t h'.
          rw (trap-halted code t)
            (Intact-printed (codes "trap(..)\n" ++ trap_message code) h' refl refl))
        s h

  concluded-Halts :
      (m : wasm.Linear) (p : Program wasm.Linear Ending) (r : Run Zkvm (Unit {0}))
      → Settles r (Intact 0 z)
      → Halts z (concluded (session_guest wasm m p) z r)
        ⊎ (concluded (session_guest wasm m p) z r ≡ undefined)
  concluded-Halts m p (done _ t) h =
      inl (_, refl, Intact-printed (codes "guest program completed\n") h refl refl)
  concluded-Halts m p (halted t) h = inl (t, refl, h)
  concluded-Halts m p (hangs t) h = absurd h
  concluded-Halts m p undefined h = inr refl

  -- Whatever a guest computes, calls and makes of the results, and however it ends, while the output
  -- area has room for the values that it can hand over: `main` on the zkvm neither returns nor runs
  -- for ever. It halts, with the memory below the output area, where the input lies, as it was and
  -- with what the console had shown still the start of what it shows, or comes to behaviour that C
  -- leaves undefined.
  pub main-Halts :
      (m : wasm.Linear) (p : Program wasm.Linear Ending) (n : ℕ)
      → HandsAtMost n p
      → z.output_count + n ≤ capacity
      → Halts z (main (session_guest wasm m p) z) ⊎ (main (session_guest wasm m p) z ≡ undefined)
  main-Halts m p n few room =
      let guest = session_guest wasm m p in
      let first : Intact n z (begun guest z) =
        Intact-printed _ (Intact-refl n z (omega arith)) refl refl in
      let run = session zkvm_target wasm zkvm_ends m p (begun guest z) in
      let done : Settles run (Intact 0 z) = machine_of-Settles z _ (
        Settles-bind (Kept wasm 0 z) (Kept wasm 0 z) _ _ (follow-Settles wasm z p n _ few first)
          (λ t h. h) finish-Keeps) in
      let ran : Settles (guest_run guest z) (Intact 0 z) =
        Settles-bind (Intact 0 z) (Intact 0 z) run _ done (λ t h. h) λ _ t h. h in
      rw (main-concluded guest z) (concluded-Halts m p (guest_run guest z) ran)
