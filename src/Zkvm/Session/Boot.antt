-- ===== src/Zkvm/Session/Boot.antt =====
-- The zkvm from its reset on: startup.S, `main` and the guest.
use wasrisc.Base.{
  inl, ◌≤◌, ◌∙◌, ◌*◌, ℕ, ◌+◌, ◌-◌, ◌^◌, ◌<◌, ◌≡◌, refl, ap, codes, ◌∙◌, arith, ◌++◌, Option, none,
  some,
}
use wasrisc.Host.{Wasm}
use wasrisc.Machine.{and_then, halted, hangs, Cmd, ◌>>=◌}
use wasrisc.Machine.Memory.{Memory}
use wasrisc.Startup.{clear_bss, zkvm_width}
use wasrisc.Startup.Cleared.{clear_bss-IsCleared}
use wasrisc.Zkvm.{Zkvm}
use wasrisc.Zkvm.OutputBuffer.{Holds}
use wasrisc.Zkvm.Port.{Guest, main}
use wasrisc.Session.{Input, Program}
use wasrisc.Zkvm.Session.{zkvm_target}
use wasrisc.Session.View.{first_view, result, text_all, observe_all, AdmitsAll}
use wasrisc.Session.Ending.{Ending}
use wasrisc.Zkvm.{input_addr, ram_start}
use wasrisc.Zkvm.Imports.{input_data, input_data_len}
use wasrisc.Machine.Word.{u32}
use wasrisc.Machine.Memory.{Memory, load32}
use wasrisc.Zkvm.Session.Whole.{HasInput, session_guest, farewell, main-session}

-- What follows the loop. `outputCount` is a static without a first value, so it lies in the cleared
-- memory. Behind `main` the machine loops for ever.
unfoldable pub enter : Guest Zkvm → Option Memory → Cmd Zkvm (Unit {0})
enter guest none z = hangs z
enter guest (some m) z =
    (main guest >>= λ _ z'. hangs z') (record z { memory = m; output_count = 0 })

-- The linker gives the bounds of the BSS. The loop gets `rounds` rounds.
unfoldable pub start : ℕ → ℕ → ℕ → Guest Zkvm → Cmd Zkvm (Unit {0})
start bss_start bss_end rounds guest z =
    enter guest (clear_bss zkvm_width rounds bss_start bss_end z.memory) z

-- The input lies below the BSS.
HasInput-below :
    (given : Input) (m m' : Memory)
    → ((a : ℕ) → a < ram_start → m' a ≡ m a)
    → HasInput given m
    → HasInput given m'
unfolding input_data input_data_len load32
HasInput-below given m m' same (bytes, len) = (
  λ k ok.
      let below : u32 (input_addr + 4 * 4 + k) < ram_start = omega arith in
      same _ below ∙ bytes k ok,
  rw
      (
        same (input_addr + 4 * 2) (omega arith),
        same (input_addr + 4 * 2 + 1) (omega arith),
        same (input_addr + 4 * 2 + 2) (omega arith),
        same (input_addr + 4 * 2 + 3) (omega arith),
      )
      len,
)

module _ (wasm : Wasm) where
  -- From any state of the machine with the given input, a start whose loop has as many rounds as the
  -- BSS, which lies in RAM, has bytes and one more, with a guest whose calls are within the target's
  -- bounds, and which returns, exits, traps or shuts the machine down, comes to a halt: behind what the
  -- UART had sent, the console has the first message, what the calls print and the last lines, and the
  -- host finds the guest's values in the output area.
  pub start-session :
      (bss_start bss_end rounds : ℕ) (given : Input) (m : wasm.Linear)
      (p : Program wasm.Linear Ending) (z : Zkvm)
      → ram_start ≤ bss_start
      → bss_end + 1 < 2 ^ 64
      → bss_end - bss_start < rounds
      → HasInput given z.memory
      → AdmitsAll zkvm_target wasm given p (first_view m)
      → (t : Zkvm) × (start bss_start bss_end rounds (session_guest wasm m p) z ≡ halted t)
        × (t.uart
            ≡ z.uart
              ++ (codes "instantiating guest program...\n"
                  ++ (text_all zkvm_target wasm given p (first_view m)
                      ++ farewell wasm (result wasm given p (first_view m)))))
        × Holds (observe_all wasm given p (first_view m)).values t
  unfolding start enter
  start-session bss_start bss_end rounds given m p z above fits enough input ok =
      let (mem, cleared, outside) =
        clear_bss-IsCleared zkvm_width bss_end (omega arith) fits rounds bss_start z.memory
          enough in
      let ready = record z { memory = mem; output_count = 0 } in
      let (t, ran, shows, held) =
        main-session wasm given m p ready refl
          (HasInput-below given z.memory mem (λ a below. outside.kept a (inl (omega arith))) input)
          ok in
      (
        t,
        ap (λ o. enter (session_guest wasm m p) o z) cleared
            ∙ ap (λ r. and_then r (λ _ z'. hangs z')) ran,
        shows,
        held,
      )
