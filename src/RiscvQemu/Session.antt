-- ===== src/RiscvQemu/Session.antt =====
-- The QEMU machine as a target for a guest's calls, and its whole run from the call of `main` on.
use wasrisc.Base.{
  codes, append_assoc, ◌∙◌, [], ℕ, ◌+◌, ◌≤◌, ◌≡◌, refl, ap, arith, List, ◌++◌, length,
}
use wasrisc.Host.{Wasm}
use wasrisc.Machine.{Run, Cmd, and_then, done, Ensures, pure, halted, ◌>>◌}
use wasrisc.RiscvQemu.{Device}
use wasrisc.RiscvQemu.Endings.{
  start, main, trap, trap-reset, puts-plain, printf-plain, first_line, last_line,
}
use wasrisc.Console.Text.{shown}
use wasrisc.Session.Ending
use wasrisc.Session.Ending.{returns, shuts_down, exits, traps, Ends, finish}
use wasrisc.Wasi.{State, print}
use wasrisc.Wasi.Init.{wasi_init}
use wasrisc.Wasi.Stubs.Process.{proc_exit}
use wasrisc.RiscvQemu.Hex.{printed_line, length-printed_line, guest_printk_line}
use wasrisc.RiscvQemu.Imports.{exit, guest_shutdown, guest_printk, input_data, input_data_len}
use wasrisc.RiscvQemu.Library.{qemu_libc}
use wasrisc.RiscvQemu.Polling.{ready, printf}
use wasrisc.Session.{Target, Input, Program, machine_of}
use wasrisc.Session.View.{first_view, result, text_all, AdmitsAll}
use wasrisc.Session.Refines.{follow-Shows}
use wasrisc.Zkvm.Port.{Guest, trap_message}

pub qemu_printk_lem :
    (given : Input) (v n : ℕ) (vs : List ℕ) (d : Device)
    → ((k : ℕ) → input_data k ≡ given.bytes k) × (input_data_len ≡ given.length)
    → Unit {0}
    → length (printed_line v) + n ≤ ready d.lsr
    → Ensures (guest_printk v d) (λ _ e.
      (e.sent ≡ d.sent ++ printed_line v)
      × (((k : ℕ) → input_data k ≡ given.bytes k) × (input_data_len ≡ given.length))
      × (n ≤ ready e.lsr))
qemu_printk_lem given v n vs d h _ room =
    let (e, ran, sent, left) =
      guest_printk_line v n d (omega (arith, room, length-printed_line v)) in
    (tt, e, ran, (sent, h, left))

-- Its `printk` prints, and hands nothing over.
abbrev pub qemu_target : Target
qemu_target = record {
  libc = qemu_libc;
  guest_printk = guest_printk;
  printk_text = printed_line;
  input_data = λ k d. done (input_data k) d;
  input_data_len = λ d. input_data_len;
  Holds = λ given vs d. ((k : ℕ) → input_data k ≡ given.bytes k) × (input_data_len ≡ given.length);
  Readable = λ k. Unit {0};
  Takes = λ vs v. Unit {0};
  Holds_rest = λ given vs d e same h. h;
  input_data_lem = λ given vs d k h _. ap (λ v. done v d) (h.0 k);
  input_data_len_lem = λ given vs d h. h.1;
  guest_printk_lem = qemu_printk_lem;
}

-- It has no input.
abbrev pub no_input : Input
no_input = record { bytes = input_data; length = input_data_len }

abbrev pub qemu_ends : Ends Device
qemu_ends = record { trap = trap; guest_shutdown = guest_shutdown }

-- The last lines on the UART.
abbrev pub farewell : Ending.Ending → List ℕ
farewell returns = last_line
farewell shuts_down = codes "shutdown()\n"
farewell (exits status) = codes "wasi_snapshot_preview1__proc_exit\n"
farewell (traps code) = codes "trap(..)\n" ++ trap_message code

module _ (wasm : Wasm) where
  abbrev pub session_guest : wasm.Linear → Program wasm.Linear Ending.Ending → Guest Device
  session_guest = Ending.session_guest qemu_target wasm qemu_ends

  -- What follows the guest's `start`.
  abbrev closing : Cmd Device ℕ
  closing = pure tt >> (printf last_line [] >> pure 0)

  abbrev concluded : Run Device (Unit {0}) → Run Device (Unit {0})
  concluded r = and_then (and_then r (λ _. closing)) (λ _. exit 0)

  -- The end of a run from a state in which the calls leave the machine.
  concluded-farewell :
      (ending : Ending.Ending) (s : State Device wasm.Linear)
      → length (farewell ending) ≤ ready s.device.lsr
      → (t : Device) × (concluded (machine_of (finish qemu_target wasm qemu_ends ending s))
          ≡ halted t)
        × (t.sent ≡ s.device.sent ++ farewell ending)
  unfolding finish guest_shutdown proc_exit exit print
  concluded-farewell returns s room =
      let (_, t, ran, (sent, _)) =
        printf-plain last_line 0 s.device (unfold shown in refl) (omega arith) in
      (t, rw ran refl, sent)
  concluded-farewell shuts_down s room =
      let (_, t, ran, (sent, _)) =
        puts-plain (codes "shutdown()\n") 0 s.device (unfold shown in refl) (omega arith) in
      (t, rw ran refl, sent)
  concluded-farewell (exits status) s room =
      let (_, t, ran, (sent, _)) =
        printf-plain (codes "wasi_snapshot_preview1__proc_exit\n") 0 s.device (unfold shown in refl)
          (omega arith) in
      (t, rw ran refl, sent)
  concluded-farewell (traps code) s room =
      let (t, ran, sent) = trap-reset code s.device (omega arith) in (t, rw ran refl, sent)

  -- On a machine on which enough reads to come show the register empty, a guest whose calls are
  -- within the bounds of the code, and which returns, exits, traps or shuts the machine down, brings
  -- the machine to its reset, with the first line, the text of the calls and the last lines sent.
  pub start-sends :
      (m : wasm.Linear) (p : Program wasm.Linear Ending.Ending) (d : Device)
      → AdmitsAll qemu_target wasm no_input p (first_view m)
      → 31
          + (length (text_all qemu_target wasm no_input p (first_view m))
              + length (farewell (result wasm no_input p (first_view m))))
        ≤ ready d.lsr
      → (t : Device) × (start (session_guest m p) d ≡ halted t)
        × (t.sent
            ≡ d.sent
              ++ (first_line
                  ++ (text_all qemu_target wasm no_input p (first_view m)
                      ++ farewell (result wasm no_input p (first_view m)))))
  unfolding start main wasi_init
  start-sends m p d ok room =
      let text = text_all qemu_target wasm no_input p (first_view m) in
      let ending = result wasm no_input p (first_view m) in
      let (_, t, began, (sent, left)) =
        printf-plain first_line (length text + length (farewell ending)) d (unfold shown in refl)
          room in
      let (e, u, ran, (came, sent', shows)) =
        follow-Shows qemu_target wasm no_input p (first_view m) (length (farewell ending))
          (record { device = t; memory = m; ticks = 1 })
          (record { memory = refl; values = (λ k. refl, refl); calls = refl; room = left }) ok in
      let (v, ended, sent'') = concluded-farewell ending u shows.room in
      (
        v,
        rw (began, ran, came) ended,
        sent''
            ∙ ap (λ o. o ++ farewell ending) (sent' ∙ ap (λ o. o ++ text) sent)
            ∙ append_assoc (d.sent ++ first_line) text (farewell ending)
            ∙ append_assoc d.sent first_line (text ++ farewell ending),
      )
