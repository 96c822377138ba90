-- ===== src/RiscvQemuUser/Session.antt =====
-- A process under the user-mode emulator as a target for a guest's calls, and its whole run.
use mathlib.Core.Path.{ap₂}
use wasrisc.Base.{ℕ, ◌≡◌, refl, ap, ◌∙◌, List, [], ◌∷◌, ◌++◌, some, codes, append_assoc}
use wasrisc.Host.{Wasm}
use wasrisc.Hosted.{Process, Texts, exited, aborted}
use wasrisc.Hosted.Library.{Holder, hosted_libc, kept}
use wasrisc.Machine.{Run, done, halted, Ensures}
use wasrisc.Machine.Word.{u8}
use wasrisc.RiscvQemu.Hex.{printed_line, before_nul-hex_line}
use wasrisc.RiscvQemuUser.{guest_printk, guest_shutdown, input_data, input_data_len, trap, main}
use wasrisc.Session.{Target, Input, Program, follow}
use wasrisc.Session.Ending
use wasrisc.Session.Ending.{returns, shuts_down, exits, traps, Ends, finish, session_guest}
use wasrisc.Session.View.{first_view, result, text_all, AdmitsAll}
use wasrisc.Session.Refines.{follow-Shows}
use wasrisc.Wasi.{State, print}
use wasrisc.Wasi.Init.{wasi_init}
use wasrisc.Zkvm.Port.{Guest}
use wasrisc.Wasi.Stubs.Process.{proc_exit}

-- The state is the process.
abbrev pub alone : Holder
alone = record {
  State = Process;
  process = λ p. p;
  with_process = λ p s. p;
  Globals = Unit {0};
  globals = λ s. tt;
  process-with_process = λ p s. refl;
  globals-with_process = λ p s. refl;
}

module _ (texts : Texts) (begun : Process) where
  -- The process, begun as given, has no input, and nothing but its standard output has changed.
  abbrev pub Since : Input → List ℕ → Process → Type 0
  Since given vs p =
      ((k : ℕ) → input_data k ≡ given.bytes k)
      × (input_data_len ≡ given.length)
      × (kept texts alone p ≡ kept texts alone begun)

  pub user_printk_lem :
      (given : Input) (v n : ℕ) (vs : List ℕ) (p : Process)
      → Since given vs p
      → Unit {0}
      → Unit {0}
      → Ensures (guest_printk v p) (λ _ q.
        (q.stdout ≡ p.stdout ++ (printed_line v ++ 10 ∷ []))
        × Since given (vs ++ v ∷ []) q
        × Unit {0})
  unfolding guest_printk
  user_printk_lem given v n vs p h _ _ =
      (_, _, refl, (ap (λ l. p.stdout ++ (l ++ 10 ∷ [])) (before_nul-hex_line v), h, tt))

  abbrev pub user_target : Target
  user_target = record {
    libc = hosted_libc texts alone;
    guest_printk = guest_printk;
    printk_text = λ v. printed_line v ++ 10 ∷ [];
    input_data = λ k p. done (input_data k) p;
    input_data_len = λ p. input_data_len;
    Holds = Since;
    Readable = λ k. Unit {0};
    Takes = λ vs v. Unit {0};
    Holds_rest = λ given vs p q e h. (h.0, h.1, e ∙ h.2);
    input_data_lem = λ given vs p k h _. ap (λ v. done v p) (h.0 k);
    input_data_len_lem = λ given vs p h. h.1;
    guest_printk_lem = user_printk_lem;
  }

  abbrev pub user_ends : Ends Process
  user_ends = record { trap = trap texts; guest_shutdown = guest_shutdown }

  -- What a run comes to from the state in which the calls leave the process.
  unfoldable pub outcome : Ending.Ending → Process → Run Process ℕ
  outcome returns p = done 0 (record p { stdout = p.stdout ++ codes "guest program completed\n" })
  outcome shuts_down p = halted (record p { ending = some (exited 0) })
  outcome (exits status) p = halted (record p {
    stdout = p.stdout ++ texts.formatted (codes "wasi_snapshot_preview1__proc_exit\n") [];
    ending = some (exited (u8 status));
  })
  outcome (traps code) p = halted (record p {
    stderr = p.stderr ++ (codes "TRAP: " ++ (texts.trap_description code ++ codes "\n"));
    ending = some aborted;
  })

-- A process of which only the standard output has changed.
same_but_stdout :
    (texts : Texts) (p q : Process) (out : List ℕ)
    → q.stdout ≡ out
    → kept texts alone q ≡ kept texts alone p
    → q ≡ record p { stdout = out }
same_but_stdout texts p q out e same =
    ap₂ (λ o k. record { stdout = o; stderr = k.1; ending = k.2 }) e same

abbrev pub no_input : Input
no_input = record { bytes = input_data; length = input_data_len }

module _ (texts : Texts) (wasm : Wasm) (m : wasm.Linear)
    (p : Program wasm.Linear Ending.Ending) where
  abbrev pub guest_of : Process → Guest Process
  guest_of q = session_guest (user_target texts q) wasm (user_ends texts q) m p

  abbrev announced : Process → Process
  announced q = record q { stdout = q.stdout ++ codes "instantiating guest program...\n" }

  main-outcome :
      (ending : Ending.Ending) (q : Process) (s : State Process wasm.Linear)
      → follow (user_target texts q) wasm p (record { device = announced q; memory = m; ticks = 1 })
        ≡ done ending s
      → main (guest_of q) q ≡ outcome texts q ending s.device
  unfolding main wasi_init outcome finish proc_exit guest_shutdown trap print
  main-outcome returns q s ran = rw ran refl
  main-outcome shuts_down q s ran = rw ran refl
  main-outcome (exits status) q s ran = rw ran refl
  main-outcome (traps code) q s ran = rw ran refl

  -- A guest whose calls are within the bounds of the code brings `main` to print the first line and the
  -- text of the calls, and then, as the guest ends: to print the last line and return 0; to exit with
  -- status 0; to name `proc_exit` and exit with the low byte of the guest's status; or to describe the
  -- trap on the standard error and abort. Nothing else of the process changes.
  pub main-user_target :
      (q : Process)
      → AdmitsAll (user_target texts q) wasm no_input p (first_view m)
      → main (guest_of q) q
        ≡ outcome texts q (result wasm no_input p (first_view m)) (record q {
          stdout =
              q.stdout
              ++ (codes "instantiating guest program...\n"
                  ++ text_all (user_target texts q) wasm no_input p (first_view m));
        })
  main-user_target q ok =
      let (e, s, ran, (came, printed, shows)) =
        follow-Shows (user_target texts q) wasm no_input p (first_view m) 0
          (record { device = announced q; memory = m; ticks = 1 })
          (record { memory = refl; values = (λ k. refl, refl, refl); calls = refl; room = tt })
          ok in
      main-outcome e q s ran
      ∙ ap₂ (outcome texts q) came
          (same_but_stdout texts q s.device _ (printed ∙ append_assoc q.stdout _ _) shows.values.2)
