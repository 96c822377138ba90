-- ===== src/Amd64/Whole.antt =====
-- A whole run of platform/amd64: `main` with the arguments, and a guest that follows a program.
use mathlib.Core.Option.{map}
use mathlib.Core.Path.{ap₂}
use wasrisc.Amd64.{TestInput, Stdio, char_value, element, indexed, input_data, input_data_len}
use wasrisc.Amd64.Copies.{Supplies, holding, choose_input-holding}
use wasrisc.Amd64.Input.{element-append}
use wasrisc.Amd64.Port.{guest_shutdown, trap, main}
use wasrisc.Base.{
  ℕ, ◌+◌, ◌<◌, ◌≡◌, refl, sym, ap, length-append, ◌∙◌, List, [], ◌∷◌, ◌++◌, some, codes,
  append_assoc, append-nil, length, arith,
}
use wasrisc.Host.{Wasm}
use wasrisc.Hosted.{Texts, exited, aborted}
use wasrisc.Hosted.Library.{kept}
use wasrisc.Machine.{Run, done, halted}
use wasrisc.Machine.Word.{u8}
use wasrisc.Session.{Target, Program, follow}
use wasrisc.Session.Ending
use wasrisc.Session.Ending.{returns, shuts_down, exits, traps, Ends, finish, session_guest}
use wasrisc.Session.View.{first_view, result, text_all, AdmitsAll}
use wasrisc.Session.Refines.{follow-Shows}
use wasrisc.Wasi.{State, print}
use wasrisc.Wasi.Init.{wasi_init}
use wasrisc.Wasi.Stubs.Process.{proc_exit}
use wasrisc.Zkvm.Port.{Guest}
use wasrisc.Amd64.Session.{with_globals, amd64_target, amd64_ends, input_of}

abbrev saying : List ℕ → TestInput → TestInput
saying out s = record s { process = record s.process { stdout = s.process.stdout ++ out } }

-- What a run comes to from the state in which the calls leave the program. The guest goes on after
-- `shutdown`, and here returns.
unfoldable pub outcome : Texts → Ending.Ending → TestInput → Run TestInput ℕ
outcome texts returns s = done 0 s
outcome texts shuts_down s = done 0 (saying (codes "shutdown()\n") s)
outcome texts (exits status) s = halted (record s {
  process = record s.process {
    stdout = s.process.stdout ++ texts.formatted (codes "wasi_snapshot_preview1__proc_exit\n") [];
    ending = some (exited (u8 status));
  };
})
outcome texts (traps code) s = halted (record s {
  process = record s.process {
    stderr = s.process.stderr ++ (codes "TRAP: " ++ (texts.trap_description code ++ codes "\n"));
    ending = some aborted;
  };
})

-- A program of which only the standard output has changed.
same_but_stdout :
    (texts : Texts) (s t : TestInput) (out : List ℕ)
    → t.process.stdout ≡ out
    → kept texts with_globals t ≡ kept texts with_globals s
    → t ≡ record s { process = record s.process { stdout = out } }
same_but_stdout texts s t out e same =
    ap₂
      (λ o k. record {
        test_input_data = k.0.0;
        test_input_data_len = k.0.1;
        process = record { stdout = o; stderr = k.1; ending = k.2 };
      })
      e same

input_data-holding :
    (notice bytes : List ℕ) (s : TestInput) (k : ℕ)
    → k < length bytes + 1
    → input_data (holding notice bytes s) k ≡ some ((input_of bytes).bytes k)
unfolding input_data indexed
input_data-holding notice bytes s k inside =
    let buffer = bytes ++ 0 ∷ [] in
    ap (λ b. map char_value (element b k)) (sym (append-nil buffer))
    ∙ ap (map char_value) (element-append buffer [] k (omega (arith, length-append bytes (0 ∷ []))))

module _ (texts : Texts) (wasm : Wasm) (m : wasm.Linear)
    (p : Program wasm.Linear Ending.Ending) where
  abbrev pub target_of : List ℕ → TestInput → Target
  target_of bytes s = amd64_target texts s (length bytes + 1)

  abbrev pub guest_of : List ℕ → TestInput → Guest TestInput
  guest_of bytes s = session_guest (target_of bytes s) wasm (amd64_ends texts) m p

  main-outcome :
      (stdio : Stdio) (argv : List (List ℕ)) (notice bytes : List ℕ) (s : TestInput)
      (ending : Ending.Ending) (t : State TestInput wasm.Linear)
      → Supplies stdio argv notice bytes
      → follow (target_of bytes (holding notice bytes s)) wasm p (record {
        device = saying (codes "instantiating guest program...\n") (holding notice bytes s);
        memory = m;
        ticks = 1;
      })
        ≡ done ending t
      → main stdio (guest_of bytes (holding notice bytes s)) argv s ≡ outcome texts ending t.device
  unfolding main wasi_init outcome finish proc_exit guest_shutdown trap print
  main-outcome stdio argv notice bytes s returns t supplies ran =
      rw (choose_input-holding stdio argv notice bytes s supplies, ran) refl
  main-outcome stdio argv notice bytes s shuts_down t supplies ran =
      rw (choose_input-holding stdio argv notice bytes s supplies, ran) refl
  main-outcome stdio argv notice bytes s (exits status) t supplies ran =
      rw (choose_input-holding stdio argv notice bytes s supplies, ran) refl
  main-outcome stdio argv notice bytes s (traps code) t supplies ran =
      rw (choose_input-holding stdio argv notice bytes s supplies, ran) refl

  -- The arguments lead to an input, and the calls of a guest are within the bounds of the code and read
  -- the input at most up to its terminator. Then `main` prints the notice, if the named file is not
  -- opened or is empty, the first line and the text of the calls, and, as the guest ends, returns 0;
  -- says `shutdown()` and returns 0; names `proc_exit` and exits with the low byte of the guest's
  -- status; or describes the trap on the standard error and aborts. Nothing else of the program has
  -- changed but the input, which is the one that the arguments lead to.
  pub main-guest_of :
      (stdio : Stdio) (argv : List (List ℕ)) (notice bytes : List ℕ) (s : TestInput)
      → Supplies stdio argv notice bytes
      → AdmitsAll (target_of bytes (holding notice bytes s)) wasm (input_of bytes) p (first_view m)
      → main stdio (guest_of bytes (holding notice bytes s)) argv s
        ≡ outcome texts (result wasm (input_of bytes) p (first_view m)) (
            holding
              (notice
                ++ (codes "instantiating guest program...\n"
                    ++ text_all
                        (target_of bytes (holding notice bytes s))
                        wasm
                        (input_of bytes)
                        p
                        (first_view m)))
              bytes
              s)
  unfolding input_data_len
  main-guest_of stdio argv notice bytes s supplies ok =
      let h = holding notice bytes s in
      let (e, t, ran, (came, printed, shows)) =
        follow-Shows (target_of bytes h) wasm (input_of bytes) p (first_view m) 0
          (record {
            device = saying (codes "instantiating guest program...\n") h;
            memory = m;
            ticks = 1;
          })
          (record {
            memory = refl;
            values = (input_data-holding notice bytes s, refl, refl);
            calls = refl;
            room = tt;
          })
          ok in
      main-outcome stdio argv notice bytes s e t supplies ran
      ∙ ap₂ (outcome texts) came (
          same_but_stdout texts h t.device _
            (printed
              ∙ append_assoc (s.process.stdout ++ notice) _ _
              ∙ append_assoc s.process.stdout notice _)
            shows.values.2)
