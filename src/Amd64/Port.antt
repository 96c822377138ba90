-- ===== src/Amd64/Port.antt =====
-- platform/amd64: main.c, and the imports of custom_imports.c that print.
use wasrisc.Amd64.{TestInput, Stdio, read_input_data}
use wasrisc.Base.{
  ℕ, ◌+◌, ◌*◌, ◌++◌, List, [], ◌∷◌, some, codes, length, get_or, not, ◌&&◌, ◌==◌, Bool,
  if◌then◌else◌,
}
use wasrisc.Hosted.{Process, Texts, print, print_error, abort, same_text}
use wasrisc.Machine.{Cmd, pure, over, ◌>>◌}
use wasrisc.Machine.Word.{u32}
use wasrisc.Wasi.Init.{wasi_init}
use wasrisc.Zkvm.Port.{Guest, Trap}

abbrev pub on_process : {A : Type 0} → Cmd Process A → Cmd TestInput A
on_process m s = over (λ p s'. record s' { process = p }) (m s.process) s

module _ (texts : Texts) where
  -- `p` is the address of the instance.
  unfoldable pub testfunc : ℕ → ℕ → ℕ → Cmd TestInput ℕ
  testfunc p a b =
      on_process
        (print (texts.formatted (codes "testmodule__testfunc(%p, %x, %x)\n") (p ∷ a ∷ b ∷ [])))
      >> pure (u32 (a + b))

  unfoldable pub testfunc2 : ℕ → ℕ → ℕ → Cmd TestInput ℕ
  testfunc2 p a b =
      on_process
        (print (texts.formatted (codes "testmodule__testfunc2(%p, %x, %x)\n") (p ∷ a ∷ b ∷ [])))
      >> pure (u32 (a * b))

  unfoldable pub guest_printk : ℕ → Cmd TestInput (Unit {0})
  guest_printk x = on_process (print (texts.formatted (codes "PRINTK(%x)\n") (x ∷ [])))

  unfoldable pub trap : Trap → Cmd TestInput (Unit {0})
  trap code =
      on_process
        (print_error (codes "TRAP: " ++ (texts.trap_description code ++ codes "\n")) >> abort)

-- The guest may go on after it: the process is not ended.
unfoldable pub guest_shutdown : Cmd TestInput (Unit {0})
guest_shutdown = on_process (print (codes "shutdown()\n"))

unfoldable pub asks_file : List (List ℕ) → Bool
asks_file argv = (length argv == 3) && same_text (get_or argv 1 []) (codes "-i")

-- The input that `main` sets up before the guest runs.
unfoldable pub choose_input : Stdio → List (List ℕ) → TestInput → TestInput
choose_input stdio argv s =
    let default = record s {
      test_input_data = some (codes "test789" ++ 0 ∷ []);
      test_input_data_len = 7;
    } in
    if asks_file argv then read_input_data stdio (get_or argv 2 []) default else default

unfoldable pub main : Stdio → Guest TestInput → List (List ℕ) → Cmd TestInput ℕ
main stdio guest argv s =
    (if not wasi_init
        then (do on_process (print_error (codes "failed to init WASI\n")); pure 1)
        else do
          on_process (print (codes "instantiating guest program...\n"))
          guest.instantiate
          guest.start
          guest.free_instance
          pure 0)
      (choose_input stdio argv s)
