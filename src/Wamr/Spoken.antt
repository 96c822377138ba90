-- ===== src/Wamr/Spoken.antt =====
-- What the programs have printed when they end, and how they end.
use mathlib.Core.Path.{subst}
use wasrisc.Base.{
  ℕ, ◌≡◌, ◌⊎◌, inl, inr, refl, sym, ◌∙◌, List, [], ◌∷◌, ◌++◌, Option, none, some, Bool, true, false,
  codes, append_assoc,
}
use wasrisc.Machine.{Run, done, halted, ◌>>◌}
use wasrisc.Wamr.{
  Execution, finishes, fails, shuts_down, Runtime, Event, set_log_level, full_init, load,
  instantiate, execute_main, get_exception, unload, Host, after_execute, after_instantiate,
  after_load, after_init, qemu_main, unload_module, call, stack_size, unstarted,
}

module _ (rt : Runtime) where
  abbrev unloading : ℕ → List ℕ
  unloading m = codes "wasm_runtime_unload...\n" ++ rt.says (unload m)

  -- What is printed from the call that runs the guest on.
  unfoldable pub execution : ℕ → ℕ → Execution → List ℕ
  execution m i finishes = rt.says (execute_main i) ++ unloading m
  execution m i (fails exception) =
      rt.says (execute_main i)
      ++ (codes "error executing main\n"
          ++ (rt.says (get_exception i)
              ++ (codes "exception: " ++ (exception ++ (codes "\n" ++ unloading m)))))
  execution m i shuts_down = rt.says (execute_main i)

  -- What is printed in a run in which no call fails but the guest.
  abbrev pub transcript : ℕ → ℕ → List ℕ
  transcript m i =
      rt.says set_log_level
      ++ (rt.says (full_init (codes "testmodule") (codes "shutdown" ∷ []))
          ++ (rt.says load
              ++ (rt.says (instantiate m stack_size) ++ execution m i (rt.executes i))))

  -- One of the calls before the guest runs fails.
  pub data Fails : Type 0 where
    at_init : rt.inits ≡ false → Fails
    at_load : rt.inits ≡ true → rt.loads ≡ none → Fails
    at_instantiate :
        (m : ℕ) → rt.inits ≡ true → rt.loads ≡ some m → rt.instantiates m ≡ none → Fails

-- The program returns, or the guest shuts the machine down, and `text` has been printed.
abbrev pub Through : Run Host ℕ → List ℕ → Type 0
Through r text =
    (h : Host) × ((r ≡ done 0 h) ⊎ (r ≡ halted h)) × (h.status ≡ none) × (h.stdout ≡ text)

-- A call that `exit` ends with status 1.
abbrev pub Exits : Run Host ℕ → Type 0
Exits r = (h : Host) × (r ≡ halted h) × (h.status ≡ some 1)

module _ (rt : Runtime) (pointer_text : List ℕ) where
  execute-Through :
      (m i : ℕ) (x : Execution) (h : Host)
      → h.status ≡ none
      → Through
          ((call rt (execute_main i) >> after_execute rt pointer_text m i x) h)
          (h.stdout ++ execution rt m i x)
  unfolding after_execute unload_module execution
  execute-Through m i finishes h running = (_, inl refl, running, simp append_assoc)
  execute-Through m i (fails exception) h running = (_, inl refl, running, simp append_assoc)
  execute-Through m i shuts_down h running = (_, inr refl, running, refl)

  abbrev after : Event → Host → Host
  after e h = record h { calls = h.calls ++ e ∷ []; stdout = h.stdout ++ rt.says e }

  abbrev initialised : Host
  initialised =
      after (full_init (codes "testmodule") (codes "shutdown" ∷ [])) (after set_log_level unstarted)

  -- What holds of a run holds of it as the runtime answers.
  answers_init :
      (P : Run Host ℕ → Type 0) (ok : Bool)
      → rt.inits ≡ ok
      → P (after_init rt pointer_text ok initialised)
      → P (qemu_main rt pointer_text unstarted)
  unfolding qemu_main
  answers_init P ok inits p =
      subst (λ o. P (after_init rt pointer_text o initialised)) (sym inits) p

  answers_load :
      (P : Run Host ℕ → Type 0) (m : Option ℕ)
      → rt.inits ≡ true
      → rt.loads ≡ m
      → P (after_load rt pointer_text m (after load initialised))
      → P (qemu_main rt pointer_text unstarted)
  unfolding after_init
  answers_load P m inits loads p =
      answers_init P true inits
        (subst (λ o. P (after_load rt pointer_text o (after load initialised))) (sym loads) p)

  answers_instantiate :
      (P : Run Host ℕ → Type 0) (m : ℕ) (i : Option ℕ)
      → rt.inits ≡ true
      → rt.loads ≡ some m
      → rt.instantiates m ≡ i
      → P (
          after_instantiate rt pointer_text m i
            (after (instantiate m stack_size) (after load initialised)))
      → P (qemu_main rt pointer_text unstarted)
  unfolding after_load
  answers_instantiate P m i inits loads instantiates p = answers_load P (some m) inits loads (
      subst
        (λ o. P (
          after_instantiate rt pointer_text m o
            (after (instantiate m stack_size) (after load initialised))))
        (sym instantiates) p)

  -- When the runtime is initialised, and the module loaded and instantiated, the program returns 0 or
  -- is shut down by its guest, and has printed the transcript.
  pub qemu_main-Through :
      (m i : ℕ)
      → rt.inits ≡ true
      → rt.loads ≡ some m
      → rt.instantiates m ≡ some i
      → Through (qemu_main rt pointer_text unstarted) (transcript rt m i)
  unfolding after_instantiate
  qemu_main-Through m i inits loads instantiates =
      answers_instantiate (λ r. Through r (transcript rt m i)) m (some i) inits loads instantiates
        (let (h, ends, running, said) =
            execute-Through m i (rt.executes i)
              (after (instantiate m stack_size) (after load initialised)) refl in
          (h, ends, running, said ∙ simp append_assoc))

  -- Then the program calls `exit` with status 1.
  pub qemu_main-Exits : Fails rt → Exits (qemu_main rt pointer_text unstarted)
  unfolding after_init after_load after_instantiate
  qemu_main-Exits (at_init inits) = answers_init Exits false inits (_, refl, refl)
  qemu_main-Exits (at_load inits loads) = answers_load Exits none inits loads (_, refl, refl)
  qemu_main-Exits (at_instantiate m inits loads instantiates) =
      answers_instantiate Exits m none inits loads instantiates (_, refl, refl)
