-- ===== src/Wamr/Lines.antt =====
-- The programs print whole lines.
use wasrisc.Base.{
  ℕ, ◌≡◌, refl, ap, ◌∙◌, List, [], ◌∷◌, ◌++◌, Option, none, some, Bool, true, false, codes,
  EndsLine, EndsLine-append, ClosesLine, ClosesLine-append, last_byte,
}
use wasrisc.Machine.{Run, done, halted, hangs, undefined, Cmd, pure, ◌>>◌}
use wasrisc.Wamr.{
  Execution, finishes, fails, shuts_down, Runtime, Event, set_log_level, full_init, load,
  instantiate, execute_main, get_exception, unload, Host, after_execute, after_instantiate,
  after_load, after_init, qemu_main, unload_module, call, print, exit, stack_size, unstarted,
}

-- What is printed in a run up to its end, if it has one.
abbrev pub printed : Run Host ℕ → List ℕ
printed (done r h) = h.stdout
printed (halted h) = h.stdout
printed (hangs h) = h.stdout
printed undefined = []

-- A run that begins behind whole lines ends behind whole lines.
record WholeLines (m : Cmd Host ℕ) : Type 0 where
  whole : (h : Host) → EndsLine h.stdout → EndsLine (printed (m h))

print-WholeLines :
    (text : List ℕ) {m : Cmd Host ℕ} → ClosesLine text → WholeLines m → WholeLines (print text >> m)
print-WholeLines text closes next = record {
  whole = λ h before.
      next.whole (record h { stdout = h.stdout ++ text })
        (ClosesLine-append h.stdout text closes 10);
}

-- What leaves the state as it is.
still-WholeLines : {m : Cmd Host ℕ} → ((h : Host) → printed (m h) ≡ h.stdout) → WholeLines m
still-WholeLines same = record { whole = λ h before. ap (last_byte 10) (same h) ∙ before }

exit-WholeLines : WholeLines (exit 1)
exit-WholeLines = still-WholeLines λ h. refl

-- A message that a text and a newline end.
message : (xs ys : List ℕ) → ClosesLine (xs ++ (ys ++ codes "\n"))
message xs ys =
    ClosesLine-append xs (ys ++ codes "\n") (ClosesLine-append ys (codes "\n") λ c. refl)

module _ (rt : Runtime) (pointer_text : List ℕ) (says : (e : Event) → EndsLine (rt.says e)) where
  call-WholeLines : (e : Event) {m : Cmd Host ℕ} → WholeLines m → WholeLines (call rt e >> m)
  call-WholeLines e next = record {
    whole = λ h before.
        next.whole (record h { calls = h.calls ++ e ∷ []; stdout = h.stdout ++ rt.says e })
          (EndsLine-append h.stdout (rt.says e) before (says e));
  }

  unload-WholeLines : (m : ℕ) → WholeLines (unload_module rt pointer_text m)
  unfolding unload_module
  unload-WholeLines m =
      print-WholeLines (codes "wasm_runtime_unload...\n") (λ c. refl)
        (call-WholeLines (unload m) {m = pure 0} (still-WholeLines λ h. refl))

  execute-WholeLines : (m i : ℕ) (x : Execution) → WholeLines (after_execute rt pointer_text m i x)
  unfolding after_execute
  execute-WholeLines m i finishes = unload-WholeLines m
  execute-WholeLines m i (fails exception) =
      print-WholeLines _ (λ c. refl)
        (call-WholeLines (get_exception i)
          (print-WholeLines _ (message (codes "exception: ") exception) (unload-WholeLines m)))
  execute-WholeLines m i shuts_down = still-WholeLines λ h. refl

  instantiate-WholeLines :
      (m : ℕ) (i : Option ℕ) → WholeLines (after_instantiate rt pointer_text m i)
  unfolding after_instantiate
  instantiate-WholeLines m none =
      let reason : List ℕ = codes ": " ++ (rt.error_buf ++ codes "\n") in
      let text : List ℕ =
        codes "wasm_runtime_instantiate failed as module_inst=" ++ (pointer_text ++ reason) in
      print-WholeLines text
        (ClosesLine-append (codes "wasm_runtime_instantiate failed as module_inst=")
          (pointer_text ++ reason)
          (ClosesLine-append pointer_text reason (message (codes ": ") rt.error_buf)))
        exit-WholeLines
  instantiate-WholeLines m (some i) =
      call-WholeLines (execute_main i) (execute-WholeLines m i (rt.executes i))

  load-WholeLines : (m : Option ℕ) → WholeLines (after_load rt pointer_text m)
  unfolding after_load
  load-WholeLines none =
      print-WholeLines (codes "runtime load module failed: " ++ (rt.error_buf ++ codes "\n"))
        (message (codes "runtime load module failed: ") rt.error_buf) exit-WholeLines
  load-WholeLines (some m) =
      call-WholeLines (instantiate m stack_size) (instantiate-WholeLines m (rt.instantiates m))

  init-WholeLines : (ok : Bool) → WholeLines (after_init rt pointer_text ok)
  unfolding after_init
  init-WholeLines true = call-WholeLines load (load-WholeLines rt.loads)
  init-WholeLines false =
      print-WholeLines (codes "runtime init failed\n") (λ c. refl) exit-WholeLines

  -- When each call of the runtime prints whole lines, so does the program, however the runtime answers.
  pub qemu_main-WholeLines : EndsLine (printed (qemu_main rt pointer_text unstarted))
  unfolding qemu_main
  qemu_main-WholeLines =
      let lines : WholeLines (qemu_main rt pointer_text) = call-WholeLines set_log_level (
        call-WholeLines (full_init (codes "testmodule") (codes "shutdown" ∷ []))
          (init-WholeLines rt.inits)) in
      lines.whole unstarted refl
