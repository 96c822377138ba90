-- ===== src/RiscvWamrQemu/Start.antt =====
-- platform/riscv-wamr-qemu/startup.S with the `main` of platform/riscv-wamr-qemu/main.c, the runtime,
-- the C library and the system calls: the machine from its reset on.
use wasrisc.Base.{
  ℕ, ◌+◌, ◌-◌, ◌^◌, ◌≤◌, ◌<◌, ◌≡◌, ◌⊎◌, true, inl, inr, refl, ap, ◌∙◌, arith, List, ◌++◌, Option,
  none, some, length, EndsLine,
}
use wasrisc.Machine.{Run, done, halted, hangs, undefined, Cmd, and_then, ◌>>◌}
use wasrisc.Machine.Memory.{Memory}
use wasrisc.RiscvWamrQemu.{Board, Posix, exit}
use wasrisc.RiscvWamrQemu.Sending.{idle}
use wasrisc.RiscvWamrQemu.Stdout.{Stream, wire, send-wire}
use wasrisc.Startup.{clear_bss, wamr_width}
use wasrisc.Startup.Cleared.{clear_bss-IsCleared}
use wasrisc.Wamr.{Runtime, Host, Event, qemu_main, unstarted}
use wasrisc.Wamr.Lines.{printed, qemu_main-WholeLines}
use wasrisc.Wamr.Spoken.{transcript, qemu_main-Through, Exits, Fails, qemu_main-Exits}

-- The system reset, which `main` comes to when it returns, and the guest by the native function.
unfoldable pub shutdown : Cmd Board (Unit {0})
shutdown b = halted b

-- The `exit` of the C library ends with the call of `_exit`, which is not to return.
unfoldable pub leave : Option ℕ → Cmd Board (Unit {0})
leave none = shutdown
leave (some status) = exit status >> λ b. undefined

module _ (posix : Posix) (stream : Stream posix) where
  -- What follows a run of `main`, with what was printed in it, whose calls of `_write` are made here
  -- together.
  unfoldable pub conclude : Run Host ℕ → Cmd Board (Unit {0})
  conclude (done r h) = stream.send h.stdout >> shutdown
  conclude (halted h) = stream.send h.stdout >> leave h.status
  conclude (hangs h) = λ b. hangs b
  conclude undefined = λ b. undefined

  module _ (rt : Runtime) (pointer_text : List ℕ) where
    unfoldable pub enter : Option Memory → Cmd Board (Unit {0})
    enter none b = hangs b
    enter (some m) b = conclude (qemu_main rt pointer_text unstarted) (record b { memory = m })

    -- The linker gives the bounds of the BSS. The loop gets `rounds` rounds.
    unfoldable pub start : ℕ → ℕ → ℕ → Cmd Board (Unit {0})
    start bss_start bss_end rounds b =
        enter (clear_bss wamr_width rounds bss_start bss_end b.memory) b

module _ (posix : Posix) (stream : Stream posix) where
  conclude-shuts_down :
      (r : Run Host ℕ) (h : Host) (b : Board)
      → (r ≡ done 0 h) ⊎ (r ≡ halted h)
      → h.status ≡ none
      → EndsLine h.stdout
      → length (wire h.stdout) ≤ idle b
      → (t : Board) × (conclude posix stream r b ≡ halted t) × (t.sent ≡ b.sent ++ wire h.stdout)
  unfolding conclude leave shutdown
  conclude-shuts_down r h b ends running line room =
      let (_, t, ran, (sent, _)) = send-wire posix stream h.stdout 0 b line (omega arith) in
      let over : conclude posix stream r b ≡ halted t = elim ends [
        | inl returned ↦ rw (returned, ran) refl
        | inr left ↦ rw (left, ran, running) refl
      ] in
      (t, over, sent)

  conclude-undefined :
      (r : Run Host ℕ) (b : Board)
      → Exits r
      → EndsLine (printed r)
      → length (wire (printed r)) ≤ idle b
      → conclude posix stream r b ≡ undefined
  unfolding conclude leave exit
  conclude-undefined r b (h, left, status) line room =
      let same : printed r ≡ h.stdout = ap printed left in
      let need : length (wire h.stdout) + 0 ≤ idle b =
        omega (arith, ap (λ o. length (wire o)) same) in
      let (_, t, ran, _) = send-wire posix stream h.stdout 0 b (rw same at line) need in
      ap (λ o. conclude posix stream o b) left
      ∙ ap (λ o. and_then o (λ _. leave h.status)) ran
      ∙ ap (λ o. leave o t) status

module _ (posix : Posix) (stream : Stream posix) (rt : Runtime) (pointer_text : List ℕ)
    (bss_start bss_end rounds : ℕ) (b : Board) (fits : bss_end + 1 < 2 ^ 64)
    (enough : bss_end - bss_start < rounds) (lines : (e : Event) → EndsLine (rt.says e)) where
  abbrev main_run : Run Host ℕ
  main_run = qemu_main rt pointer_text unstarted

  -- The loop ends, and the rest of the run begins with some memory.
  start-conclude :
      (m : Memory) × (start posix stream rt pointer_text bss_start bss_end rounds b
        ≡ conclude posix stream main_run (record b { memory = m }))
  unfolding start enter
  start-conclude =
      let (m, ran, _) =
        clear_bss-IsCleared wamr_width bss_end (omega arith) fits rounds bss_start b.memory
          enough in
      (m, ap (λ o. enter posix stream rt pointer_text o b) ran)

  -- When the loop that clears the BSS has enough rounds, each call of the runtime prints whole lines,
  -- enough reads show the UART idle, and the runtime is initialised, and the module loaded and
  -- instantiated, the machine comes from its reset to a shutdown, whether the guest ends, has an
  -- exception or shuts it down, and all that was printed has been sent before, a carriage return behind
  -- each newline.
  pub start-shuts_down :
      (m i : ℕ)
      → rt.inits ≡ true
      → rt.loads ≡ some m
      → rt.instantiates m ≡ some i
      → length (wire (transcript rt m i)) ≤ idle b
      → (t : Board) × (start posix stream rt pointer_text bss_start bss_end rounds b ≡ halted t)
        × (t.sent ≡ b.sent ++ wire (transcript rt m i))
  start-shuts_down m i inits loads instantiates room =
      let (mem, begun) = start-conclude in
      let (h, ends, running, said) =
        qemu_main-Through rt pointer_text m i inits loads instantiates in
      let whole : printed main_run ≡ h.stdout = elim ends [
        | inl returned ↦ ap printed returned
        | inr left ↦ ap printed left
      ] in
      let line : EndsLine h.stdout = rw whole at (qemu_main-WholeLines rt pointer_text lines) in
      let (t, over, sent) =
        conclude-shuts_down posix stream main_run h (record b { memory = mem }) ends running line
          (rw said room) in
      (t, begun ∙ over, sent ∙ ap (λ o. b.sent ++ wire o) said)

  -- When the loop that clears the BSS has enough rounds, each call of the runtime prints whole lines,
  -- enough reads show the UART idle, and the initialisation, the loading or the instantiation fails, the
  -- machine does not come to its shutdown: `main` exits, the `_exit` that the C library then calls
  -- returns to it, and what follows is undefined.
  pub start-undefined :
      Fails rt
      → length (wire (printed main_run)) ≤ idle b
      → start posix stream rt pointer_text bss_start bss_end rounds b ≡ undefined
  start-undefined failed room =
      let (mem, begun) = start-conclude in
      begun
      ∙ conclude-undefined posix stream main_run (record b { memory = mem })
          (qemu_main-Exits rt pointer_text failed) (qemu_main-WholeLines rt pointer_text lines) room
