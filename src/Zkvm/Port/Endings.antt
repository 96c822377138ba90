-- ===== src/Zkvm/Port/Endings.antt =====
-- How a run ends: `main`, `exit`, `abort` and `trap`.
use wasrisc.Base.{
  ltb, arith, ◌∷◌, [], true, false, ℕ, zero, suc, ◌+◌, ◌≡◌, refl, sym, ap, ◌∙◌, List, ◌++◌,
  append-nil, append_assoc, codes,
}
use wasrisc.Machine.Word.{u8}
use wasrisc.Machine.{
  done, halted, hangs, undefined, Run, Cmd, pure, and_then, and_then_regroup, ◌>>◌,
}
use wasrisc.Console
use wasrisc.Console.{emit, strlen, char_at}
use wasrisc.Console.Text.{shown, window, window-strlen}
use wasrisc.Wasi.Init.{wasi_init}
use wasrisc.Zkvm.{Zkvm, shutdown}
use wasrisc.Zkvm.Port.{
  puts, printf, writeuartc, zkvm_uart, Trap, trap_unreachable, trap_message, trap, abort, exit,
  Guest, main,
}

-- The machine with more bytes on its UART.
abbrev pub sent : List ℕ → Zkvm → Zkvm
sent s z = record z { uart = z.uart ++ s }

emit-sent :
    (k i : ℕ) (s : List ℕ) (z : Zkvm)
    → strlen s ≡ i + k
    → emit zkvm_uart (suc k) i s z ≡ done tt (sent (window k i s) z)
unfolding emit window writeuartc
emit-sent zero i s z bound =
    let at_end : ltb i (strlen s) ≡ false = ground (arith, bound) in
    rw at_end (ap (λ u. done tt (record z { uart = u })) (sym (append-nil z.uart)))
emit-sent (suc k) i s z bound =
    let within : ltb i (strlen s) ≡ true = ground (arith, bound) in
    rw within (
      emit-sent k (i + 1) s (sent (u8 (char_at s i) ∷ []) z) (omega (arith, bound))
      ∙ ap (λ u. done tt (record z { uart = u })) (append_assoc z.uart _ _))

-- `puts` touches nothing but the UART.
pub puts-sent : (s : List ℕ) (z : Zkvm) → puts s z ≡ done (strlen s) (sent (shown s) z)
unfolding puts Console.puts strlen shown
puts-sent s z = rw (emit-sent (strlen s) 0 s z (omega arith), window-strlen s)

pub printf-sent :
    (s args : List ℕ) (z : Zkvm) → printf s args z ≡ done (strlen s) (sent (shown s) z)
unfolding printf Console.printf strlen shown
printf-sent s args z = rw (emit-sent (strlen s) 0 s z (omega arith), window-strlen s)

-- Whatever the status, `exit` names itself on the UART and halts: the host sees no status.
pub exit-halted : (status : ℕ) (z : Zkvm) → exit status z ≡ halted (sent (codes "exit()\n") z)
unfolding exit shutdown shown
exit-halted status z = rw puts-sent

pub abort-halted : (z : Zkvm) → abort z ≡ halted (sent (codes "abort()\n") z)
unfolding abort shutdown shown
abort-halted z = rw puts-sent

pub shown-trap_message : (code : Trap) → shown (trap_message code) ≡ trap_message code
unfolding shown trap_message
shown-trap_message trap_unreachable = refl
shown-trap_message _ = refl

-- Every trap names itself on the UART, after a fixed line, and halts the machine.
pub trap-halted :
    (code : Trap) (z : Zkvm)
    → trap code z ≡ halted (sent (codes "trap(..)\n" ++ trap_message code) z)
unfolding trap shutdown shown
trap-halted code z =
    rw (puts-sent (codes "trap(..)\n"), puts-sent (trap_message code), shown-trap_message code)
      (ap (λ u. halted (record z { uart = u }))
        (append_assoc z.uart (shown (codes "trap(..)\n")) (trap_message code)))

module _ (guest : Guest Zkvm) (z : Zkvm) where
  abbrev pub begun : Zkvm
  begun = sent (codes "instantiating guest program...\n") z

  -- The guest's part of the run, once the first message is out.
  abbrev pub guest_run : Run Zkvm (Unit {0})
  guest_run = (guest.instantiate >> guest.start >> guest.free_instance) begun

  abbrev last_part : Cmd Zkvm ℕ
  last_part = puts (codes "guest program completed\n") >> (shutdown >> pure 0)

  main-guest_run : main guest z ≡ and_then guest_run (λ _. last_part)
  unfolding main wasi_init shown
  main-guest_run =
      rw printf-sent
        (and_then_regroup (guest.instantiate begun) guest.start guest.free_instance last_part)

  -- What `main` makes of the guest's part: a guest that returns is followed by the last message and
  -- the shutdown, and one that does not ends the run as it does.
  abbrev pub concluded : Run Zkvm (Unit {0}) → Run Zkvm ℕ
  concluded (done _ t) = halted (sent (codes "guest program completed\n") t)
  concluded (halted t) = halted t
  concluded (hangs t) = hangs t
  concluded undefined = undefined

  last_part-concluded : (r : Run Zkvm (Unit {0})) → and_then r (λ _. last_part) ≡ concluded r
  unfolding shutdown shown
  last_part-concluded (done _ t) = rw puts-sent
  last_part-concluded (halted t) = refl
  last_part-concluded (hangs t) = refl
  last_part-concluded undefined = refl

  -- Whatever the guest does, `main` prints its first message, runs the guest's three parts in order,
  -- and ends as `concluded` says: it never returns, halts after a guest that returns, with the last
  -- message, and otherwise ends as the guest's part ends.
  pub main-concluded : main guest z ≡ concluded guest_run
  main-concluded = main-guest_run ∙ last_part-concluded guest_run
