-- ===== src/Tests/Start.antt =====
-- The WAMR target from its reset on, with a runtime that fails in its guest, and one that does not
-- start.
use wasrisc.Base.{ℕ, ◌≡◌, refl, ap, arith, List, [], ◌∷◌, none, codes}
use wasrisc.Machine.{halted, undefined}
use wasrisc.RiscvWamrQemu.{Board}
use wasrisc.RiscvWamrQemu.Start.{start, start-shuts_down, start-undefined}
use wasrisc.RiscvWamrQemu.Stdout.{Stream, whole_text, Small, write_chunks, wire}
use wasrisc.RiscvWamrQemu.Waiting.{shows}
use wasrisc.Tests.Runtime.{failing}
use wasrisc.Tests.Wamr.{posix, b, ready}
use wasrisc.Wamr.{Runtime, qemu_main, after_init, after_load}
use wasrisc.Wamr.Spoken.{at_load, execution}

-- A stream that hands on each byte by itself.
bytewise : List ℕ → List (ℕ × List ℕ)
bytewise [] = []
bytewise (c ∷ cs) = (4096, c ∷ []) ∷ bytewise cs

whole_text-bytewise : (text : List ℕ) → whole_text (bytewise text) ≡ text
unfolding bytewise
whole_text-bytewise [] = refl
whole_text-bytewise (c ∷ cs) = ap (λ t. c ∷ t) (whole_text-bytewise cs)

bytewise-Small : (text : List ℕ) → Small (bytewise text)
unfolding bytewise
bytewise-Small [] = tt
bytewise-Small (c ∷ cs) = (omega arith, bytewise-Small cs)

abbrev unbuffered : Stream posix
unbuffered = record {
  send = λ text. write_chunks posix (bytewise text);
  send-write_chunks =
      λ text b line. (bytewise text, whole_text-bytewise text, bytewise-Small text, refl);
}

abbrev waiting : Board
waiting = record b { lsr = ready 90 }

start-shuts_down_example :
    (t : Board) × (start posix unbuffered failing [] 4096 4099 4 waiting ≡ halted t)
    × (t.sent
        ≡ codes "error executing main\n\rexception: unreachable\n\rwasm_runtime_unload...\n\r")
unfolding wire execution
start-shuts_down_example =
    start-shuts_down posix unbuffered failing [] 4096 4099 4 waiting (omega arith) (omega arith)
      (λ e. refl) 1 2 refl refl refl (unfold shows in omega arith)

abbrev unloadable : Runtime
unloadable = record failing { loads = none; error_buf = codes "bad magic" }

start-undefined_example : start posix unbuffered unloadable [] 4096 4099 4 waiting ≡ undefined
start-undefined_example =
    start-undefined posix unbuffered unloadable [] 4096 4099 4 waiting (omega arith) (omega arith)
      (λ e. refl) (at_load refl refl)
      (unfold shows wire in unfold qemu_main after_init after_load in omega arith)
