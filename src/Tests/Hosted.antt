-- ===== src/Tests/Hosted.antt =====
-- Guests on the targets that run as a process.
use wasrisc.Amd64.{char_value}
use wasrisc.Amd64.Copies.{default, from_file, holding}
use wasrisc.Amd64.Echoes.{main-echo}
use wasrisc.Amd64.Port
use wasrisc.Amd64.Whole
use wasrisc.Amd64.Whole.{main-guest_of}
use wasrisc.Base.{◌+◌, ◌==◌, if◌then◌else◌, ◌≡◌, refl, arith, [], ◌∷◌, codes, ◌++◌, some, none}
use wasrisc.Hosted.{Process, Texts, exited, aborted}
use wasrisc.Machine.{done, halted}
use wasrisc.Machine.Memory.{Memory, load32}
use wasrisc.RiscvQemu.Hex.{nibbles}
use wasrisc.RiscvQemuUser
use wasrisc.RiscvQemuUser.Session
use wasrisc.RiscvQemuUser.Session.{main-user_target}
use wasrisc.Session.{Program, ret, call, compute, write, report, input_at, input_length, print}
use wasrisc.Session.Echo.{echo}
use wasrisc.Session.Ending.{Ending, returns, exits, traps}
use wasrisc.Session.View.{result, answer, text, text_all, observe}
use wasrisc.Tests.{zeros}
use wasrisc.Tests.Amd64.{one_file, defaults}
use wasrisc.Tests.Linear.{test_wasm, two_buffers, two_buffers-small}
use wasrisc.Wasi.Imports
use wasrisc.Wasi.Write.Gather.{transcript, region, lengths}
use wasrisc.Zkvm.Port.{trap_unreachable}

-- A `printf` that knows no conversion.
abbrev texts : Texts
texts = record { formatted = λ fmt args. fmt; trap_description = λ code. codes "trap" }

abbrev process : Process
process = record { stdout = []; stderr = []; ending = none }

abbrev guest : Program Memory Ending
guest = call (compute (λ m. two_buffers)) λ _ _. call (write 1 0 2 24) λ _ _.
    call (report (Imports.fd_close 5)) λ code _. call (print 7) λ _ _. ret (exits (code + 259))

main-user_target_example :
    RiscvQemuUser.main (RiscvQemuUser.Session.guest_of texts test_wasm zeros guest process) process
    ≡ halted (record {
      stdout =
          codes
            "instantiating guest program...\nheywasi_snapshot_preview1__fd_close\n0x00000007\n\nwasi_snapshot_preview1__proc_exit\n";
      stderr = [];
      ending = some (exited 3);
    })
unfolding text_all text observe result answer Imports.errno transcript region lengths Imports.said
    load32 nibbles RiscvQemuUser.Session.outcome
main-user_target_example =
    main-user_target texts test_wasm zeros guest process
      (tt, ((λ j below _. two_buffers-small j below), (tt, (tt, tt))))

-- It reads its input one byte past the last, the terminator, and traps if that is there.
abbrev reading : Program Memory Ending
reading = call input_length λ n _.
    call (input_at n)
      λ c _. call (print c) λ _ _. ret (if c == 0 then traps trap_unreachable else returns)

main-guest_of_example :
    Port.main one_file
      (Whole.guest_of texts test_wasm zeros reading
        (codes "test789")
        (holding [] (codes "test789") defaults))
      (codes "guest" ∷ [])
      defaults
    ≡ halted (record {
      test_input_data = some (codes "test789" ++ 0 ∷ []);
      test_input_data_len = 7;
      process = record {
        stdout = codes "instantiating guest program...\nPRINTK(%x)\n";
        stderr = codes "TRAP: trap\n";
        ending = some aborted;
      };
    })
unfolding text_all text observe result answer Whole.outcome char_value
main-guest_of_example =
    main-guest_of texts test_wasm zeros reading one_file (codes "guest" ∷ []) [] (codes "test789")
      defaults (default (unfold Port.asks_file in refl) refl refl) (tt, (omega arith, (tt, tt)))

main-echo_example :
    Port.main one_file
      (Whole.guest_of texts test_wasm zeros
        (echo test_wasm λ _. returns)
        (codes "hey")
        (holding [] (codes "hey") defaults))
      (codes "guest" ∷ codes "-i" ∷ codes "input" ∷ [])
      defaults
    ≡ done 0 (record {
      test_input_data = some (codes "hey" ++ 0 ∷ []);
      test_input_data_len = 3;
      process = record {
        stdout = codes "instantiating guest program...\nhey";
        stderr = [];
        ending = none;
      };
    })
main-echo_example =
    main-echo texts test_wasm zeros one_file (codes "guest" ∷ codes "-i" ∷ codes "input" ∷ []) []
      (codes "hey") defaults (from_file (unfold Port.asks_file in refl) refl refl refl refl)
      (omega arith) (omega arith)
