-- ===== src/Tests/Session.antt =====
-- A guest that writes a text, asks for the time, closes a descriptor and hands over a value.
use wasrisc.Base.{
  ◌-◌, ◌==◌, if◌then◌else◌, ℕ, zero, suc, ◌^◌, ◌≤◌, ◌⊎◌, ◌≡◌, refl, inl, arith, List, [], ◌∷◌,
  codes,
}
use wasrisc.Console.Text.{shown}
use wasrisc.Machine.{Ensures, halted, undefined}
use wasrisc.Machine.Memory.{Memory, load32}
use wasrisc.RiscvQemu.{Device}
use wasrisc.RiscvQemu.Endings
use wasrisc.RiscvQemu.Hex.{nibbles}
use wasrisc.RiscvQemu.Imports as QemuImports
use wasrisc.RiscvQemu.Polling.{ready}
use wasrisc.RiscvQemu.Session
use wasrisc.RiscvQemu.Session.{no_input, qemu_target, start-sends}
use wasrisc.Session.{
  Input, Program, ret, call, follow, compute, write, clock, report, input_at, input_length, print,
}
use wasrisc.Session.View.{
  first_view, result, text, text_all, observe, observe_all, answer, AdmitsAll,
}
use wasrisc.Session.Performs.{Shows}
use wasrisc.Session.Echo.{echo, bytes_from, follow-echo}
use wasrisc.Session.Portable.{follow-agree}
use wasrisc.Session.Refines.{follow-Shows}
use wasrisc.Tests.{input_of, machine, zeros, five_bytes}
use wasrisc.Tests.Linear.{test_wasm, store_bytes, two_buffers, two_buffers-small}
use wasrisc.Wasi.{State}
use wasrisc.Wasi.Imports
use wasrisc.Wasi.Write.Gather.{transcript, region, lengths}
use wasrisc.Zkvm.{Zkvm}
use wasrisc.Zkvm.Imports.{input_data, input_data_len}
use wasrisc.Zkvm.OutputBuffer.{Holds}
use wasrisc.Zkvm.Port.{main, trap_unreachable, trap_message}
use wasrisc.Zkvm.Session.{zkvm_target, Serves}
use wasrisc.Zkvm.Session.Intact.{hands_over, HandsAtMost}
use wasrisc.Zkvm.Session.AnyGuest.{Halts, main-Halts}
use wasrisc.Session.Ending.{Ending, returns, exits, traps}
use wasrisc.Zkvm.Session.Whole.{session_guest}
use wasrisc.Zkvm.Session.Boot.{start, start-session}

-- The number of bytes that `fd_write` stored is handed over.
abbrev guest : Ending → Program Memory Ending
guest ending = call (compute (λ m. two_buffers)) λ _ _. call (write 1 0 2 24) λ _ m.
    call (clock 1 0 64)
      λ _ _. call (report (Imports.fd_close 5)) λ _ _. call (print (load32 m 24)) λ _ _. ret ending

guest-AdmitsAll :
    (given : Input) → AdmitsAll zkvm_target test_wasm given (guest (exits 3)) (first_view zeros)
unfolding observe answer lengths load32 store_bytes
guest-AdmitsAll given = (
  tt,
  ((λ j below _. two_buffers-small j below), (omega arith, (tt, ((omega arith, omega arith), tt)))),
)

-- A machine with some garbage in its memory and its count.
abbrev garbage : Zkvm
garbage = record { memory = λ a. a; uart = []; output_count = 77 }

start-session_example :
    (t : Zkvm) × (start 0xa0020000 0xa0020010 17
        (session_guest test_wasm zeros (guest (exits 3)))
        garbage
      ≡ halted t)
    × (t.uart
        ≡ codes
            "instantiating guest program...\nheywasi_snapshot_preview1__fd_close\nwasi_snapshot_preview1__proc_exit\nexit()\n")
    × Holds (3 ∷ []) t
unfolding observe_all observe text_all text result answer transcript region lengths shown
    Imports.said load32 store_bytes
start-session_example =
    start-session test_wasm 0xa0020000 0xa0020010 17 (input_of garbage) zeros (guest (exits 3))
      garbage (omega arith) (omega arith) (omega arith) ((λ k ok. refl), refl)
      (guest-AdmitsAll (input_of garbage))

-- A machine whose host has placed (input_of fresh.device) bytes.
abbrev fresh : State Zkvm Memory
fresh = record { device = machine five_bytes; memory = zeros; ticks = 1 }

fresh-Shows :
    (n : ℕ) → Shows zkvm_target test_wasm (input_of fresh.device) (first_view zeros) n fresh
fresh-Shows n = record {
  memory = refl;
  values = record {
    held = record { counted = refl; count_word = inl refl; words = λ i h. absurd (omega arith) };
    bytes = λ k ok. refl;
    len = refl;
  };
  calls = refl;
  room = tt;
}

-- A guest that writes too many buffers, asks for the length of its input, reads the last byte, hands
-- it over if the write was refused, and comes to the byte.
abbrev reading : Program Memory ℕ
reading = call (write 1 0 11 24) λ code _. call input_length λ n _.
    call (input_at (n - 1)) λ c _. if code == 48 then call (print c) (λ _ _. ret c) else ret 0

follow-Shows_example : Ensures (follow zkvm_target test_wasm reading fresh) (λ c t.
    (c ≡ b'o')
    × (t.device.uart ≡ codes "fd_write: unexpected iovecs\n")
    × Shows zkvm_target test_wasm
        (input_of fresh.device)
        (record { memory = zeros; values = b'o' ∷ []; calls = 0 })
        0
        t)
unfolding text_all text observe_all observe result answer shown input_data input_data_len load32
follow-Shows_example =
    follow-Shows zkvm_target test_wasm (input_of fresh.device) reading (first_view zeros) 0 fresh
      (fresh-Shows _)
      (λ j below few. absurd (omega arith), (tt, (omega arith, ((omega arith, omega arith), tt))))

follow-echo_example : Ensures (follow zkvm_target test_wasm (echo test_wasm (λ n. n)) fresh) (λ r t.
    (r ≡ 5)
    × (t.device.uart ≡ codes "hello")
    × Serves (input_of fresh.device) [] t.device
    × Unit {0})
unfolding bytes_from input_data input_data_len load32
follow-echo_example =
    follow-echo zkvm_target test_wasm (input_of fresh.device) (λ n. n) (first_view zeros) 0 fresh
      (fresh-Shows _) (unfold input_data_len load32 in λ j below. omega arith)

-- A guest that hands over more than 32 bits, and then as many values as the first answer says but two
-- at most, and writes from a descriptor that is not open.
abbrev careless : Program Memory Ending
careless = call (print (2 ^ 40)) λ _ _. call input_length λ n _.
    call (write 9 0 3 24)
      λ _ _. call (print n) λ _ _. ret (if n == 0 then returns else traps trap_unreachable)

careless-HandsAtMost : HandsAtMost 2 careless
unfolding hands_over
careless-HandsAtMost =
    (omega arith, λ _ _. (omega arith, λ n _. (omega arith, λ _ _. (omega arith, λ _ _. tt))))

main-Halts_example :
    Halts garbage (main (session_guest test_wasm zeros careless) garbage)
    ⊎ (main (session_guest test_wasm zeros careless) garbage ≡ undefined)
main-Halts_example =
    main-Halts test_wasm garbage zeros careless 2 careless-HandsAtMost (omega arith)

abbrev slow : ℕ → List ℕ
slow zero = []
slow (suc n) = 0 ∷ 32 ∷ slow n

abbrev board : Device
board = record { lsr = slow 110; sent = [] }

guest-Defined :
    (ending : Ending) → AdmitsAll qemu_target test_wasm no_input (guest ending) (first_view zeros)
unfolding observe answer lengths load32
guest-Defined ending =
    (tt, ((λ j below _. two_buffers-small j below), (omega arith, (tt, (tt, tt)))))

start-sends_example :
    (t : Device) × (Endings.start
        (Session.session_guest test_wasm zeros (guest (traps trap_unreachable)))
        board
      ≡ halted t)
    × (t.sent
        ≡ codes
            "instantiating guest program...\nheywasi_snapshot_preview1__fd_close\n0x00000003\ntrap(..)\ntrap: unreachable\n")
unfolding text_all text observe result answer transcript region lengths shown Imports.said load32
    store_bytes nibbles trap_message
start-sends_example =
    start-sends test_wasm zeros (guest (traps trap_unreachable)) board
      (guest-Defined (traps trap_unreachable)) (unfold ready in omega arith)

-- The same start on both machines, with no input.
abbrev on_board : State Device Memory
on_board = record { device = board; memory = zeros; ticks = 1 }

abbrev on_zkvm : State Zkvm Memory
on_zkvm = record { device = machine zeros; memory = zeros; ticks = 1 }

board-Shows :
    (n : ℕ)
    → n ≤ ready board.lsr
    → Shows qemu_target test_wasm no_input (first_view zeros) n on_board
board-Shows n room = record { memory = refl; values = (λ k. refl, refl); calls = refl; room = room }

zkvm_zeros-Shows : (n : ℕ) → Shows zkvm_target test_wasm no_input (first_view zeros) n on_zkvm
unfolding input_data input_data_len load32 QemuImports.input_data QemuImports.input_data_len
zkvm_zeros-Shows n = record {
  memory = refl;
  values = record {
    held = record { counted = refl; count_word = inl refl; words = λ i h. absurd (omega arith) };
    bytes = λ k ok. refl;
    len = refl;
  };
  calls = refl;
  room = tt;
}

-- The guest prints through its own `printk`, which is not the same on the two machines.
follow-agree_example : Ensures (follow zkvm_target test_wasm (guest (exits 3)) on_zkvm) (λ e s'.
    Ensures
      (follow qemu_target test_wasm (guest (exits 3)) on_board)
      (λ e' t'. (e ≡ e') × (s'.memory ≡ t'.memory) × (s'.ticks ≡ t'.ticks)))
unfolding text_all text observe answer transcript region lengths shown Imports.said load32
    store_bytes nibbles ready
follow-agree_example =
    follow-agree zkvm_target qemu_target test_wasm no_input (guest (exits 3)) (first_view zeros)
      on_zkvm on_board (zkvm_zeros-Shows _) (board-Shows _ (omega arith)) (guest-AdmitsAll no_input)
      (guest-Defined (exits 3))

abbrev plain : Program Memory ℕ
plain =
    call (compute (λ m. two_buffers))
      λ _ _. call (write 2 0 2 24) λ code _. call (clock 1 0 64) λ _ _. ret code
