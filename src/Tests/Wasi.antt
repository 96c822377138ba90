-- ===== src/Tests/Wasi.antt =====
-- `fd_write` and the stubs on the zkvm's console.
use wasrisc.Base.{◌≡◌, arith, ◌++◌, codes}
use wasrisc.Console.Text.{shown}
use wasrisc.Machine.{Ensures}
use wasrisc.Machine.Memory.{Memory, load32}
use wasrisc.Tests.{machine, zeros}
use wasrisc.Tests.Linear.{test_wasm, two_buffers, two_buffers-small}
use wasrisc.Wasi.{State, Printed}
use wasrisc.Wasi.Imports.{invoke, fd_close}
use wasrisc.Wasi.Imports.Frame.{invoke-Printed}
use wasrisc.Wasi.Write.{fd_write}
use wasrisc.Wasi.Write.Gather.{lengths, transcript}
use wasrisc.Wasi.Write.Laws.{fd_write-transcript, fd_write-nomem, banner, refusal}
use wasrisc.Zkvm.{Zkvm}
use wasrisc.Zkvm.Library.{zkvm_libc, rest}

abbrev guest : State Zkvm Memory
guest = record { device = machine zeros; memory = two_buffers; ticks = 1 }

fd_write-transcript_example : Ensures (fd_write zkvm_libc test_wasm 3 0 2 24 guest) (λ r t.
    (r ≡ 0)
    × (t.memory ≡ test_wasm.i32_store two_buffers 24 3)
    × (t.ticks ≡ 1)
    × (t.device.uart ≡ banner zkvm_libc 3 ++ transcript zkvm_libc test_wasm two_buffers 3 0 2 0)
    × (rest t.device ≡ (zeros, 0))
    × Unit {0})
unfolding lengths load32
fd_write-transcript_example =
    fd_write-transcript zkvm_libc test_wasm 3 0 2 24 0 guest (omega arith) two_buffers-small tt

fd_write-nomem_example :
    Ensures
      (fd_write zkvm_libc test_wasm 2 0 11 24 guest)
      (λ r t. (r ≡ 48) × Printed zkvm_libc (banner zkvm_libc 2 ++ refusal zkvm_libc) 0 guest t)
fd_write-nomem_example = fd_write-nomem zkvm_libc test_wasm 2 0 11 24 0 guest (omega arith) tt

invoke-Printed_example : Ensures (invoke zkvm_libc (fd_close 5) guest) (λ r t.
    (r ≡ 0) × Printed zkvm_libc (shown (codes "wasi_snapshot_preview1__fd_close\n")) 0 guest t)
unfolding wasrisc.Wasi.Imports.errno wasrisc.Wasi.Imports.said
invoke-Printed_example = invoke-Printed zkvm_libc (fd_close 5) 0 guest tt
