-- ===== src/Tests/Clock.antt =====
-- The clock, counted from the start of a program.
use wasrisc.Base.{◌+◌, ◌/◌, ◌%◌, ◌≤◌, ◌≡◌, refl, arith, [], ◌∷◌}
use wasrisc.Machine.{Ensures, ◌>>◌}
use wasrisc.Machine.Memory.{Memory}
use wasrisc.Tests.{machine, zeros}
use wasrisc.Tests.Linear.{test_wasm}
use wasrisc.Wasi.{State}
use wasrisc.Wasi.Clock.{clock_time_get}
use wasrisc.Wasi.Clock.Time.{clock_time_get-later, clock_time_get-nth, clock_each}
use wasrisc.Zkvm.{Zkvm}
use wasrisc.Zkvm.Library.{zkvm_libc}

abbrev guest : State Zkvm Memory
guest = record { device = machine zeros; memory = zeros; ticks = 1 }

clock_time_get-later_example : Ensures (clock_time_get zkvm_libc test_wasm 1 0 64 guest) (λ r t.
    (r ≡ 0)
    × (t.memory ≡ test_wasm.i64_store zeros 64 1758880055000000001)
    × (100000001 ≤ t.ticks + 1024)
    × (t.ticks ≤ 100001025)
    × (t.device ≡ machine zeros))
clock_time_get-later_example = clock_time_get-later zkvm_libc test_wasm 1 0 64 guest (omega arith)

clock_time_get-nth_example :
    Ensures
      ((clock_each zkvm_libc test_wasm (64 ∷ 64 ∷ []) >> clock_time_get zkvm_libc test_wasm 0 0 72)
        guest)
      (λ r t. (r ≡ 0) × (t.memory 73 ≡ 1758880055200000001 / 256 % 256))
clock_time_get-nth_example =
    clock_time_get-nth zkvm_libc test_wasm (64 ∷ 64 ∷ []) 72 1 guest refl (omega arith)
      (omega arith)
