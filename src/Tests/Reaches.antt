-- ===== src/Tests/Reaches.antt =====
-- A guest that asks for the time again and again.
use wasrisc.Base.{refl, arith}
use wasrisc.Machine.{Settles}
use wasrisc.Machine.Memory.{Memory}
use wasrisc.Session.{perform, clock, print}
use wasrisc.Tests.{machine, zeros}
use wasrisc.Tests.Linear.{test_wasm}
use wasrisc.Wasi.{State}
use wasrisc.Wasi.Clock.Time.{clock_time_get-exact}
use wasrisc.Zkvm.{Zkvm}
use wasrisc.Zkvm.Library.{zkvm_libc}
use wasrisc.Zkvm.Session.{zkvm_target}
use wasrisc.Zkvm.Session.Intact.{Intact, hands_over}
use wasrisc.Zkvm.Session.Reaches.{Reaches, here, next, Reaches-Settles}

abbrev on_zkvm : State Zkvm Memory
on_zkvm = record { device = machine zeros; memory = zeros; ticks = 1 }

-- After one call.
abbrev later : State Zkvm Memory
later = record {
  device = machine zeros;
  memory = test_wasm.i64_store zeros 64 1758880055000000001;
  ticks = 100000001;
}

later-Reaches : Reaches test_wasm on_zkvm 0 later
unfolding perform hands_over
later-Reaches =
    next (clock 0 0 64) 0 here
      (clock_time_get-exact zkvm_libc test_wasm 0 0 64 0 on_zkvm refl (omega arith))

Reaches-Settles_example :
    Intact 0 (machine zeros) (machine zeros)
    × Settles
        (perform zkvm_target test_wasm (print 9) later)
        (λ u. Intact 0 (machine zeros) u.device)
unfolding hands_over
Reaches-Settles_example = Reaches-Settles test_wasm on_zkvm (print 9) later-Reaches (omega arith)
