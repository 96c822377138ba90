-- ===== src/Tests/Echoes.antt =====
-- The guest that copies its input, on the zkvm from its reset on.
use wasrisc.Base.{◌+◌, ℕ, zero, suc, ◌<◌, ◌≡◌, refl, arith, codes, get_or}
use wasrisc.Machine.{halted}
use wasrisc.Machine.Memory.{load32}
use wasrisc.Session.Echo.{echo}
use wasrisc.Session.Ending.{returns}
use wasrisc.Tests.{machine, zeros, five_bytes}
use wasrisc.Tests.Linear.{test_wasm}
use wasrisc.Zkvm.{Zkvm, input_addr}
use wasrisc.Zkvm.Session.Boot.{start}
use wasrisc.Zkvm.Session.Echoes.{Placed, start-echo}
use wasrisc.Zkvm.Session.Whole.{session_guest}

five_bytes-Placed : Placed (codes "hello") five_bytes
unfolding load32
five_bytes-Placed = record { fits = omega arith; small = omega arith; len = refl; content = found }
  where
    found : (k : ℕ) → k < 5 → five_bytes (input_addr + 16 + k) ≡ get_or (codes "hello") k 0
    found zero below = refl
    found (suc zero) below = refl
    found (suc (suc zero)) below = refl
    found (suc (suc (suc zero))) below = refl
    found (suc (suc (suc (suc zero)))) below = refl
    found (suc (suc (suc (suc (suc k))))) below = absurd (omega arith)

start-echo_example :
    (t : Zkvm) × (start 0xa0020000 0xa0020010 17
        (session_guest test_wasm zeros (echo test_wasm λ _. returns))
        (machine five_bytes)
      ≡ halted t)
    × (t.uart ≡ codes "instantiating guest program...\nhelloguest program completed\n")
    × (t.output_count ≡ 0)
start-echo_example =
    start-echo test_wasm 0xa0020000 0xa0020010 17 (codes "hello") zeros (machine five_bytes)
      (omega arith) (omega arith) (omega arith) five_bytes-Placed
