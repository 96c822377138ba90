-- ===== src/Zkvm/Imports.antt =====
-- The functions that a guest imports from `testmodule`: platform/zkvm/custom_imports.c.
use wasrisc.Base.{ℕ, ◌+◌, ◌*◌}
use wasrisc.Machine.{Cmd}
use wasrisc.Machine.Memory.{Memory, load32}
use wasrisc.Machine.Word.{u32}
use wasrisc.Zkvm.{Zkvm, printk, shutdown, input_addr}

unfoldable pub testfunc : ℕ → ℕ → ℕ
testfunc a b = u32 (1000 * a + b)

unfoldable pub testfunc2 : ℕ → ℕ → ℕ
testfunc2 a b = u32 (a * b)

unfoldable pub guest_printk : ℕ → Cmd Zkvm (Unit {0})
guest_printk val = printk val

unfoldable pub guest_shutdown : Cmd Zkvm (Unit {0})
guest_shutdown = shutdown

unfoldable pub input_data_len : Memory → ℕ
input_data_len m = load32 m (input_addr + 4 * 2)

-- `char` is unsigned on RISC-V.
unfoldable pub input_data : Memory → ℕ → ℕ
input_data m index = m (u32 (input_addr + 4 * 4 + index))
