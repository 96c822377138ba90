-- ===== src/RiscvQemu/Imports.antt =====
-- The functions that a guest imports from `testmodule`: platform/riscv-qemu/custom_imports.c.
use wasrisc.Base.{ℕ, zero, suc, ◌+◌, ◌*◌, ◌/◌, List, [], ◌∷◌, codes, bit_and, get_or, set}
use wasrisc.Machine.{Cmd, halted, pure, ◌>>◌}
use wasrisc.Machine.Word.{u32}
use wasrisc.RiscvQemu.{Device}
use wasrisc.RiscvQemu.Polling.{puts}

unfoldable pub testfunc : ℕ → ℕ → ℕ
testfunc a b = u32 (1000 * a + b)

unfoldable pub testfunc2 : ℕ → ℕ → ℕ
testfunc2 a b = u32 (a * b)

abbrev pub hex : List ℕ
hex = codes "0123456789abcdef"

-- The loop with `i + 1` rounds left, at index `i` of the digits.
unfoldable pub hex_loop : ℕ → ℕ → List ℕ → List ℕ
hex_loop zero val buf = buf
hex_loop (suc i) val buf = hex_loop i (val / 16) (set buf (i + 2) (get_or hex (bit_and val 0xF) 0))

-- `char buf[12]`, whose first contents are overwritten.
abbrev pub blank : List ℕ
blank = 0 ∷ 0 ∷ 0 ∷ 0 ∷ 0 ∷ 0 ∷ 0 ∷ 0 ∷ 0 ∷ 0 ∷ 0 ∷ 0 ∷ []

unfoldable pub hex_line : ℕ → List ℕ
unfolding hex_loop
hex_line val = let buf = set (set blank 0 b'0') 1 b'x' in set (set (hex_loop 8 val buf) 10 10) 11 0

-- The source declares an `int` result and returns none.
unfoldable pub guest_printk : ℕ → Cmd Device (Unit {0})
guest_printk val = puts (hex_line val) >> pure tt

-- `exit` of startup.S resets the machine.
unfoldable pub exit : ℕ → Cmd Device (Unit {0})
exit status d = halted d

unfoldable pub guest_shutdown : Cmd Device (Unit {0})
guest_shutdown = puts (codes "shutdown()\n") >> exit 0

unfoldable pub input_data_len : ℕ
input_data_len = 0

unfoldable pub input_data : ℕ → ℕ
input_data index = 0
