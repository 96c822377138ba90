-- ===== src/Startup.antt =====
-- The loops of platform/zkvm/startup.S, platform/riscv-qemu/startup.S and
-- platform/riscv-wamr-qemu/startup.S that clear the BSS before `main`: the first and the third store
-- bytes (`sb`), the second words of eight bytes (`sd`).
pub mod Cleared
use wasrisc.Base.{ℕ, zero, suc, ◌+◌, ◌&&◌, Option, none, some, leb, ltb, if◌then◌else◌}
use wasrisc.Machine.Memory.{Memory}
use wasrisc.Machine.Word.{u64}

-- A store of `width` zero bytes.
unfoldable pub store_zero : ℕ → ℕ → Memory → Memory
store_zero width p m a = if leb p a && ltb a (p + width) then 0 else m a

-- The loop from `t0` to `t1`, with at most `rounds` tests of its end.
unfoldable pub clear_bss : ℕ → ℕ → ℕ → ℕ → Memory → Option Memory
clear_bss width zero t0 t1 m = none
clear_bss width (suc rounds) t0 t1 m =
    let rest = clear_bss width rounds (u64 (t0 + width)) t1 (store_zero width t0 m) in
    if leb t1 t0 then some m else rest

abbrev pub zkvm_width : ℕ
zkvm_width = 1

abbrev pub qemu_width : ℕ
qemu_width = 8

abbrev pub wamr_width : ℕ
wamr_width = 1
