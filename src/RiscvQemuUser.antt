-- ===== src/RiscvQemuUser.antt =====
-- platform/riscv-qemu-user: custom_imports.c and main.c, for a process under the user-mode emulator.
pub mod Printk
pub mod Session
use wasrisc.Base.{ℕ, ◌+◌, ◌*◌, ◌++◌, [], codes, not, if◌then◌else◌}
use wasrisc.Hosted.{Process, Texts, print, print_error, puts, exit, abort}
use wasrisc.Machine.{Cmd, pure, ◌>>◌, ◌>>=◌}
use wasrisc.Machine.Word.{u32}
use wasrisc.RiscvQemu.Imports.{hex_line}
use wasrisc.Wasi.Init.{wasi_init}
use wasrisc.Zkvm.Port.{Guest, Trap}

unfoldable pub testfunc : ℕ → ℕ → ℕ
testfunc a b = u32 (1000 * a + b)

unfoldable pub testfunc2 : ℕ → ℕ → ℕ
testfunc2 a b = u32 (a * b)

-- The buffer is filled by the same loop as that of riscv-qemu.
unfoldable pub guest_printk : ℕ → Cmd Process (Unit {0})
guest_printk val = puts (hex_line val)

unfoldable pub guest_shutdown : Cmd Process (Unit {0})
guest_shutdown = exit 0

unfoldable pub input_data_len : ℕ
input_data_len = 0

unfoldable pub input_data : ℕ → ℕ
input_data index = 0

unfoldable pub trap : Texts → Trap → Cmd Process (Unit {0})
trap texts code =
    print_error (codes "TRAP: " ++ (texts.trap_description code ++ codes "\n")) >> abort

unfoldable pub main : Guest Process → Cmd Process ℕ
main guest = if not wasi_init then (do print_error (codes "failed to init WASI\n"); pure 1) else do
  print (codes "instantiating guest program...\n")
  guest.instantiate
  guest.start
  guest.free_instance
  print (codes "guest program completed\n")
  pure 0
