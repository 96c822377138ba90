-- ===== src/RiscvQemu/Library.antt =====
-- The polled console and the reset of the QEMU target as the C library that wasi.c is linked with. It
-- takes as many bytes as there are reads to come that show the UART's register empty.
use wasrisc.Base.{ℕ, suc, ◌+◌, ◌≤◌, ◌≡◌, ◌≢◌, refl, List, [], ◌∷◌, ◌++◌, length}
use wasrisc.Console.Output
use wasrisc.Console.Output.{puts_lem, printf-puts}
use wasrisc.Console.Text.{shown}
use wasrisc.Host.{Libc}
use wasrisc.Machine.{done, Ensures, Ensures-mono}
use wasrisc.Machine.Word.{u8}
use wasrisc.RiscvQemu.{Device}
use wasrisc.RiscvQemu.Imports.{exit}
use wasrisc.RiscvQemu.Polling.{ready, qemu_uart, putchar, printf}

pub qemu_printf_lem :
    (fmt args : List ℕ) (n : ℕ) (d : Device)
    → length (shown fmt) + n ≤ ready d.lsr
    → Ensures
        (printf fmt args d)
        (λ _ e. (e.sent ≡ d.sent ++ shown fmt) × (tt {0} ≡ tt) × (n ≤ ready e.lsr))
unfolding printf
qemu_printf_lem fmt args n d room =
    rw (printf-puts qemu_uart fmt args d)
      (Ensures-mono (puts_lem qemu_uart fmt n d room) λ _ e p. (p.1, refl, p.2))

pub qemu_putchar_lem :
    (c n : ℕ) (d : Device)
    → suc n ≤ ready d.lsr
    → Ensures
        (putchar c d)
        (λ _ e. (e.sent ≡ d.sent ++ u8 c ∷ []) × (tt {0} ≡ tt) × (n ≤ ready e.lsr))
unfolding putchar
qemu_putchar_lem c n d room =
    Ensures-mono (Output.putchar_lem qemu_uart c n d room) λ _ e p. (p.0, refl, p.1)

pub qemu_exit_lem : (status : ℕ) (d e : Device) → exit status d ≢ done tt e
unfolding exit
qemu_exit_lem status d e h = cc h

abbrev pub qemu_libc : Libc
qemu_libc = record {
  Device = Device;
  printf = printf;
  putchar = putchar;
  exit = exit;
  output = λ d. d.sent;
  Rest = Unit {0};
  rest = λ d. tt;
  Accepts = λ n d. n ≤ ready d.lsr;
  formatted = λ fmt args. shown fmt;
  printf_lem = qemu_printf_lem;
  putchar_lem = qemu_putchar_lem;
  exit_lem = qemu_exit_lem;
}
