-- ===== src/Zkvm/Library.antt =====
-- The zkvm's console and `exit` as the C library that wasi.c and wasip2.c are linked with.
use wasrisc.Base.{ℕ, ◌≡◌, ◌≢◌, refl, List, [], ◌∷◌, ◌++◌}
use wasrisc.Console
use wasrisc.Console.Text.{shown}
use wasrisc.Host.{Libc}
use wasrisc.Machine.{done, Ensures}
use wasrisc.Machine.Memory.{Memory}
use wasrisc.Machine.Word.{u8}
use wasrisc.Zkvm.{Zkvm}
use wasrisc.Zkvm.Port.{putchar, printf, exit, writeuartc}
use wasrisc.Zkvm.Port.Endings.{printf-sent, exit-halted}

-- The memory and the count of the output area.
abbrev pub rest : Zkvm → Memory × ℕ
rest z = (z.memory, z.output_count)

pub printf_lem :
    (fmt args : List ℕ) (n : ℕ) (z : Zkvm)
    → Unit {0}
    → Ensures
        (printf fmt args z)
        (λ _ t. (t.uart ≡ z.uart ++ shown fmt) × (rest t ≡ rest z) × Unit {0})
printf_lem fmt args n z _ = rw (printf-sent fmt args z) (_, _, refl, (refl, refl, tt))

pub zkvm_putchar_lem :
    (c n : ℕ) (z : Zkvm)
    → Unit {0}
    → Ensures (putchar c z) (λ _ t. (t.uart ≡ z.uart ++ u8 c ∷ []) × (rest t ≡ rest z) × Unit {0})
unfolding putchar Console.putchar writeuartc
zkvm_putchar_lem c n z _ = (1, record z { uart = z.uart ++ u8 c ∷ [] }, refl, (refl, refl, tt))

pub exit_lem : (status : ℕ) (z t : Zkvm) → exit status z ≢ done tt t
exit_lem status z t e = cc (exit-halted status z)

abbrev pub zkvm_libc : Libc
zkvm_libc = record {
  Device = Zkvm;
  printf = printf;
  putchar = putchar;
  exit = exit;
  output = λ z. z.uart;
  Rest = Memory × ℕ;
  rest = rest;
  Accepts = λ n z. Unit {0};
  formatted = λ fmt args. shown fmt;
  printf_lem = printf_lem;
  putchar_lem = zkvm_putchar_lem;
  exit_lem = exit_lem;
}
