-- ===== src/Zkvm/Port.antt =====
-- platform/zkvm/main.c: the UART, the console over it, and the functions that end a run.
pub mod Endings
use wasrisc.Base.{not, if◌then◌else◌, ℕ, suc, ◌≡◌, refl, String, List, [], ◌∷◌, ◌++◌, codes}
use wasrisc.Console
use wasrisc.Console.{Uart}
use wasrisc.Machine.{done, hangs, Cmd, Ensures, pure, ◌>>◌, ◌>>=◌}
use wasrisc.Machine.Word.{u8}
use wasrisc.Wasi.Init.{wasi_init}
use wasrisc.Zkvm.{Zkvm, shutdown}

-- A store to the UART's address, which the machine takes at any time.
unfoldable pub writeuartc : ℕ → Cmd Zkvm (Unit {0})
writeuartc c z = done tt (record z { uart = z.uart ++ u8 c ∷ [] })

pub writeuartc_lem :
    (c n : ℕ) (z : Zkvm)
    → Unit {0}
    → Ensures (writeuartc c z) (λ _ t. (t.uart ≡ z.uart ++ u8 c ∷ []) × Unit {0})
unfolding writeuartc
writeuartc_lem c n z _ = (tt, record z { uart = z.uart ++ u8 c ∷ [] }, refl, (refl, tt))

abbrev pub zkvm_uart : Uart Zkvm
zkvm_uart = record {
  writeuartc = writeuartc;
  output = λ z. z.uart;
  Accepts = λ n z. Unit {0};
  writeuartc_lem = writeuartc_lem;
}

unfoldable pub putchar : ℕ → Cmd Zkvm ℕ
putchar = Console.putchar zkvm_uart

unfoldable pub puts : List ℕ → Cmd Zkvm ℕ
puts = Console.puts zkvm_uart

unfoldable pub printf : List ℕ → List ℕ → Cmd Zkvm ℕ
printf = Console.printf zkvm_uart

-- `while (1) {}`
abbrev spin : {A : Type 0} → Cmd Zkvm A
spin z = hangs z

-- The runtime errors that w2c2's code reports; `other` is a code that the handler does not know.
pub data Trap : Type 0 where
  trap_unreachable trap_div_by_zero trap_int_overflow : Trap
  trap_invalid_conversion trap_allocation_failed : Trap
  other : ℕ → Trap

unfoldable pub trap_message : Trap → List ℕ
trap_message trap_unreachable = codes "trap: unreachable\n"
trap_message trap_div_by_zero = codes "trap: div by zero\n"
trap_message trap_int_overflow = codes "trap: int overflow\n"
trap_message trap_invalid_conversion = codes "trap: invalid conversion\n"
trap_message trap_allocation_failed = codes "trap: allocation failed\n"
trap_message (other _) = codes "trap: code unknown\n"

unfoldable pub trap : Trap → Cmd Zkvm (Unit {0})
trap code = do puts (codes "trap(..)\n"); puts (trap_message code); shutdown; spin

unfoldable pub abort : Cmd Zkvm (Unit {0})
abort = do puts (codes "abort()\n"); shutdown; spin

-- The status is not handed on.
unfoldable pub exit : ℕ → Cmd Zkvm (Unit {0})
exit status = do puts (codes "exit()\n"); shutdown; spin

-- What w2c2 makes of the guest program.
pub record Guest (S : Type 0) : Type 0 where
  pub instantiate : Cmd S (Unit {0})
  pub start : Cmd S (Unit {0})
  pub free_instance : Cmd S (Unit {0})

unfoldable pub main : Guest Zkvm → Cmd Zkvm ℕ
main guest = if not wasi_init then (do printf (codes "failed to init WASI\n") []; pure 1) else do
  printf (codes "instantiating guest program...\n") []
  guest.instantiate
  guest.start
  guest.free_instance
  puts (codes "guest program completed\n")
  shutdown
  pure 0
