-- ===== src/RiscvQemu/Polling.antt =====
-- The polled UART as the device of the console, and the console's functions over it.
use wasrisc.Base.{
  ℕ, suc, ◌≤◌, ◌≡◌, refl, arith, List, [], ◌∷◌, ◌++◌, bit_and, ◌==◌, Bool-cases, inl, inr,
  if◌then◌else◌, codes,
}
use wasrisc.Console
use wasrisc.Console.{Uart}
use wasrisc.Machine.{Cmd, Ensures, pure, ◌>>◌}
use wasrisc.Machine.Word.{u8}
use wasrisc.RiscvQemu.{Device, uart_lsr_thre, transmit, writeuartc}

-- How many of the reads to come show the register empty.
unfoldable pub ready : List ℕ → ℕ
ready [] = 0
ready (status ∷ rest) = if bit_and status uart_lsr_thre == 0 then ready rest else suc (ready rest)

transmit-ready :
    (lsr : List ℕ) (c n : ℕ) (sent : List ℕ)
    → suc n ≤ ready lsr
    → Ensures (transmit lsr c sent) (λ _ t. (t.sent ≡ sent ++ u8 c ∷ []) × (n ≤ ready t.lsr))
unfolding transmit ready
transmit-ready [] c n sent h = absurd (omega arith)
transmit-ready (status ∷ rest) c n sent h = elim (Bool-cases (bit_and status uart_lsr_thre == 0)) [
  | inl busy ↦ rw busy (transmit-ready rest c n sent (rw busy at h))
  | inr free ↦ rw free (
    tt,
    record { lsr = rest; sent = sent ++ u8 c ∷ [] },
    refl,
    (refl, let left : suc n ≤ suc (ready rest) = rw free at h in omega arith),
  )
]

-- When some read to come shows the register empty, `writeuartc` returns, has transmitted its byte
-- once, and has used up one such read.
pub writeuartc-ready :
    (c n : ℕ) (d : Device)
    → suc n ≤ ready d.lsr
    → Ensures (writeuartc c d) (λ _ t. (t.sent ≡ d.sent ++ u8 c ∷ []) × (n ≤ ready t.lsr))
unfolding writeuartc
writeuartc-ready c n d h = transmit-ready d.lsr c n d.sent h

abbrev pub qemu_uart : Uart Device
qemu_uart = record {
  writeuartc = writeuartc;
  output = λ d. d.sent;
  Accepts = λ n d. n ≤ ready d.lsr;
  writeuartc_lem = writeuartc-ready;
}

unfoldable pub putchar : ℕ → Cmd Device ℕ
putchar = Console.putchar qemu_uart

unfoldable pub puts : List ℕ → Cmd Device ℕ
puts = Console.puts qemu_uart

unfoldable pub printf : List ℕ → List ℕ → Cmd Device ℕ
printf = Console.printf qemu_uart

-- The source returns no value.
unfoldable pub fopen : List ℕ → List ℕ → Cmd Device (Unit {0})
fopen filename mode = puts (codes "fopen\n") >> pure tt
