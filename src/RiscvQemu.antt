-- ===== src/RiscvQemu.antt =====
-- The bare QEMU target: platform/riscv-qemu/main.c. The UART is polled, so the device is the list of
-- what the coming reads of its line status register return, and the bytes transmitted.
pub mod Polling
pub mod Imports
pub mod Hex
pub mod Endings
pub mod Library
pub mod Session
use wasrisc.Base.{
  ℕ, suc, ◌+◌, ◌%◌, ◌^◌, ◌≡◌, List, [], ◌∷◌, ◌++◌, bit_and, ◌==◌, not, if◌then◌else◌, codes,
}
use wasrisc.Machine.{Run, done, halted, hangs, Cmd, pure, ◌>>◌}
use wasrisc.Machine.Word.{u8}

abbrev pub uart_lsr_thre : ℕ
uart_lsr_thre = 2 ^ 5

pub record Device : Type 0 where
  pub lsr : List ℕ
  pub sent : List ℕ

-- The polling loop over the reads to come, and the store that follows it. Where no read shows the
-- register empty, the loop never ends.
unfoldable pub transmit : List ℕ → ℕ → List ℕ → Run Device (Unit {0})
transmit [] c sent = hangs (record { lsr = []; sent = sent })
transmit (status ∷ rest) c sent =
    if bit_and status uart_lsr_thre == 0
    then transmit rest c sent
    else done tt (record { lsr = rest; sent = sent ++ u8 c ∷ [] })

unfoldable pub writeuartc : ℕ → Cmd Device (Unit {0})
unfolding transmit
writeuartc c d = transmit d.lsr c d.sent
