-- ===== src/RiscvQemuUser/Printk.antt =====
-- The hexadecimal `printk` of the emulated process beside that of the bare machine.
use wasrisc.Base.{ℕ, ◌≤◌, ◌≡◌, refl, ap, List, [], ◌∷◌, ◌++◌, length}
use wasrisc.Console.Text.{before_nul}
use wasrisc.Hosted.{Process}
use wasrisc.Machine.{done}
use wasrisc.RiscvQemu.{Device}
use wasrisc.RiscvQemu.Polling.{ready}
use wasrisc.RiscvQemu.Imports
use wasrisc.RiscvQemu.Imports.{hex_line}
use wasrisc.RiscvQemu.Hex.{
  guest_printk_line, before_nul-hex_line, printed_line, length-printed_line,
}
use wasrisc.RiscvQemuUser.{guest_printk}

-- With a UART that takes eleven bytes, the bare machine sends a line of eleven bytes for a number, and
-- the process prints the same line with a newline more.
pub guest_printk-guest_printk :
    (v : ℕ) (d : Device) (p : Process)
    → 11 ≤ ready d.lsr
    → (line : List ℕ) × (e : Device) × (q : Process) × (Imports.guest_printk v d ≡ done tt e)
      × (guest_printk v p ≡ done tt q)
      × (length line ≡ 11)
      × (e.sent ≡ d.sent ++ line)
      × (q.stdout ≡ p.stdout ++ (line ++ 10 ∷ []))
unfolding guest_printk
guest_printk-guest_printk v d p room =
    let (e, ran, sent, _) = guest_printk_line v 0 d room in
    (
      printed_line v,
      e,
      record p { stdout = p.stdout ++ (before_nul (hex_line v) ++ 10 ∷ []) },
      ran,
      refl,
      length-printed_line v,
      sent,
      ap (λ l. p.stdout ++ (l ++ 10 ∷ [])) (before_nul-hex_line v),
    )
