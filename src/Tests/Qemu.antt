-- ===== src/Tests/Qemu.antt =====
-- The polled UART: busy, then ready for 40 bytes.
use mathlib.Core.Option.{map}
use wasrisc.Base.{
  refl, none, some, ℕ, zero, suc, ◌≡◌, arith, List, [], ◌∷◌, true, All, ◌++◌, codes, length,
}
use wasrisc.Machine.{Ensures, done}
use wasrisc.RiscvQemu.{Device}
use wasrisc.RiscvQemu.Polling.{ready}
use wasrisc.RiscvQemu.Imports.{guest_printk}
use wasrisc.RiscvQemu.Hex.{is_hex_digit, hex_value, guest_printk-hex_value}
use wasrisc.RiscvQemuUser
use wasrisc.RiscvQemuUser.Printk.{guest_printk-guest_printk}
use wasrisc.Hosted.{Process}
use wasrisc.Machine.Memory.{Memory}
use wasrisc.Startup.{clear_bss, store_zero, qemu_width}
use wasrisc.Startup.Cleared.{clear_bss-IsCleared, IsCleared}

abbrev free : ℕ → List ℕ
free zero = []
free (suc n) = 32 ∷ free n

abbrev d : Device
d = record { lsr = 0 ∷ free 40; sent = [] }

guest_printk-hex_value_example : Ensures (guest_printk 0xbeef d) (λ _ t.
    (digits : List ℕ) × (t.sent ≡ codes "0x" ++ (digits ++ 10 ∷ []))
    × (length digits ≡ 8)
    × All (λ c. is_hex_digit c ≡ true) digits
    × (hex_value 0 (digits ++ 10 ∷ []) ≡ 0xbeef))
guest_printk-hex_value_example =
    guest_printk-hex_value 0xbeef d (omega arith) (unfold ready in omega arith)

clear_bss-IsCleared_example :
    (m' : Memory) × (clear_bss qemu_width 6 16 21 (λ a. a) ≡ some m')
    × IsCleared qemu_width 16 21 (λ a. a) m'
clear_bss-IsCleared_example =
    clear_bss-IsCleared qemu_width 21 (omega arith) (omega arith) 6 16 (λ a. a) (omega arith)

-- Seven bytes behind the end are cleared too.
clear_bss_overrun : map (λ m. m 23) (clear_bss qemu_width 6 16 21 (λ a. a)) ≡ some 0
unfolding clear_bss store_zero
clear_bss_overrun = refl

abbrev process : Process
process = record { stdout = []; stderr = []; ending = none }

guest_printk-guest_printk_example :
    (line : List ℕ) × (e : Device) × (q : Process) × (guest_printk 0xbeef d ≡ done tt e)
    × (RiscvQemuUser.guest_printk 0xbeef process ≡ done tt q)
    × (length line ≡ 11)
    × (e.sent ≡ line)
    × (q.stdout ≡ line ++ 10 ∷ [])
guest_printk-guest_printk_example =
    guest_printk-guest_printk 0xbeef d process (unfold ready in omega arith)
