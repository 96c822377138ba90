-- ===== src/RiscvQemu/Endings.antt =====
-- platform/riscv-qemu/main.c: `trap`, `abort` and `main`.
use mathlib.Core.Path.{subst}
use wasrisc.Base.{
  ℕ, ◌+◌, ◌≤◌, ◌≡◌, refl, sym, ◌∙◌, ap, arith, List, [], ◌++◌, append_assoc, codes, not,
  if◌then◌else◌, length,
}
use wasrisc.Console.Output.{puts_lem, printf-puts}
use wasrisc.Console.Text.{shown}
use wasrisc.Machine.{and_then, and_then_regroup, halted, Cmd, Ensures, Ensures-mono, pure, ◌>>◌}
use wasrisc.RiscvQemu.{Device}
use wasrisc.RiscvQemu.Polling.{ready, qemu_uart, puts, printf}
use wasrisc.RiscvQemu.Imports.{exit}
use wasrisc.Wasi.Init.{wasi_init}
use wasrisc.Zkvm.Port.Endings.{shown-trap_message}
use wasrisc.Zkvm.Port.{Guest, Trap, trap_message}

unfoldable pub trap : Trap → Cmd Device (Unit {0})
trap code = do puts (codes "trap(..)\n"); puts (trap_message code); exit 0

unfoldable pub abort : Cmd Device (Unit {0})
abort = do puts (codes "abort()\n"); exit 0

unfoldable pub main : Guest Device → Cmd Device ℕ
main guest = if not wasi_init then (do printf (codes "failed to init WASI\n") []; pure 1) else do
  printf (codes "instantiating guest program...\n") []
  guest.instantiate
  guest.start
  guest.free_instance
  printf (codes "guest program completed\n") []
  pure 0

-- The console's `puts`, for a text that it shows as it is.
pub puts-plain :
    (s : List ℕ) (n : ℕ) (d : Device)
    → shown s ≡ s
    → length s + n ≤ ready d.lsr
    → Ensures (puts s d) (λ _ t. (t.sent ≡ d.sent ++ s) × (n ≤ ready t.lsr))
unfolding puts
puts-plain s n d plain room =
    Ensures-mono
      (puts_lem qemu_uart s n d (subst (λ o. length o + n ≤ ready d.lsr) (sym plain) room))
      λ _ t p. (p.1 ∙ ap (λ o. d.sent ++ o) plain, p.2)

-- A trap names itself on the UART, after a fixed line, and resets the machine, when enough reads of
-- the line status show the register empty.
pub trap-reset :
    (code : Trap) (d : Device)
    → 9 + length (trap_message code) ≤ ready d.lsr
    → (t : Device) × (trap code d ≡ halted t)
      × (t.sent ≡ d.sent ++ (codes "trap(..)\n" ++ trap_message code))
unfolding trap exit
trap-reset code d room =
    let first =
      puts-plain (codes "trap(..)\n") (length (trap_message code)) d (unfold shown in refl) room in
    let second =
      puts-plain (trap_message code) 0 first.1 (shown-trap_message code)
        (omega (arith, first.3.1)) in
    (
      second.1,
      rw (first.2, second.2),
      second.3.0 ∙ ap (λ o. o ++ trap_message code) first.3.0 ∙ append_assoc d.sent _ _,
    )

-- startup.S from the call of `main` on: it goes on into `exit`.
unfoldable pub start : Guest Device → Cmd Device (Unit {0})
start guest = main guest >> exit 0

abbrev pub first_line : List ℕ
first_line = codes "instantiating guest program...\n"

abbrev pub last_line : List ℕ
last_line = codes "guest program completed\n"

pub printf-plain :
    (s : List ℕ) (n : ℕ) (d : Device)
    → shown s ≡ s
    → length s + n ≤ ready d.lsr
    → Ensures (printf s [] d) (λ _ t. (t.sent ≡ d.sent ++ s) × (n ≤ ready t.lsr))
unfolding printf puts
printf-plain s n d plain room =
    rw (printf-puts qemu_uart s [] d) (Ensures-mono (puts-plain s n d plain room) λ _ t p. p)

-- What the guest does between the two lines.
abbrev pub guest_run : Guest Device → Cmd Device (Unit {0})
guest_run guest = guest.instantiate >> guest.start >> guest.free_instance

module _ (guest : Guest Device) (text : List ℕ) (needs : ℕ) where
  abbrev closing : Cmd Device ℕ
  closing = printf last_line [] >> pure 0

  -- For a guest that, when `needs` reads to come show the register empty, returns, has sent `text` and
  -- has left enough of them for the last line, the machine is reset, with the first line, the text
  -- and the last line sent, when enough reads for all of it show the register empty.
  pub start-resets :
      ((t : Device)
        → needs ≤ ready t.lsr
        → Ensures (guest_run guest t) (λ _ u. (u.sent ≡ t.sent ++ text) × (24 ≤ ready u.lsr)))
      → (d : Device) → 31 + needs ≤ ready d.lsr
      → (t : Device) × (start guest d ≡ halted t)
        × (t.sent ≡ d.sent ++ (first_line ++ (text ++ last_line)))
  unfolding start main wasi_init exit
  start-resets runs d room =
      let (_, t, began, (sent, left)) =
        printf-plain first_line needs d (unfold shown in refl) room in
      let (_, u, ran, (sent', left')) = runs t left in
      let (_, v, ended, (sent'', _)) =
        printf-plain last_line 0 u (unfold shown in refl) (omega (arith, left')) in
      (
        v,
        rw began (
            ap (λ r. and_then r (λ _. exit 0))
              (and_then_regroup (guest.instantiate t) guest.start guest.free_instance closing
                ∙ ap (λ r. and_then r (λ _. closing)) ran)
            ∙ rw ended refl),
        sent''
            ∙ ap (λ o. o ++ last_line) (sent' ∙ ap (λ o. o ++ text) sent)
            ∙ append_assoc (d.sent ++ first_line) text last_line
            ∙ append_assoc d.sent first_line (text ++ last_line),
      )
