-- ===== src/Console/Output.antt =====
-- What `putchar`, `puts` and `printf` write to the device.
use wasrisc.Base.{
  ltb, arith, true, false, ℕ, zero, suc, ◌+◌, ◌≡◌, refl, sym, ◌∙◌, ap, List, [], ◌∷◌, ◌++◌, length,
  append-nil, append_assoc,
}
use mathlib.Core.Path.{subst}
use native.Mathlib.Nat.{zero-add, suc-add}
use wasrisc.Machine.{Ensures, Ensures-bind, Ensures-mono}
use wasrisc.Machine.Word.{u8}
use wasrisc.Console.{Uart, char_at, strlen, emit, putchar, puts, printf}
use wasrisc.Console.Text.{window, shown, window-strlen, length-shown}

module _ {S : Type 0} (uart : Uart S) where
  emit-window :
      (k i n : ℕ) (s : List ℕ) (z : S)
      → strlen s ≡ i + k
      → uart.Accepts (k + n) z
      → Ensures
          (emit uart (suc k) i s z)
          (λ _ t. (uart.output t ≡ uart.output z ++ window k i s) × uart.Accepts n t)
  unfolding emit window
  emit-window zero i n s z bound room =
      let at_end : ltb i (strlen s) ≡ false = ground (arith, bound) in
      rw at_end (
        tt,
        z,
        refl,
        (sym (append-nil (uart.output z)), subst (λ l. uart.Accepts l z) (zero-add n) room),
      )
  emit-window (suc k) i n s z bound room =
      let within : ltb i (strlen s) ≡ true = ground (arith, bound) in
      let room' : uart.Accepts (suc (k + n)) z = subst (λ l. uart.Accepts l z) (suc-add k n) room in
      rw within (
        Ensures-bind (uart.writeuartc_lem (char_at s i) (k + n) z room') λ _ t (wrote, left).
          Ensures-mono (emit-window k (i + 1) n s t (omega (arith, bound)) left)
            λ _ t' (rest, left'). (
              rest ∙ ap (λ o. o ++ window k (i + 1) s) wrote ∙ append_assoc (uart.output z) _ _,
              left',
            ))

  -- On a device with room for them, `puts` writes the bytes before the terminator, a hundred of them
  -- at most, adds no newline and returns their number.
  pub puts_lem :
      (s : List ℕ) (n : ℕ) (z : S)
      → uart.Accepts (length (shown s) + n) z
      → Ensures (puts uart s z) (λ r t.
        (r ≡ length (shown s)) × (uart.output t ≡ uart.output z ++ shown s) × uart.Accepts n t)
  unfolding puts
  puts_lem s n z room =
      Ensures-bind
        (emit-window (strlen s) 0 n s z (omega arith)
          (subst (λ l. uart.Accepts (l + n) z) (length-shown s) room))
        λ _ t (wrote, left).
          (strlen s, t, refl, (sym (length-shown s), rw (← window-strlen s) wrote, left))

  pub printf-puts : (fmt args : List ℕ) (z : S) → printf uart fmt args z ≡ puts uart fmt z
  unfolding printf puts
  printf-puts fmt args z = refl

  pub putchar_lem :
      (c n : ℕ) (z : S)
      → uart.Accepts (suc n) z
      → Ensures
          (putchar uart c z)
          (λ r t. (uart.output t ≡ uart.output z ++ u8 c ∷ []) × uart.Accepts n t)
  unfolding putchar
  putchar_lem c n z room = Ensures-bind (uart.writeuartc_lem c n z room) λ _ t p. (1, t, refl, p)
