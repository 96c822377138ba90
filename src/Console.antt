-- ===== src/Console.antt =====
-- The console functions that platform/zkvm/main.c and platform/riscv-qemu/main.c define alike over
-- their `writeuartc`: strlen, putchar, puts and printf. What a port must supply is `Uart`.
pub mod Text
pub mod Output
use wasrisc.Base.{ℕ, zero, suc, ◌+◌, ◌≡◌, List, [], ◌∷◌, ◌++◌, ◌==◌, if◌then◌else◌, get_or, ltb}
use wasrisc.Machine.{hangs, Cmd, Ensures, pure, ◌>>=◌, ◌>>◌}
use wasrisc.Machine.Word.{u8}

-- A C string: the bytes from a pointer on, with the terminating NUL behind the last of them.
abbrev pub char_at : List ℕ → ℕ → ℕ
char_at s i = get_or s i 0

abbrev pub strlen_max : ℕ
strlen_max = 100

-- The loop of `strlen` at index `i`, with `strlen_max - i` rounds left.
pub strlen_loop : ℕ → ℕ → List ℕ → ℕ
strlen_loop zero i s = strlen_max
strlen_loop (suc k) i s = let next = strlen_loop k (i + 1) s in if char_at s i == 0 then i else next

unfoldable pub strlen : List ℕ → ℕ
unfolding strlen_loop
strlen s = strlen_loop strlen_max 0 s

-- A port's `writeuartc` and what the console relies on: a device that accepts one more byte takes
-- it and hands it on. `Accepts n s` says that the device will take `n` more bytes.
pub record Uart (S : Type 0) : Type 1 where
  pub writeuartc : ℕ → Cmd S (Unit {0})
  pub output : S → List ℕ
  pub Accepts : ℕ → S → Type 0
  pub writeuartc_lem :
      (c n : ℕ) (s : S)
      → Accepts (suc n) s
      → Ensures (writeuartc c s) (λ _ t. (output t ≡ output s ++ u8 c ∷ []) × Accepts n t)

module _ {S : Type 0} (uart : Uart S) where
  -- The loop of `puts` and `printf` at index `i`, which computes its bound again at each test. A loop
  -- that uses up its rounds is one that goes on, and hangs.
  unfoldable pub emit : ℕ → ℕ → List ℕ → Cmd S (Unit {0})
  emit zero i s = λ z. hangs z
  emit (suc rounds) i s =
      if ltb i (strlen s) then uart.writeuartc (char_at s i) >> emit rounds (i + 1) s else pure tt

  unfoldable pub putchar : ℕ → Cmd S ℕ
  putchar c = uart.writeuartc c >> pure 1

  unfoldable pub puts : List ℕ → Cmd S ℕ
  unfolding emit
  puts s = emit (suc (strlen s)) 0 s >> pure (strlen s)

  -- The arguments behind the format are never read.
  unfoldable pub printf : List ℕ → List ℕ → Cmd S ℕ
  unfolding emit
  printf fmt args = emit (suc (strlen fmt)) 0 fmt >> pure (strlen fmt)
