-- ===== src/RiscvWamrQemu/Sending.antt =====
-- `_write` over `uart_putc`: what reaches the terminal.
use mathlib.Core.Path.{subst}
use wasrisc.Base.{
  ℕ, zero, suc, ◌+◌, ◌^◌, ◌≤◌, ◌<◌, ◌≡◌, ◌⊎◌, refl, sym, ap, ◌∙◌, arith, List, [], ◌∷◌, ◌++◌, ◌==◌,
  ◌&&◌, not, false, Bool-cases, inl, inr, if◌then◌else◌, lt→ltb, length, length-append, append-nil,
  append_assoc,
}
use wasrisc.Machine.{done, Ensures}
use wasrisc.Machine.Memory.{Memory}
use wasrisc.Machine.Word.{u8}
use wasrisc.RiscvWamrQemu.{Board, Posix, uart_lsr_tx_idle, wait, uart_putc, write_bytes, write}
use wasrisc.RiscvWamrQemu.Waiting.{shows, wait-shows}

-- A newline is followed by a carriage return.
abbrev pub on_terminal : ℕ → List ℕ
on_terminal c = if c == 10 then 10 ∷ 13 ∷ [] else u8 c ∷ []

-- What the terminal gets of the `k` bytes of memory from `p` on.
unfoldable pub terminal : Memory → ℕ → ℕ → List ℕ
terminal m zero p = []
terminal m (suc k) p = on_terminal (m p) ++ terminal m k (p + 1)

abbrev pub idle : Board → ℕ
idle b = shows uart_lsr_tx_idle b.lsr

abbrev pub after_sending : List ℕ → List ℕ → Board → Board
after_sending rest bytes b = record b { lsr = rest; sent = b.sent ++ bytes }

-- The device has sent the bytes, and `n` reads to come still show it idle.
abbrev pub Sent : List ℕ → ℕ → Board → Board → Type 0
Sent bytes n b t =
    (rest : List ℕ) × (t ≡ after_sending rest bytes b) × (n ≤ shows uart_lsr_tx_idle rest)

uart_putc_newline :
    (b : Board) (rest rest' : List ℕ)
    → wait uart_lsr_tx_idle b ≡ done tt (record b { lsr = rest })
    → wait uart_lsr_tx_idle (after_sending rest (10 ∷ []) b)
      ≡ done tt (after_sending rest' (10 ∷ []) b)
    → uart_putc 10 b ≡ done tt (after_sending rest' (10 ∷ 13 ∷ []) b)
unfolding uart_putc
uart_putc_newline b rest rest' first second =
    rw (first, second)
      (ap (λ o. done tt (record b { lsr = rest'; sent = o }))
        (append_assoc b.sent (10 ∷ []) (13 ∷ [])))

uart_putc_other :
    (c : ℕ) (b : Board) (rest : List ℕ)
    → (c == 10) ≡ false
    → wait uart_lsr_tx_idle b ≡ done tt (record b { lsr = rest })
    → uart_putc c b ≡ done tt (after_sending rest (u8 c ∷ []) b)
unfolding uart_putc
uart_putc_other c b rest other first = rw (first, other) refl

uart_putc_newline-Sent :
    (n : ℕ) (b : Board) → 2 + n ≤ idle b → Ensures (uart_putc 10 b) (λ _. Sent (10 ∷ 13 ∷ []) n b)
uart_putc_newline-Sent n b room =
    let (rest, first, left) = wait-shows uart_lsr_tx_idle (suc n) b (omega arith) in
    let (rest', second, left') =
      wait-shows uart_lsr_tx_idle n (after_sending rest (10 ∷ []) b) left in
    (
      tt,
      after_sending rest' (10 ∷ 13 ∷ []) b,
      uart_putc_newline b rest rest' first second,
      (rest', refl, left'),
    )

uart_putc-Sent :
    (c n : ℕ) (b : Board)
    → length (on_terminal c) + n ≤ idle b
    → Ensures (uart_putc c b) (λ _. Sent (on_terminal c) n b)
uart_putc-Sent c n b room = elim (Bool-cases (c == 10)) [
  | inl newline ↦
      let ten : 10 ≡ c = ground arith in
      subst (λ c'. Ensures (uart_putc c' b) (λ _. Sent (on_terminal c') n b)) ten
        (uart_putc_newline-Sent n b (ground arith))
  | inr other ↦
      let (rest, first, left) = wait-shows uart_lsr_tx_idle n b (ground arith) in
      rw other (
        tt,
        after_sending rest (u8 c ∷ []) b,
        uart_putc_other c b rest other first,
        (rest, refl, left),
      )
]

write_bytes-Sent :
    (k p n : ℕ) (b : Board)
    → length (terminal b.memory k p) + n ≤ idle b
    → Ensures (write_bytes k p b) (λ _. Sent (terminal b.memory k p) n b)
unfolding write_bytes terminal
write_bytes-Sent zero p n b room =
    (tt, b, refl, (b.lsr, ap (λ o. record b { sent = o }) (sym (append-nil b.sent)), omega arith))
write_bytes-Sent (suc k) p n b room =
    let tail = terminal b.memory k (p + 1) in
    let (_, t, ran, (rest, at, left)) =
      uart_putc-Sent (b.memory p) (length tail + n) b
        (omega (arith, length-append (on_terminal (b.memory p)) tail)) in
    let (_, u, ran', (rest', at', left')) =
      write_bytes-Sent k (p + 1) n (after_sending rest (on_terminal (b.memory p)) b) left in
    (
      tt,
      u,
      rw (ran, at) ran',
      (
        rest',
        at'
            ∙ ap (λ o. record b { lsr = rest'; sent = o })
                (append_assoc b.sent (on_terminal (b.memory p)) tail),
        left',
      ),
    )

module _ (posix : Posix) (file ptr len n : ℕ) (b : Board) where
  -- On the standard output and error, `_write` returns `len`, has sent the bytes at `ptr` in order,
  -- a carriage return behind each newline, and changes nothing else of the board but the reads of
  -- the line status that it used, when `len` is not negative and enough reads show the UART idle.
  pub write-Sent :
      (file ≡ posix.stdout_fileno) ⊎ (file ≡ posix.stderr_fileno)
      → len < 2 ^ 31
      → length (terminal b.memory len ptr) + n ≤ idle b
      → Ensures
          (write posix file ptr len b)
          (λ r t. (r ≡ len) × Sent (terminal b.memory len ptr) n b t)
  unfolding write
  write-Sent console small room =
      let accepted : (not (file == posix.stdout_fileno) && not (file == posix.stderr_fileno))
          ≡ false =
        ground arith in
      let (_, t, ran, sent) = write_bytes-Sent len ptr n b room in
      (len, t, rw (accepted, lt→ltb len (2 ^ 31) small, ran) refl, (refl, sent))
