-- ===== src/RiscvWamrQemu/Streams.antt =====
-- Successive calls of `_write`, as the C library makes them for its streams.
use native.Mathlib.Nat.{zero-add, add-zero}
use wasrisc.Base.{
  ℕ, zero, suc, ◌+◌, ◌^◌, ◌≤◌, ◌<◌, ◌≡◌, ◌⊎◌, refl, sym, ap, ◌∙◌, arith, List, [], ◌∷◌, ◌++◌, All,
  length, length-append, append-nil, append_assoc,
}
use wasrisc.Machine.{Cmd, pure, Ensures, ◌>>=◌}
use wasrisc.Machine.Memory.{Memory}
use wasrisc.RiscvWamrQemu.{Board, Posix, write}
use wasrisc.RiscvWamrQemu.Sbrk.{sum}
use wasrisc.RiscvWamrQemu.Sending.{Sent, after_sending, idle, terminal, on_terminal, write-Sent}

-- The text at `ptr`, written in chunks of the given lengths.
unfoldable pub write_each : Posix → ℕ → ℕ → List ℕ → Cmd Board (List ℕ)
write_each posix file ptr [] = pure []
write_each posix file ptr (len ∷ lens) = do
  r ← write posix file ptr len
  rs ← write_each posix file (ptr + len) lens
  pure (r ∷ rs)

terminal-append :
    (m : Memory) (j k p : ℕ) → terminal m (j + k) p ≡ terminal m j p ++ terminal m k (p + j)
unfolding terminal
terminal-append m zero k p = rw (zero-add, add-zero) refl
terminal-append m (suc j) k p =
    let longer : suc j + k ≡ suc (j + k) = omega arith in
    let further : p + 1 + j ≡ p + suc j = omega arith in
    ap (λ n. terminal m n p) longer
    ∙ ap (λ t. on_terminal (m p) ++ t)
        (terminal-append m j k (p + 1) ∙ ap (λ q. terminal m j (p + 1) ++ terminal m k q) further)
    ∙ sym (append_assoc (on_terminal (m p)) _ _)

module _ (posix : Posix) (file n : ℕ) where
  -- However a text is cut into chunks, the calls of `_write` on the standard output or error that send
  -- them return the chunks' lengths, and what reaches the terminal is that of the text in one piece;
  -- when no length is negative and enough reads show the UART idle.
  pub write_each-Sent :
      (lens : List ℕ) (ptr : ℕ) (b : Board)
      → (file ≡ posix.stdout_fileno) ⊎ (file ≡ posix.stderr_fileno)
      → All (λ len. len < 2 ^ 31) lens
      → length (terminal b.memory (sum lens) ptr) + n ≤ idle b
      → Ensures
          (write_each posix file ptr lens b)
          (λ rs t. (rs ≡ lens) × Sent (terminal b.memory (sum lens) ptr) n b t)
  unfolding write_each terminal sum
  write_each-Sent [] ptr b console small room = (
    [],
    b,
    refl,
    (refl, (b.lsr, ap (λ o. record b { sent = o }) (sym (append-nil b.sent)), omega arith)),
  )
  write_each-Sent (len ∷ lens) ptr b console small room =
      let chunk = terminal b.memory len ptr in
      let tail = terminal b.memory (sum lens) (ptr + len) in
      let whole = terminal-append b.memory len (sum lens) ptr in
      let (_, t, ran, (same, (rest, at, left))) =
        write-Sent posix file ptr len (length tail + n) b console small.0
          (omega (arith, length-append chunk tail, rw whole at room)) in
      let (_, u, ran', (same', (rest', at', left'))) =
        write_each-Sent lens (ptr + len) (after_sending rest chunk b) console small.1 left in
      (
        len ∷ lens,
        u,
        rw (ran, at, ran', same, same') refl,
        (
          refl,
          (
            rest',
            at'
                ∙ ap (λ o. record b { lsr = rest'; sent = o })
                    (append_assoc b.sent chunk tail ∙ ap (λ o. b.sent ++ o) (sym whole)),
            left',
          ),
        ),
      )
