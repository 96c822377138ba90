-- ===== src/RiscvWamrQemu/Stdout.antt =====
-- The standard output of a program over `_write`. Its stream is the C library's: `Stream` is what it
-- does on the board for a printed text, of which only the calls of `_write` are known.
use wasrisc.Base.{
  ℕ, zero, suc, ◌+◌, ◌^◌, ◌≤◌, ◌<◌, ◌≡◌, inl, refl, sym, ap, ◌∙◌, arith, List, [], ◌∷◌, ◌++◌, ◌==◌,
  All, if◌then◌else◌, length, length-append, append-nil, append_assoc, EndsLine,
}
use wasrisc.Machine.{done, Cmd, pure, Ensures, ◌>>◌}
use wasrisc.Machine.Memory.{Memory}
use wasrisc.RiscvWamrQemu.{Board, Posix, write}
use wasrisc.RiscvWamrQemu.Sending.{idle, terminal, on_terminal, write-Sent}

-- What the terminal gets of a text.
unfoldable pub wire : List ℕ → List ℕ
wire [] = []
wire (c ∷ cs) = on_terminal c ++ wire cs

pub wire-append : (xs ys : List ℕ) → wire (xs ++ ys) ≡ wire xs ++ wire ys
unfolding wire
wire-append [] ys = refl
wire-append (c ∷ cs) ys =
    ap (λ t. on_terminal c ++ t) (wire-append cs ys)
    ∙ sym (append_assoc (on_terminal c) (wire cs) (wire ys))

-- A text in the memory at an address.
unfoldable pub place : ℕ → List ℕ → Memory → Memory
place p [] m = m
place p (c ∷ cs) m = λ a. if a == p then c else place (p + 1) cs m a

terminal-same :
    (k p : ℕ) (m m' : Memory) → ((a : ℕ) → p ≤ a → m a ≡ m' a) → terminal m k p ≡ terminal m' k p
unfolding terminal
terminal-same zero p m m' same = refl
terminal-same (suc k) p m m' same = rw (same p (omega arith)) (
    ap (λ t. on_terminal (m' p) ++ t)
      (terminal-same k (p + 1) m m' λ a above. same a (omega arith)))

terminal-place :
    (text : List ℕ) (p : ℕ) (m : Memory) → terminal (place p text m) (length text) p ≡ wire text
unfolding terminal place wire
terminal-place [] p m = refl
terminal-place (c ∷ cs) p m =
    let first : place p (c ∷ cs) m p ≡ c = ground arith in
    rw first (
      ap (λ t. on_terminal c ++ t)
        (terminal-same (length cs) (p + 1) (place p (c ∷ cs) m) (place (p + 1) cs m)
            (λ a above. ground arith)
          ∙ terminal-place cs (p + 1) m))

-- The calls of `_write` for pieces of text, each of them in a buffer at the address beside it.
unfoldable pub write_chunks : Posix → List (ℕ × List ℕ) → Cmd Board (Unit {0})
write_chunks posix [] = pure tt
write_chunks posix ((p, text) ∷ rest) = do
  λ b. done tt (record b { memory = place p text b.memory })
  write posix posix.stdout_fileno p (length text)
  write_chunks posix rest

abbrev pub whole_text : List (ℕ × List ℕ) → List ℕ
whole_text [] = []
whole_text ((p, text) ∷ rest) = text ++ whole_text rest

-- Each piece has a length that is an `int`.
abbrev pub Small : List (ℕ × List ℕ) → Type 0
Small = All (λ chunk. length chunk.1 < 2 ^ 31)

-- The stream buffers lines: of a text that ends with one all has been handed to `_write`, in pieces,
-- when the call that printed it returns.
pub record Stream (posix : Posix) : Type 0 where
  pub send : List ℕ → Cmd Board (Unit {0})
  pub send-write_chunks :
      (text : List ℕ) (b : Board)
      → EndsLine text
      → (chunks : List (ℕ × List ℕ)) × (whole_text chunks ≡ text)
        × Small chunks
        × (send text b ≡ write_chunks posix chunks b)

module _ (posix : Posix) where
  write_chunks-wire :
      (chunks : List (ℕ × List ℕ)) (n : ℕ) (b : Board)
      → Small chunks
      → length (wire (whole_text chunks)) + n ≤ idle b
      → Ensures
          (write_chunks posix chunks b)
          (λ _ t. (t.sent ≡ b.sent ++ wire (whole_text chunks)) × (n ≤ idle t))
  unfolding write_chunks
  write_chunks-wire [] n b small room =
      (tt, b, refl, (unfold wire in sym (append-nil b.sent), unfold wire in omega arith))
  write_chunks-wire ((p, text) ∷ rest) n b small room =
      let tail = wire (whole_text rest) in
      let both = wire-append text (whole_text rest) in
      let b' = record b { memory = place p text b.memory } in
      let seen = terminal-place text p b.memory in
      let (_, t, ran, (_, (lsr, at, left))) =
        write-Sent posix posix.stdout_fileno p (length text) (length tail + n) b' (inl refl) small.0
          (rw seen (omega (arith, ap length both, length-append (wire text) tail))) in
      let (_, u, ran', (sent', left')) = write_chunks-wire rest n t small.1 (rw at left) in
      (
        tt,
        u,
        rw ran ran',
        (
          sent'
              ∙ ap (λ o. o.sent ++ tail) at
              ∙ append_assoc b.sent _ tail
              ∙ ap (λ o. b.sent ++ (o ++ tail)) seen
              ∙ ap (λ o. b.sent ++ o) (sym both),
          left',
        ),
      )

  -- All of a text of whole lines is on the terminal, a carriage return behind each newline, when the
  -- call that printed it returns, if enough reads show the UART idle.
  pub send-wire :
      (stream : Stream posix) (text : List ℕ) (n : ℕ) (b : Board)
      → EndsLine text
      → length (wire text) + n ≤ idle b
      → Ensures (stream.send text b) (λ _ t. (t.sent ≡ b.sent ++ wire text) × (n ≤ idle t))
  send-wire stream text n b line room =
      let (chunks, same, small, sends) = stream.send-write_chunks text b line in
      let (_, t, ran, (sent, left)) = write_chunks-wire chunks n b small (rw same room) in
      (tt, t, sends ∙ ran, (sent ∙ ap (λ o. b.sent ++ wire o) same, left))
