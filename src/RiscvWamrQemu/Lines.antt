-- ===== src/RiscvWamrQemu/Lines.antt =====
-- Successive calls of `_read`, as the C library makes them for the standard input.
use mathlib.Core.List.{flatten}
use mathlib.Core.Path.{ap₂}
use native.Mathlib.Nat.{zero-add, add-zero}
use wasrisc.Base.{
  ℕ, zero, suc, ◌+◌, ◌^◌, ◌≤◌, ◌<◌, ◌≡◌, refl, sym, ap, ◌∙◌, arith, List, [], ◌∷◌, ◌++◌, All,
  length, get_or, Bool-cases, inl, inr, length-append,
}
use wasrisc.Machine.{done, Cmd, pure, Ensures, ◌>>=◌}
use wasrisc.Machine.Memory.{Memory}
use wasrisc.Machine.Word.{u8}
use wasrisc.RiscvWamrQemu.{Board, Posix, read, uart_lsr_rx_ready}
use wasrisc.RiscvWamrQemu.Reading.{ends_line, line, read-line}
use wasrisc.RiscvWamrQemu.Sbrk.{sum}
use wasrisc.RiscvWamrQemu.Waiting.{shows}

-- The bytes of memory from `ptr` on.
unfoldable pub slice : Memory → ℕ → ℕ → List ℕ
slice m zero ptr = []
slice m (suc k) ptr = m ptr ∷ slice m k (ptr + 1)

-- A read of up to `len` bytes into the buffer at `ptr`, and the bytes that it says are there.
unfoldable pub read_text : Posix → ℕ → ℕ → Cmd Board (List ℕ)
read_text posix ptr len = do
  r ← read posix posix.stdin_fileno ptr len
  λ b. done (slice b.memory r ptr) b

unfoldable pub read_each : Posix → ℕ → List ℕ → Cmd Board (List (List ℕ))
read_each posix ptr [] = pure []
read_each posix ptr (len ∷ lens) = do
  text ← read_text posix ptr len
  texts ← read_each posix ptr lens
  pure (text ∷ texts)

-- The `n` bytes that arrive from the `i`-th on.
unfoldable pub arrivals : (ℕ → ℕ) → ℕ → ℕ → List ℕ
arrivals incoming zero i = []
arrivals incoming (suc n) i = u8 (incoming i) ∷ arrivals incoming n (i + 1)

-- One line after another, each with its own limit.
unfoldable pub lines : (ℕ → ℕ) → List ℕ → ℕ → List (List ℕ)
lines incoming [] i = []
lines incoming (len ∷ lens) i =
    line len incoming i ∷ lines incoming lens (i + length (line len incoming i))

slice-get_or :
    (m : Memory) (xs : List ℕ) (ptr : ℕ)
    → ((j : ℕ) → j < length xs → m (ptr + j) ≡ get_or xs j 0)
    → slice m (length xs) ptr ≡ xs
unfolding slice
slice-get_or m [] ptr h = refl
slice-get_or m (x ∷ xs) ptr h = ap₂ ◌∷◌ (ap m (sym (add-zero ptr)) ∙ h 0 (omega arith)) (
    slice-get_or m xs (ptr + 1) λ j below.
      let further : ptr + 1 + j ≡ ptr + suc j = omega arith in
      ap m further ∙ h (suc j) (omega arith))

line-arrivals :
    (k : ℕ) (incoming : ℕ → ℕ) (i : ℕ)
    → line k incoming i ≡ arrivals incoming (length (line k incoming i)) i
unfolding line arrivals
line-arrivals zero incoming i = refl
line-arrivals (suc k) incoming i = elim (Bool-cases (ends_line (u8 (incoming i)))) [
  | inl last ↦ rw last refl
  | inr more ↦ rw more (ap (λ t. u8 (incoming i) ∷ t) (line-arrivals k incoming (i + 1)))
]

arrivals-append :
    (incoming : ℕ → ℕ) (j k i : ℕ)
    → arrivals incoming j i ++ arrivals incoming k (i + j) ≡ arrivals incoming (j + k) i
unfolding arrivals
arrivals-append incoming zero k i = rw (zero-add, add-zero) refl
arrivals-append incoming (suc j) k i =
    let longer : suc j + k ≡ suc (j + k) = omega arith in
    let further : i + suc j ≡ i + 1 + j = omega arith in
    ap (λ t. u8 (incoming i) ∷ t)
      (ap (λ q. arrivals incoming j (i + 1) ++ arrivals incoming k q) further
        ∙ arrivals-append incoming j k (i + 1))
    ∙ ap (λ n. arrivals incoming n i) (sym longer)

length-line : (k : ℕ) (incoming : ℕ → ℕ) (i : ℕ) → length (line k incoming i) ≤ k
unfolding line
length-line zero incoming i = omega arith
length-line (suc k) incoming i = elim (Bool-cases (ends_line (u8 (incoming i)))) [
  | inl last ↦ rw last (omega arith)
  | inr more ↦ rw more (omega (arith, length-line k incoming (i + 1)))
]

-- No byte between two lines is lost or comes twice.
flatten-lines :
    (incoming : ℕ → ℕ) (lens : List ℕ) (i : ℕ)
    → flatten (lines incoming lens i)
      ≡ arrivals incoming (length (flatten (lines incoming lens i))) i
unfolding flatten lines
flatten-lines incoming [] i = unfold arrivals in refl
flatten-lines incoming (len ∷ lens) i =
    let l = line len incoming i in
    let rest = flatten (lines incoming lens (i + length l)) in
    ap₂ ◌++◌ (line-arrivals len incoming i) (flatten-lines incoming lens (i + length l))
    ∙ arrivals-append incoming (length l) (length rest) i
    ∙ ap (λ n. arrivals incoming n i) (sym (length-append l rest))

module _ (posix : Posix) (ptr n : ℕ) where
  read_text-line :
      (len k : ℕ) (b : Board)
      → len < 2 ^ 31
      → len + k ≤ shows uart_lsr_rx_ready b.lsr
      → Ensures (read_text posix ptr len b) (λ text t.
        (text ≡ line len b.incoming b.received)
        × (t.incoming ≡ b.incoming)
        × (t.received ≡ b.received + length text)
        × (k ≤ shows uart_lsr_rx_ready t.lsr))
  unfolding read_text
  read_text-line len k b small room =
      let got = line len b.incoming b.received in
      let (r, t, ran, (count, received, inside, _, same, _, left)) =
        read-line posix ptr len k b small (omega (arith, length-line len b.incoming b.received)) in
      (
        got,
        t,
        rw (ran, count, slice-get_or t.memory got ptr inside) refl,
        (refl, same, received, left),
      )

  -- Successive reads of the standard input into one buffer give the lines that arrive, each up to its
  -- end or the limit of its read, and together exactly the bytes that arrive from the first on, none
  -- lost between two reads and none given twice; when no limit is negative and enough reads of the line
  -- status show a byte.
  pub read_each-arrivals :
      (lens : List ℕ) (b : Board)
      → All (λ len. len < 2 ^ 31) lens
      → sum lens + n ≤ shows uart_lsr_rx_ready b.lsr
      → Ensures (read_each posix ptr lens b) (λ texts t.
        (texts ≡ lines b.incoming lens b.received)
        × (flatten texts ≡ arrivals b.incoming (length (flatten texts)) b.received)
        × (t.received ≡ b.received + length (flatten texts))
        × (n ≤ shows uart_lsr_rx_ready t.lsr))
  unfolding read_each lines sum flatten
  read_each-arrivals [] b small room =
      ([], b, refl, (refl, unfold arrivals in refl, omega arith, omega arith))
  read_each-arrivals (len ∷ lens) b small room =
      let l = line len b.incoming b.received in
      let (text, t, ran, (same, still, received, left)) =
        read_text-line len (sum lens + n) b small.0 (omega arith) in
      let (texts, u, ran', (same', _, received', left')) = read_each-arrivals lens t small.1 left in
      let all : text ∷ texts ≡ lines b.incoming (len ∷ lens) b.received = ap₂ ◌∷◌ same (
        same'
        ∙ ap₂ (λ incoming i. lines incoming lens i) still
            (received ∙ ap (λ x. b.received + length x) same)) in
      (
        text ∷ texts,
        u,
        rw (ran, ran') refl,
        (
          all,
          ap flatten all
              ∙ flatten-lines b.incoming (len ∷ lens) b.received
              ∙ ap (λ xss. arrivals b.incoming (length (flatten xss)) b.received) (sym all),
          omega (arith, length-append text (flatten texts), received, received'),
          left',
        ),
      )
