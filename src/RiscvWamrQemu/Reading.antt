-- ===== src/RiscvWamrQemu/Reading.antt =====
-- `_read` over `uart_getc`: a line, or as much of it as fits.
use native.Mathlib.Nat.{zero-add, add-zero}
use mathlib.Core.Path.{ap₂}
use wasrisc.Base.{
  ℕ, zero, suc, ◌+◌, ◌^◌, ◌≤◌, ◌<◌, ◌≡◌, ◌≢◌, ◌&&◌, ◌⊎◌, refl, sym, ap, ◌∙◌, arith, List, [], ◌∷◌,
  ◌==◌, ◌||◌, not, Bool, true, false, Bool-cases, inl, inr, if◌then◌else◌, lt→ltb, length, get_or,
}
use wasrisc.Machine.{done, Ensures}
use wasrisc.Machine.Memory.{Memory}
use wasrisc.Machine.Word.{u8}
use wasrisc.RiscvWamrQemu.{
  Board, Posix, uart_lsr_rx_ready, uart_getc, read_bytes, read, write, minus_one,
}
use wasrisc.RiscvWamrQemu.Waiting.{shows, wait-shows}

abbrev pub ends_line : ℕ → Bool
ends_line c = (c == 13) || (c == 10)

-- The bytes that arrive from the `i`-th on, up to the end of a line or `k` of them.
unfoldable pub line : ℕ → (ℕ → ℕ) → ℕ → List ℕ
line zero incoming i = []
line (suc k) incoming i =
    let rest = line k incoming (i + 1) in
    u8 (incoming i) ∷ (if ends_line (u8 (incoming i)) then [] else rest)

-- Memory with the bytes stored from `p` on.
unfoldable pub stored : Memory → ℕ → List ℕ → Memory
stored m p [] = m
stored m p (c ∷ cs) = stored (λ a. if a == p then c else m a) (p + 1) cs

stored-outside :
    (m : Memory) (p : ℕ) (cs : List ℕ) (a : ℕ)
    → (a < p) ⊎ (p + length cs ≤ a)
    → stored m p cs a ≡ m a
unfolding stored
stored-outside m p [] a out = refl
stored-outside m p (c ∷ cs) a out =
    stored-outside (λ a'. if a' == p then c else m a') (p + 1) cs a (omega arith) ∙ ground arith

stored-inside :
    (m : Memory) (p : ℕ) (cs : List ℕ) (j : ℕ)
    → j < length cs
    → stored m p cs (p + j) ≡ get_or cs j 0
unfolding stored
stored-inside m p [] j h = absurd (omega arith)
stored-inside m p (c ∷ cs) zero h =
    stored-outside (λ a. if a == p then c else m a) (p + 1) cs (p + 0) (omega arith) ∙ ground arith
stored-inside m p (c ∷ cs) (suc j) h =
    ap (stored (λ a. if a == p then c else m a) (p + 1) cs) (omega arith)
    ∙ stored-inside (λ a. if a == p then c else m a) (p + 1) cs j (omega arith)

abbrev pub after_reading : List ℕ → ℕ → List ℕ → Board → Board
after_reading rest p cs b = record b {
  lsr = rest;
  received = b.received + length cs;
  memory = stored b.memory p cs;
}

-- One byte is waited for and taken.
uart_getc-taken :
    (n : ℕ) (b : Board)
    → suc n ≤ shows uart_lsr_rx_ready b.lsr
    → (rest : List ℕ) × (uart_getc b
        ≡ done (u8 (b.incoming b.received)) (record b { lsr = rest; received = b.received + 1 }))
      × (n ≤ shows uart_lsr_rx_ready rest)
unfolding uart_getc
uart_getc-taken n b room =
    let (rest, ran, left) = wait-shows uart_lsr_rx_ready n b room in (rest, rw ran refl, left)

-- The loop has stored `cs` and counted it, and `n` reads to come still show a byte.
abbrev Taken : List ℕ → ℕ → ℕ → ℕ → ℕ → Board → Type 0
Taken cs k i ptr n b =
    (rest : List ℕ) × (read_bytes k i ptr b
      ≡ done (i + length cs) (after_reading rest (ptr + i) cs b))
    × (n ≤ shows uart_lsr_rx_ready rest)

abbrev next_byte : Board → ℕ
next_byte b = u8 (b.incoming b.received)

read_bytes_last :
    (k i ptr n : ℕ) (b : Board)
    → ends_line (next_byte b) ≡ true
    → suc n ≤ shows uart_lsr_rx_ready b.lsr
    → Taken (next_byte b ∷ []) (suc k) i ptr n b
unfolding read_bytes stored
read_bytes_last k i ptr n b last room =
    let (rest, ran, left) = uart_getc-taken n b room in (rest, rw (ran, last) refl, left)

-- The board behind a byte that does not end the line.
abbrev behind : List ℕ → ℕ → Board → Board
behind rest p b = record b {
  lsr = rest;
  received = b.received + 1;
  memory = λ a. if a == p then next_byte b else b.memory a;
}

read_bytes_more :
    (k i ptr : ℕ) (b : Board) (rest : List ℕ)
    → ends_line (next_byte b) ≡ false
    → uart_getc b ≡ done (next_byte b) (record b { lsr = rest; received = b.received + 1 })
    → read_bytes (suc k) i ptr b ≡ read_bytes k (i + 1) ptr (behind rest (ptr + i) b)
unfolding read_bytes
read_bytes_more k i ptr b rest more ran = rw (ran, more) refl

after_reading-behind :
    (mid rest : List ℕ) (i ptr : ℕ) (cs : List ℕ) (b : Board)
    → done (i + 1 + length cs) (after_reading rest (ptr + (i + 1)) cs (behind mid (ptr + i) b))
      ≡ done (i + suc (length cs)) (after_reading rest (ptr + i) (next_byte b ∷ cs) b)
unfolding stored
after_reading-behind mid rest i ptr cs b =
    let at : ptr + (i + 1) ≡ ptr + i + 1 = omega arith in
    let count : i + 1 + length cs ≡ i + suc (length cs) = omega arith in
    let total : b.received + 1 + length cs ≡ b.received + suc (length cs) = omega arith in
    rw (at, count, total) refl

read_bytes-line :
    (k i ptr n : ℕ) (b : Board)
    → length (line k b.incoming b.received) + n ≤ shows uart_lsr_rx_ready b.lsr
    → Taken (line k b.incoming b.received) k i ptr n b
unfolding read_bytes line stored
read_bytes-line zero i ptr n b room = (
  b.lsr,
  ap₂ (λ r c. done r (record b { received = c })) (sym (add-zero i)) (sym (add-zero b.received)),
  omega arith,
)
read_bytes-line (suc k) i ptr n b room = elim (Bool-cases (ends_line (next_byte b))) [
  | inl last ↦ rw last (
      read_bytes_last k i ptr n b last (
        let one : length (next_byte b ∷ []) + n ≤ shows uart_lsr_rx_ready b.lsr = rw last at room in
        omega arith))
  | inr more ↦
      let tail = line k b.incoming (b.received + 1) in
      let (mid, ran, left) = uart_getc-taken (length tail + n) b (
        let all : length (next_byte b ∷ tail) + n ≤ shows uart_lsr_rx_ready b.lsr =
          rw more at room in
        omega arith) in
      let (rest, ran', left') = read_bytes-line k (i + 1) ptr n (behind mid (ptr + i) b) left in
      rw more (
        rest,
        read_bytes_more k i ptr b mid more ran ∙ ran' ∙ after_reading-behind mid rest i ptr tail b,
        left',
      )
]

module _ (posix : Posix) (ptr len n : ℕ) (b : Board) where
  abbrev got : List ℕ
  got = line len b.incoming b.received

  -- From the standard input, `_read` takes the bytes that arrive up to the end of a line, or `len`
  -- of them, returns their number, and has stored them at `ptr` and nothing elsewhere, when `len`
  -- is not negative and enough reads of the line status show a byte.
  pub read-line :
      len < 2 ^ 31
      → length got + n ≤ shows uart_lsr_rx_ready b.lsr
      → Ensures (read posix posix.stdin_fileno ptr len b) (λ r t.
        (r ≡ length got)
        × (t.received ≡ b.received + length got)
        × ((j : ℕ) → j < length got → t.memory (ptr + j) ≡ get_or got j 0)
        × ((a : ℕ) → (a < ptr) ⊎ (ptr + length got ≤ a) → t.memory a ≡ b.memory a)
        × (t.incoming ≡ b.incoming)
        × (t.sent ≡ b.sent)
        × (n ≤ shows uart_lsr_rx_ready t.lsr))
  unfolding read
  read-line small room =
      let (rest, ran, left) = read_bytes-line len 0 ptr n b room in
      let console : not (posix.stdin_fileno == posix.stdin_fileno) ≡ false = ground arith in
      (
        length got,
        after_reading rest ptr got b,
        rw (console, lt→ltb len (2 ^ 31) small, ran, zero-add, add-zero) refl,
        (
          refl,
          refl,
          stored-inside b.memory ptr got,
          stored-outside b.memory ptr got,
          refl,
          refl,
          left,
        ),
      )

-- On a descriptor that is none of the three standard ones `_write` and `_read` return -1, set
-- `errno` to EBADF and change nothing else.
pub refused :
    (posix : Posix) (file ptr len : ℕ) (b : Board)
    → file ≢ posix.stdin_fileno
    → file ≢ posix.stdout_fileno
    → file ≢ posix.stderr_fileno
    → (write posix file ptr len b ≡ done minus_one (record b { errno = posix.ebadf }))
      × (read posix file ptr len b ≡ done minus_one (record b { errno = posix.ebadf }))
unfolding write read
refused posix file ptr len b not_in not_out not_err =
    let unwritable : (not (file == posix.stdout_fileno) && not (file == posix.stderr_fileno))
        ≡ true =
      ground arith in
    let unreadable : not (file == posix.stdin_fileno) ≡ true = ground arith in
    (rw unwritable refl, rw unreadable refl)
