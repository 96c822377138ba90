-- ===== src/Tests/Wamr.antt =====
-- The board of the WAMR target, with a UART that is always ready.
use mathlib.Core.List.{flatten}
use wasrisc.RiscvWamrQemu.File2c.{main, source, body, hex_byte, hex_digit, int_text, decimal}
use wasrisc.RiscvWamrQemu.File2c.RoundTrip.{array_of, main-array_of}
use wasrisc.Base.{
  Option, some, ℕ, zero, suc, ◌+◌, ◌-◌, ◌≤◌, ◌<◌, ◌≡◌, ◌⊎◌, length, inl, refl, arith, List, [], ◌∷◌,
  codes, get_or,
}
use wasrisc.Machine.{Ensures, done}
use wasrisc.Machine.Memory.{Memory, store32}
use wasrisc.RiscvWamrQemu.{Board, Posix, read}
use wasrisc.RiscvWamrQemu.Waiting.{shows}
use wasrisc.RiscvWamrQemu.Sending.{Sent, terminal}
use wasrisc.RiscvWamrQemu.Streams.{write_each, write_each-Sent}
use wasrisc.RiscvWamrQemu.Lines.{read_each, lines, arrivals, read_each-arrivals}
use wasrisc.RiscvWamrQemu.File2c.Length.{declared_length, main-declared_length}
use wasrisc.RiscvWamrQemu.Reading.{line, read-line}
use wasrisc.RiscvWamrQemu.Sbrk.{sbrk_each, sbrk_each-side_by_side, side_by_side, sum}

abbrev pub posix : Posix
posix = record {
  stdin_fileno = 0;
  stdout_fileno = 1;
  stderr_fileno = 2;
  ebadf = 9;
  enomem = 12;
  enosys = 88;
  s_ifchr = 8192;
  set_st_mode = λ p v m. store32 m (p + 4) v;
}

abbrev pub ready : ℕ → List ℕ
ready zero = []
ready (suc n) = 33 ∷ ready n

-- `hi` and a newline lie at 16, and `ok` and a carriage return arrive.
abbrev pub two_lines : Memory
two_lines a = get_or (codes "hi\n") (a - 16) 0

abbrev pub b : Board
b = record {
  lsr = 0 ∷ ready 8;
  incoming = λ i. get_or (codes "ok\rno") i 0;
  received = 0;
  sent = [];
  memory = two_lines;
  errno = 0;
  heap_end = 4096;
}

read-line_example : Ensures (read posix 0 32 80 b) (λ r t.
    (r ≡ 3)
    × (t.received ≡ 3)
    × ((j : ℕ) → j < 3 → t.memory (32 + j) ≡ get_or (codes "ok\r") j 0)
    × ((a : ℕ) → (a < 32) ⊎ (35 ≤ a) → t.memory a ≡ two_lines a)
    × (t.incoming ≡ b.incoming)
    × (t.sent ≡ [])
    × (5 ≤ shows 1 t.lsr))
unfolding line
read-line_example = read-line posix 32 80 5 b (omega arith) (unfold shows in omega arith)

sbrk_each-side_by_side_example :
    sbrk_each posix 8192 (16 ∷ 32 ∷ []) b ≡ done (4096 ∷ 4112 ∷ []) (record b { heap_end = 4144 })
unfolding side_by_side sum
sbrk_each-side_by_side_example =
    sbrk_each-side_by_side posix 8192 (16 ∷ 32 ∷ []) b (omega arith) (omega arith) (omega arith)

abbrev one_file : List ℕ → Option (List ℕ)
one_file name = some (1 ∷ 255 ∷ 125 ∷ [])

main-array_of_example :
    ((main one_file (codes "file2c" ∷ codes "a.wasm" ∷ codes "buffer" ∷ [])).status ≡ 0)
    × (array_of (main one_file (codes "file2c" ∷ codes "a.wasm" ∷ codes "buffer" ∷ [])).stdout
        ≡ some (1 ∷ 255 ∷ 125 ∷ []))
main-array_of_example =
    main-array_of one_file (codes "file2c") (codes "a.wasm") (codes "buffer") (1 ∷ 255 ∷ 125 ∷ [])
      refl (omega arith) (omega arith) (omega arith)

-- The text of a file of two bytes.
source_of_two :
    source (codes "b") (10 ∷ 171 ∷ [])
    ≡ codes "const char b[] = {\n    0x0A, 0xAB\n};\nint b_length=2;\n"
unfolding source body hex_byte hex_digit int_text decimal
source_of_two = refl

main-declared_length_example :
    ((main one_file (codes "file2c" ∷ codes "input" ∷ codes "blob" ∷ [])).status ≡ 0)
    × (declared_length (main one_file (codes "file2c" ∷ codes "input" ∷ codes "blob" ∷ [])).stdout
        ≡ 3)
main-declared_length_example =
    main-declared_length one_file (codes "file2c") (codes "input") (codes "blob")
      (1 ∷ 255 ∷ 125 ∷ []) refl (omega arith) (omega arith) (omega arith) (omega arith)

-- The three bytes of `hi` and its newline, in two chunks.
write_each-Sent_example :
    Ensures
      (write_each posix 1 16 (1 ∷ 2 ∷ []) b)
      (λ rs t. (rs ≡ 1 ∷ 2 ∷ []) × Sent (codes "hi\n\r") 2 b t)
unfolding terminal sum
write_each-Sent_example =
    write_each-Sent posix 1 2 (1 ∷ 2 ∷ []) 16 b (inl refl) (omega arith)
      (unfold shows in omega arith)

read_each-arrivals_example : Ensures (read_each posix 32 (4 ∷ 4 ∷ []) b) (λ texts t.
    (texts ≡ codes "ok\r" ∷ (b'n' ∷ b'o' ∷ 0 ∷ 0 ∷ []) ∷ [])
    × (flatten texts ≡ arrivals b.incoming (length (flatten texts)) 0)
    × (t.received ≡ 0 + length (flatten texts))
    × (0 ≤ shows 1 t.lsr))
unfolding lines line
read_each-arrivals_example =
    read_each-arrivals posix 32 0 (4 ∷ 4 ∷ []) b (omega arith) (unfold shows sum in omega arith)
