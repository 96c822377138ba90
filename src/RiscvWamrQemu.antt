-- ===== src/RiscvWamrQemu.antt =====
-- The UART and the system calls below the C library of the WAMR target:
-- platform/riscv-wamr-qemu/uart.c and platform/riscv-wamr-qemu/syscalls.c.
-- An `int` is its 32 bits, and a pointer a number of 64 bits.
pub mod Waiting
pub mod Sending
pub mod Reading
pub mod Sbrk
pub mod Streams
pub mod Stdout
pub mod Start
pub mod Lines
pub mod File2c
use wasrisc.Base.{
  ℕ, zero, suc, ◌+◌, ◌-◌, ◌^◌, ◌≤◌, List, [], ◌∷◌, ◌++◌, bit_and, ◌==◌, ◌&&◌, ◌||◌, not, leb, ltb,
  if◌then◌else◌,
}
use wasrisc.Machine.{Run, done, hangs, Cmd, pure, ◌>>◌, ◌>>=◌}
use wasrisc.Machine.Memory.{Memory}
use wasrisc.Machine.Word.{u8, u64}

abbrev pub uart_lsr_tx_idle : ℕ
uart_lsr_tx_idle = 2 ^ 5

abbrev pub uart_lsr_rx_ready : ℕ
uart_lsr_rx_ready = 2 ^ 0

-- `lsr` is what the coming reads of the line status return, and `incoming n` the byte that the
-- `n`-th read of the receive register returns, of which `received` were made.
pub record Board : Type 0 where
  pub lsr : List ℕ
  pub incoming : ℕ → ℕ
  pub received : ℕ
  pub sent : List ℕ
  pub memory : Memory
  pub errno : ℕ
  pub heap_end : ℕ

-- `while ((UART_LSR & bit) == 0);` over the reads to come.
unfoldable pub await : List ℕ → ℕ → Cmd Board (Unit {0})
await [] bit b = hangs (record b { lsr = [] })
await (status ∷ rest) bit b =
    if bit_and status bit == 0 then await rest bit b else done tt (record b { lsr = rest })

unfoldable pub wait : ℕ → Cmd Board (Unit {0})
unfolding await
wait bit b = await b.lsr bit b

abbrev pub transmit : ℕ → Cmd Board (Unit {0})
transmit c b = done tt (record b { sent = b.sent ++ u8 c ∷ [] })

unfoldable pub uart_putc : ℕ → Cmd Board (Unit {0})
uart_putc c = do
  wait uart_lsr_tx_idle
  transmit c
  if c == 10 then wait uart_lsr_tx_idle >> transmit 13 else pure tt

unfoldable pub uart_getc : Cmd Board ℕ
uart_getc = do
  wait uart_lsr_rx_ready
  λ b. done (u8 (b.incoming b.received)) (record b { received = b.received + 1 })

-- The numbers that the headers of the C library give to the names that the code uses, and the store
-- to the field `st_mode` of the structure at an address.
pub record Posix : Type 0 where
  pub stdin_fileno : ℕ
  pub stdout_fileno : ℕ
  pub stderr_fileno : ℕ
  pub ebadf : ℕ
  pub enomem : ℕ
  pub enosys : ℕ
  pub s_ifchr : ℕ
  pub set_st_mode : ℕ → ℕ → Memory → Memory

-- `-1` as an `int`, and as a pointer.
abbrev pub minus_one : ℕ
minus_one = 2 ^ 32 - 1

abbrev pub no_pointer : ℕ
no_pointer = 2 ^ 64 - 1

-- The rounds of `for (i = 0; i < len; i++)`.
abbrev pub rounds : ℕ → ℕ
rounds len = if ltb len (2 ^ 31) then len else 0

-- An `int` added to a pointer.
abbrev pub moved : ℕ → ℕ → ℕ
moved p incr = u64 (if ltb incr (2 ^ 31) then p + incr else p + (2 ^ 64 - 2 ^ 32 + incr))

abbrev pub set_errno : ℕ → Cmd Board (Unit {0})
set_errno e b = done tt (record b { errno = e })

abbrev pub set_byte : ℕ → ℕ → Cmd Board (Unit {0})
set_byte p c b = done tt (record b { memory = λ a. if a == p then c else b.memory a })

-- The loop of `_write`, with `k` rounds left, at the byte at `p`.
unfoldable pub write_bytes : ℕ → ℕ → Cmd Board (Unit {0})
write_bytes zero p = pure tt
write_bytes (suc k) p = (λ b. uart_putc (b.memory p) b) >> write_bytes k (p + 1)

-- The loop of `_read` at index `i`.
unfoldable pub read_bytes : ℕ → ℕ → ℕ → Cmd Board ℕ
read_bytes zero i ptr = pure i
read_bytes (suc k) i ptr = do
  c ← uart_getc
  set_byte (ptr + i) c
  if (c == 13) || (c == 10) then pure (i + 1) else read_bytes k (i + 1) ptr

module _ (posix : Posix) where
  unfoldable pub write : ℕ → ℕ → ℕ → Cmd Board ℕ
  write file ptr len =
      if not (file == posix.stdout_fileno) && not (file == posix.stderr_fileno)
      then set_errno posix.ebadf >> pure minus_one
      else write_bytes (rounds len) ptr >> pure len

  unfoldable pub read : ℕ → ℕ → ℕ → Cmd Board ℕ
  read file ptr len =
      if not (file == posix.stdin_fileno)
      then set_errno posix.ebadf >> pure minus_one
      else read_bytes (rounds len) 0 ptr

  unfoldable pub open_file : ℕ → ℕ → ℕ → Cmd Board ℕ
  open_file name flags mode = set_errno posix.enosys >> pure minus_one

  -- `stack_top` is the address of the linker's `_stack_top`.
  unfoldable pub sbrk : ℕ → ℕ → Cmd Board ℕ
  sbrk stack_top incr b =
      if ltb stack_top (moved b.heap_end incr)
      then done no_pointer (record b { errno = posix.enomem })
      else done b.heap_end (record b { heap_end = moved b.heap_end incr })

  unfoldable pub fstat : ℕ → ℕ → Cmd Board ℕ
  fstat file st b = done 0 (record b { memory = posix.set_st_mode st posix.s_ifchr b.memory })

unfoldable pub close : ℕ → Cmd Board ℕ
close file = pure minus_one

unfoldable pub lseek : ℕ → ℕ → ℕ → Cmd Board ℕ
lseek file ptr dir = pure 0

unfoldable pub isatty : ℕ → Cmd Board ℕ
isatty file = pure 1

unfoldable pub exit : ℕ → Cmd Board (Unit {0})
exit code = pure tt

unfoldable pub kill : ℕ → ℕ → Cmd Board ℕ
kill pid sig = pure minus_one

unfoldable pub getpid : Cmd Board ℕ
getpid = pure 1
