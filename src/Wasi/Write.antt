-- ===== src/Wasi/Write.antt =====
-- `fd_write` of wasi.c.
pub mod Gather
pub mod Loop
pub mod Laws
use wasrisc.Base.{
  ℕ, zero, suc, ◌+◌, ◌-◌, ◌*◌, ◌^◌, List, [], ◌∷◌, codes, not, ◌&&◌, ◌==◌, ltb, if◌then◌else◌,
}
use wasrisc.Base.{Bool}
use wasrisc.Host.{Libc, Wasm}
use wasrisc.Machine.{done, hangs, undefined, Cmd, pure, ◌>>=◌, ◌>>◌}
use wasrisc.Machine.Word.{u32, u64}
use wasrisc.Wasi.{State, errno_success, errno_nomem, print, put}

abbrev pub ciovec_size : ℕ
ciovec_size = 8

abbrev pub iovecs_size : ℕ
iovecs_size = 10

-- A descriptor other than the standard output and error.
abbrev pub is_other : ℕ → Bool
is_other wasi_fd = not (wasi_fd == 1) && not (wasi_fd == 2)

module _ (libc : Libc) (wasm : Wasm) where
  abbrev pub Wasi : Type 0 → Type 0
  Wasi A = Cmd (State libc.Device wasm.Linear) A

  abbrev pub load : ℕ → Wasi ℕ
  load p s = done (wasm.i32_load s.memory p) s

  abbrev pub store : ℕ → ℕ → Wasi (Unit {0})
  store p v s = done tt (record s { memory = wasm.i32_store s.memory p v })

  -- `putchar(iov_base[i])`, with `iov_base` the buffer at `base` of the linear memory.
  abbrev pub put_next : ℕ → ℕ → Wasi ℕ
  put_next i base s = put libc (wasm.byte s.memory (base + i)) s

  -- A message that only the descriptors other than 1 and 2 give rise to.
  unfoldable pub announce : ℕ → List ℕ → List ℕ → Wasi (Unit {0})
  announce wasi_fd fmt args = if is_other wasi_fd then print libc fmt args >> pure tt else pure tt

  -- The loop that prints one buffer of `length` bytes, at index `i`. `i` is an `int`, so an increment
  -- past 2 ^ 31 - 1 is undefined. A loop that uses up its rounds is one that goes on, and hangs.
  unfoldable pub put_bytes : ℕ → ℕ → ℕ → ℕ → Wasi (Unit {0})
  put_bytes zero length i base = λ s. hangs s
  put_bytes (suc rounds) length i base =
      if ltb i length
      then (do
        put_next i base
        if i == 2 ^ 31 - 1 then (λ _. undefined) else put_bytes rounds length (i + 1) base)
      else pure tt

  -- The loop over the ciovecs at `index`, with the bytes counted so far.
  unfoldable pub write_ciovecs : ℕ → ℕ → ℕ → ℕ → ℕ → ℕ → Wasi ℕ
  write_ciovecs wasi_fd ciovecs_pointer ciovecs_count zero index total = λ s. hangs s
  write_ciovecs wasi_fd ciovecs_pointer ciovecs_count (suc rounds) index total =
      if ltb index ciovecs_count && ltb index iovecs_size
      then (do
        let ciovec_pointer = u64 (ciovecs_pointer + index * ciovec_size)
        buffer_pointer ← load ciovec_pointer
        length ← load (u64 (ciovec_pointer + 4))
        announce wasi_fd (codes "length = %d\n") (length ∷ [])
        put_bytes (suc length) length 0 buffer_pointer
        write_ciovecs wasi_fd ciovecs_pointer ciovecs_count rounds (index + 1) (total + length))
      else pure total

  -- At most `iovecs_size` rounds are made, and the test once more.
  unfoldable pub fd_write : ℕ → ℕ → ℕ → ℕ → Wasi ℕ
  fd_write wasi_fd ciovecs_pointer ciovecs_count result_pointer = do
    announce wasi_fd (codes "wasi_snapshot_preview1__fd_write(wasiFD=%d)\n") (wasi_fd ∷ [])
    if ltb iovecs_size ciovecs_count
        then (do print libc (codes "fd_write: unexpected iovecs\n") []; pure errno_nomem)
        else do
          total ← write_ciovecs wasi_fd ciovecs_pointer ciovecs_count (iovecs_size + 1) 0 0
          store result_pointer (u32 total)
          pure errno_success
