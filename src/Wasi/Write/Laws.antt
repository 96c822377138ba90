-- ===== src/Wasi/Write/Laws.antt =====
-- What `fd_write` promises its caller.
use wasrisc.Base.{
  ℕ, ◌+◌, ◌^◌, ◌≤◌, ◌<◌, ◌≡◌, refl, sym, ap, ◌∙◌, arith, List, [], ◌∷◌, ◌++◌, false, le→ltb, lt→ltb,
  length, length-append, codes,
}
use mathlib.Core.Path.{subst, ap₂}
use native.Mathlib.Nat.{zero-add}
use wasrisc.Host.{Libc, Wasm}
use wasrisc.Machine.{Ensures, Ensures-bind, Ensures-mono}
use wasrisc.Machine.Word.{u32}
use wasrisc.Wasi.{State, Printed, errno_nomem}
use wasrisc.Wasi.Printing.{Printed-trans, print-Printed}
use wasrisc.Wasi.Write.{is_other, iovecs_size, fd_write}
use wasrisc.Wasi.Write.Gather.{
  length_at, gathered, lengths, announced, transcript, transcript-gathered, length-gathered,
}
use wasrisc.Wasi.Write.Loop.{announce-Printed, write_ciovecs-Printed}

-- The message that begins a write to a descriptor other than 1 and 2.
abbrev pub banner : Libc → ℕ → List ℕ
banner libc wasi_fd =
    announced libc wasi_fd (codes "wasi_snapshot_preview1__fd_write(wasiFD=%d)\n") (wasi_fd ∷ [])

abbrev pub refusal : Libc → List ℕ
refusal libc = libc.formatted (codes "fd_write: unexpected iovecs\n") []

module _ (libc : Libc) (wasm : Wasm) (wasi_fd p count result : ℕ) (n : ℕ)
    (s : State libc.Device wasm.Linear) where
  -- On a device with room for the messages, more than ten buffers are refused with NOMEM: the refusal
  -- is reported, behind the message that the descriptor may give rise to, and memory and clock are
  -- not touched.
  pub fd_write-nomem :
      iovecs_size < count
      → libc.Accepts (length (banner libc wasi_fd) + (length (refusal libc) + n)) s.device
      → Ensures
          (fd_write libc wasm wasi_fd p count result s)
          (λ r t. (r ≡ errno_nomem) × Printed libc (banner libc wasi_fd ++ refusal libc) n s t)
  unfolding fd_write
  fd_write-nomem many room = Ensures-bind (announce-Printed libc wasm wasi_fd _ _ _ s room) λ _ t a.
      rw (lt→ltb iovecs_size count many) (
        Ensures-bind (print-Printed libc _ [] n t a.room)
          λ _ u b. (errno_nomem, u, refl, (refl, Printed-trans libc a b)))

  -- For ten buffers at most, each below 2 ^ 31 bytes, and a device with room, it succeeds on every
  -- descriptor: the output is the messages and the buffers in order, and memory changes only by the
  -- number of bytes, as 32 bits, at the result pointer; the clock and the rest of the device do not
  -- change.
  pub fd_write-transcript :
      count ≤ iovecs_size
      → ((j : ℕ) → j < count → length_at wasm s.memory p j < 2 ^ 31)
      → libc.Accepts
          (length (banner libc wasi_fd ++ transcript libc wasm s.memory wasi_fd p count 0) + n)
          s.device
      → Ensures (fd_write libc wasm wasi_fd p count result s) (λ r t.
        (r ≡ 0)
        × (t.memory ≡ wasm.i32_store s.memory result (u32 (lengths wasm s.memory p count 0)))
        × (t.ticks ≡ s.ticks)
        × (libc.output t.device
            ≡ libc.output s.device
              ++ (banner libc wasi_fd ++ transcript libc wasm s.memory wasi_fd p count 0))
        × (libc.rest t.device ≡ libc.rest s.device)
        × libc.Accepts n t.device)
  unfolding fd_write
  fd_write-transcript few small room =
      let body = transcript libc wasm s.memory wasi_fd p count 0 in
      let split : length (banner libc wasi_fd ++ body) + n
          ≡ length (banner libc wasi_fd) + (length body + n) =
        omega (arith, length-append (banner libc wasi_fd) body) in
      Ensures-bind
        (announce-Printed libc wasm wasi_fd _ _ (length body + n) s
          (subst (λ l. libc.Accepts l s.device) split room))
        λ _ t a. rw (le→ltb iovecs_size count few) (
          Ensures-bind
            (write_ciovecs-Printed libc wasm s.memory wasi_fd p count count (iovecs_size + 1) 0 0 n
              t a.memory small (zero-add count) few (omega arith) a.room)
            λ total u (sum, b).
              let both = Printed-trans libc a b in
              (
                0,
                record u { memory = wasm.i32_store u.memory result (u32 total) },
                refl,
                (
                  refl,
                  ap₂ (λ mem k. wasm.i32_store mem result (u32 k)) both.memory
                      (sum ∙ zero-add (lengths wasm s.memory p count 0)),
                  both.ticks,
                  both.output,
                  both.rest,
                  both.room,
                ),
              ))

-- On the standard output and error, `fd_write` prints exactly the bytes of the buffers, in order,
-- stores their number, and changes nothing else. It returns, with success, whenever there are at
-- most ten buffers, each below 2 ^ 31 bytes, and the device has room.
fd_write-gathered :
    (libc : Libc) (wasm : Wasm) (wasi_fd p count result n : ℕ) (s : State libc.Device wasm.Linear)
    → is_other wasi_fd ≡ false
    → count ≤ iovecs_size
    → ((j : ℕ) → j < count → length_at wasm s.memory p j < 2 ^ 31)
    → libc.Accepts (length (gathered wasm s.memory p count 0) + n) s.device
    → Ensures (fd_write libc wasm wasi_fd p count result s) (λ r t.
      (r ≡ 0)
      × (t.memory
          ≡ wasm.i32_store s.memory result (u32 (length (gathered wasm s.memory p count 0))))
      × (t.ticks ≡ s.ticks)
      × (libc.output t.device ≡ libc.output s.device ++ gathered wasm s.memory p count 0)
      × (libc.rest t.device ≡ libc.rest s.device)
      × libc.Accepts n t.device)
fd_write-gathered libc wasm wasi_fd p count result n s console few small room =
    let printed : banner libc wasi_fd ++ transcript libc wasm s.memory wasi_fd p count 0
        ≡ gathered wasm s.memory p count 0 =
      rw (console, transcript-gathered libc wasm s.memory wasi_fd p count 0 console) in
    Ensures-mono
      (fd_write-transcript libc wasm wasi_fd p count result n s few small
        (subst (λ b. libc.Accepts (length b + n) s.device) (sym printed) room))
      λ r t (ok, stored, ticks, output, rest, left). (
        ok,
        stored
            ∙ ap (λ k. wasm.i32_store s.memory result (u32 k))
                (sym (length-gathered wasm s.memory p count 0)),
        ticks,
        output ∙ ap (λ b. libc.output s.device ++ b) printed,
        rest,
        left,
      )
