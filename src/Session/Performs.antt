-- ===== src/Session/Performs.antt =====
-- One call does what the view says.
use mathlib.Core.Path.{subst}
use wasrisc.Base.{
  ℕ, ◌+◌, ◌*◌, ◌≡◌, refl, sym, ◌∙◌, arith, List, [], ◌++◌, leb, true, false, Bool-cases, inl, inr,
  leb→le, Bool, if◌then◌else◌, length, length-append, append-nil,
}
use native.Mathlib.Nat.{zero-add}
use wasrisc.Host.{Wasm}
use wasrisc.Machine.{Ensures, Ensures-mono}
use wasrisc.Session.{
  Target, Input, Call, compute, write, clock, report, bare_stub, adapter_stub, input_at,
  input_length, print, perform,
}
use wasrisc.Session.View.{View, text, observe, answer, Admits}
use wasrisc.Wasi.{State, Printed}
use wasrisc.Wasi.Clock.{pseudoclock_increments}
use wasrisc.Wasi.Clock.Time.{clock_time_get-exact}
use wasrisc.Wasi.Imports.Frame.{invoke-Printed}
use wasrisc.Wasip2.Messages.{bare-Printed, adapter-Printed}
use wasrisc.Wasi.Write.{iovecs_size}
use wasrisc.Wasi.Write.Gather.{transcript}
use wasrisc.Wasi.Write.Laws.{banner, refusal, fd_write-transcript, fd_write-nomem}

module _ (target : Target) (wasm : Wasm) (given : Input) where
  abbrev pub S : Type 0
  S = State target.libc.Device wasm.Linear

  -- The state shows the view and the given input, and its device takes `n` more bytes.
  pub record Shows (v : View wasm.Linear) (n : ℕ) (s : S) : Type 0 where
    pub memory : s.memory ≡ v.memory
    pub values : target.Holds given v.values s.device
    pub calls : s.ticks ≡ 1 + v.calls * pseudoclock_increments
    pub room : target.libc.Accepts n s.device

  abbrev pub Performed : Call wasm.Linear → View wasm.Linear → ℕ → S → Type 0
  Performed c v n s = Ensures (perform target wasm c s) (λ r t.
      (r ≡ answer wasm given c)
      × (target.libc.output t.device ≡ target.libc.output s.device ++ text target wasm c v.memory)
      × Shows (observe wasm c v) n t)

  -- The machine's memory as the view's.
  abbrev seen : View wasm.Linear → S → View wasm.Linear
  seen v s = record v { memory = s.memory }

  -- What only prints changes no more of the view.
  Printed-Shows :
      {bytes : List ℕ} {v : View wasm.Linear} {k n : ℕ} {s t : S}
      → Printed target.libc bytes n s t
      → Shows v k s
      → Shows v n t
  Printed-Shows {v} {s} {t} p h = record {
    memory = p.memory ∙ h.memory;
    values = target.Holds_rest given v.values s.device t.device p.rest h.values;
    calls = p.ticks ∙ h.calls;
    room = p.room;
  }

  pub length-regroup : (a b : List ℕ) (n : ℕ) → length (a ++ b) + n ≡ length a + (length b + n)
  length-regroup a b n = omega (arith, length-append a b)

  module _ (v : View wasm.Linear) (k n : ℕ) (s : S) (h : Shows (seen v s) k s) where
    abbrev Room : List ℕ → Type 0
    Room bytes = target.libc.Accepts (length bytes + n) s.device

    -- What `fd_write` prints, by whether the buffers are few enough.
    abbrev written : ℕ → ℕ → ℕ → Bool → List ℕ
    written wasi_fd p count few =
        if few
        then banner target.libc wasi_fd ++ transcript target.libc wasm s.memory wasi_fd p count 0
        else banner target.libc wasi_fd ++ refusal target.libc

    write-few :
        (wasi_fd p count result : ℕ)
        → Admits target wasm (seen v s) (write wasi_fd p count result)
        → leb count iovecs_size ≡ true
        → Room (text target wasm (write wasi_fd p count result) s.memory)
        → Performed (write wasi_fd p count result) (seen v s) n s
    unfolding perform text observe answer
    write-few wasi_fd p count result small few room = rw few (
        Ensures-mono
          (fd_write-transcript target.libc wasm wasi_fd p count result n s
            (leb→le count iovecs_size few) (λ j below. small j below (leb→le count iovecs_size few))
            (subst (λ b. Room (written wasi_fd p count b)) few room))
          λ r t (ok, stored, ticks, output, others, left). (
            ok,
            output,
            record {
              memory = stored;
              values = target.Holds_rest given v.values s.device t.device others h.values;
              calls = ticks ∙ h.calls;
              room = left;
            },
          ))

    write-many :
        (wasi_fd p count result : ℕ)
        → leb count iovecs_size ≡ false
        → Room (text target wasm (write wasi_fd p count result) s.memory)
        → Performed (write wasi_fd p count result) (seen v s) n s
    unfolding perform text observe answer
    write-many wasi_fd p count result many room = rw many (
        Ensures-mono
          (fd_write-nomem target.libc wasm wasi_fd p count result n s (ground arith) (
            subst (λ l. target.libc.Accepts l s.device)
              (length-regroup (banner target.libc wasi_fd) (refusal target.libc) n)
              (subst (λ b. Room (written wasi_fd p count b)) many room)))
          λ r t (code, printed). (code, printed.output, Printed-Shows printed h))

    print-Performed :
        (val : ℕ)
        → Admits target wasm (seen v s) (print val)
        → Room (target.printk_text val)
        → Performed (print val) (seen v s) n s
    unfolding perform text observe answer
    print-Performed val ok room =
        let (_, d, ran, (output, held, left)) =
          target.guest_printk_lem given val n v.values s.device h.values ok room in
        (
          0,
          record s { device = d },
          rw ran refl,
          (refl, output, record { memory = refl; values = held; calls = h.calls; room = left }),
        )

    silent :
        (m : wasm.Linear) (calls ticks : ℕ)
        → ticks ≡ 1 + calls * pseudoclock_increments
        → Room []
        → Shows
            (record { memory = m; values = v.values; calls = calls })
            n
            (record s { memory = m; ticks = ticks })
    silent m calls ticks told room = record {
      memory = refl;
      values = h.values;
      calls = told;
      room = subst (λ l. target.libc.Accepts l s.device) (zero-add n) room;
    }

    seen-Performed :
        (c : Call wasm.Linear)
        → Admits target wasm (seen v s) c
        → Room (text target wasm c s.memory)
        → Performed c (seen v s) n s
    unfolding perform text observe answer
    seen-Performed (compute f) _ room = (
      0,
      record s { memory = f s.memory },
      refl,
      (refl, sym (append-nil (target.libc.output s.device)), silent _ _ _ h.calls room),
    )
    seen-Performed (write wasi_fd p count result) small room =
        elim (Bool-cases (leb count iovecs_size)) [
          | inl few ↦ write-few wasi_fd p count result small few room
          | inr many ↦ write-many wasi_fd p count result many room
        ]
    seen-Performed (clock clock_id precision p) early room = (
      0,
      _,
      clock_time_get-exact target.libc wasm clock_id precision p v.calls s h.calls early,
      (refl, sym (append-nil (target.libc.output s.device)), silent _ _ _ refl room),
    )
    seen-Performed (report i) _ room =
        Ensures-mono (invoke-Printed target.libc i n s room)
          λ r t (code, printed). (code, printed.output, Printed-Shows printed h)
    seen-Performed (bare_stub i) _ room =
        Ensures-mono (bare-Printed target.libc i n s room)
          λ r t (code, printed). (code, printed.output, Printed-Shows printed h)
    seen-Performed (adapter_stub i) _ room =
        Ensures-mono (adapter-Printed target.libc i n s room)
          λ r t (code, printed). (code, printed.output, Printed-Shows printed h)
    seen-Performed (input_at index) ok room = (
      given.bytes index,
      s,
      rw (target.input_data_lem given v.values s.device index h.values ok) refl,
      (refl, sym (append-nil (target.libc.output s.device)), silent _ _ _ h.calls room),
    )
    seen-Performed input_length _ room = (
      _,
      s,
      refl,
      (
        target.input_data_len_lem given v.values s.device h.values,
        sym (append-nil (target.libc.output s.device)),
        silent _ _ _ h.calls room,
      ),
    )
    seen-Performed (print val) ok room = print-Performed val ok room

  -- One call, in a state that shows a view that admits it.
  pub perform-Shows :
      (c : Call wasm.Linear) (v : View wasm.Linear) (n : ℕ) (s : S)
      → Shows v (length (text target wasm c v.memory) + n) s
      → Admits target wasm v c
      → Performed c v n s
  perform-Shows c v n s h =
      subst
        (λ m.
          Shows (record v { memory = m }) (length (text target wasm c m) + n) s
          → Admits target wasm (record v { memory = m }) c
          → Performed c (record v { memory = m }) n s)
        h.memory (λ h' ok. seen-Performed v _ n s h' c ok h'.room) h
