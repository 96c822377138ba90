-- ===== src/Session/View.antt =====
-- What a guest and its host see of a run: no UART, no addresses of an output area, no rounding.
use wasrisc.Base.{ℕ, suc, ◌+◌, ◌*◌, ◌^◌, ◌<◌, ◌≤◌, List, [], ◌∷◌, ◌++◌, leb, if◌then◌else◌}
use wasrisc.Host.{Wasm}
use wasrisc.Machine.Word.{u32}
use wasrisc.Session.{
  Target, Input, Call, Program, ret, call, compute, write, clock, report, bare_stub, adapter_stub,
  input_at, input_length, print,
}
use wasrisc.Wasip2.Bare.{bare_message}
use wasrisc.Wasip2.Adapter.{adapter_message}
use wasrisc.Wasi.{errno_success, errno_nomem}
use wasrisc.Wasi.Clock.{time_offset, pseudoclock_increments}
use wasrisc.Wasi.Imports.{said, errno}
use wasrisc.Wasi.Write.{iovecs_size}
use wasrisc.Wasi.Write.Gather.{length_at, lengths, transcript}
use wasrisc.Wasi.Write.Laws.{banner, refusal}

-- The guest's memory, the values handed to the host, and the calls of the clock.
pub record View (Linear : Type 0) : Type 0 where
  pub memory : Linear
  pub values : List ℕ
  pub calls : ℕ

module _ (wasm : Wasm) where
  -- What a call changes.
  unfoldable pub observe : Call wasm.Linear → View wasm.Linear → View wasm.Linear
  observe (compute f) v = record v { memory = f v.memory }
  observe (write wasi_fd p count result) v =
      if leb count iovecs_size
      then record v {
        memory = wasm.i32_store v.memory result (u32 (lengths wasm v.memory p count 0));
      }
      else v
  observe (clock clock_id precision p) v = record v {
    memory = wasm.i64_store v.memory p (time_offset + (1 + v.calls * pseudoclock_increments));
    calls = suc v.calls;
  }
  observe (print val) v = record v { values = v.values ++ val ∷ [] }
  observe _ v = v

  -- What it returns, with the given input.
  unfoldable pub answer : Input → Call wasm.Linear → ℕ
  answer given (write wasi_fd p count result) =
      if leb count iovecs_size then errno_success else errno_nomem
  answer given (report i) = errno i
  answer given (input_at index) = given.bytes index
  answer given input_length = given.length
  answer given _ = 0

  unfoldable pub observe_all :
      {A : Type 0} → Input → Program wasm.Linear A → View wasm.Linear → View wasm.Linear
  observe_all given (ret a) v = v
  observe_all given (call c next) v =
      observe_all given (next (answer given c) (observe c v).memory) (observe c v)

  -- What the guest comes to.
  unfoldable pub result : {A : Type 0} → Input → Program wasm.Linear A → View wasm.Linear → A
  result given (ret a) v = a
  result given (call c next) v =
      result given (next (answer given c) (observe c v).memory) (observe c v)

module _ (target : Target) (wasm : Wasm) where
  -- What a call prints.
  unfoldable pub text : Call wasm.Linear → wasm.Linear → List ℕ
  text (write wasi_fd p count result) m =
      if leb count iovecs_size
      then banner target.libc wasi_fd ++ transcript target.libc wasm m wasi_fd p count 0
      else banner target.libc wasi_fd ++ refusal target.libc
  text (report i) m = said target.libc i
  text (bare_stub i) m = target.libc.formatted (bare_message i) []
  text (adapter_stub i) m = target.libc.formatted (adapter_message i) []
  text (print val) m = target.printk_text val
  text _ m = []

  -- When it is within the bounds of the code and the target.
  abbrev pub Admits : View wasm.Linear → Call wasm.Linear → Type 0
  Admits v (write wasi_fd p count result) =
      (j : ℕ) → j < count → count ≤ iovecs_size → length_at wasm v.memory p j < 2 ^ 31
  Admits v (clock clock_id precision p) = v.calls < 90000000
  Admits v (print val) = target.Takes v.values val
  Admits v (input_at index) = target.Readable index
  Admits v _ = Unit {0}

  unfoldable pub text_all : {A : Type 0} → Input → Program wasm.Linear A → View wasm.Linear → List ℕ
  text_all given (ret a) v = []
  text_all given (call c next) v =
      text c v.memory
      ++ text_all given (next (answer wasm given c) (observe wasm c v).memory) (observe wasm c v)

  -- When every call that the guest comes to make is within the bounds.
  abbrev pub AdmitsAll : {A : Type 0} → Input → Program wasm.Linear A → View wasm.Linear → Type 0
  AdmitsAll given (ret a) v = Unit {0}
  AdmitsAll given (call c next) v =
      Admits v c
      × AdmitsAll given (next (answer wasm given c) (observe wasm c v).memory) (observe wasm c v)

-- Before the first call.
abbrev pub first_view : {Linear : Type 0} → Linear → View Linear
first_view m = record { memory = m; values = []; calls = 0 }
