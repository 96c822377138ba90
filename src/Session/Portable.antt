-- ===== src/Session/Portable.antt =====
-- The same guest on two targets.
use mathlib.Core.Path.{ap₂}
use wasrisc.Base.{ℕ, ◌+◌, ◌≤◌, ◌≡◌, refl, sym, ◌∙◌, List, [], ◌++◌, length, false, le→leb}
use wasrisc.Host.{Wasm}
use wasrisc.Machine.{Ensures, Ensures-mono}
use wasrisc.Session.{
  Target, Input, Call, Program, ret, call, follow, compute, write, clock, report, bare_stub,
  adapter_stub, input_at, input_length, print,
}
use wasrisc.Session.Performs.{S, Shows}
use wasrisc.Session.Refines.{follow-Shows}
use wasrisc.Session.View.{answer, View, text, observe, text_all, AdmitsAll}
use wasrisc.Wasi.Write.{is_other, iovecs_size}
use wasrisc.Wasi.Write.Gather.{gathered, transcript-gathered}

-- What prints the same bytes on every target: the calls that print nothing, and `fd_write` of at most
-- ten buffers to the standard output or error.
abbrev pub IsPlain : {Linear : Type 0} → Call Linear → Type 0
IsPlain (write wasi_fd p count result) = (is_other wasi_fd ≡ false) × (count ≤ iovecs_size)
IsPlain (report i) = ⊥
IsPlain (bare_stub i) = ⊥
IsPlain (adapter_stub i) = ⊥
IsPlain (print val) = ⊥
IsPlain _ = Unit {0}

module _ (wasm : Wasm) {A : Type 0} where
  -- Every call that a guest comes to make is plain.
  abbrev pub IsPlainAll : Input → Program wasm.Linear A → View wasm.Linear → Type 0
  IsPlainAll given (ret a) v = Unit {0}
  IsPlainAll given (call c next) v =
      IsPlain c
      × IsPlainAll given (next (answer wasm given c) (observe wasm c v).memory) (observe wasm c v)

-- What a plain call writes: the bytes of its buffers, without a target.
unfoldable pub written : (wasm : Wasm) → Call wasm.Linear → wasm.Linear → List ℕ
written wasm (write wasi_fd p count result) m = gathered wasm m p count 0
written wasm _ m = []

unfoldable pub written_all :
    {A : Type 0} (wasm : Wasm) → Input → Program wasm.Linear A → View wasm.Linear → List ℕ
written_all wasm given (ret a) v = []
written_all wasm given (call c next) v =
    written wasm c v.memory
    ++ written_all wasm given (next (answer wasm given c) (observe wasm c v).memory)
        (observe wasm c v)

module _ (target : Target) (wasm : Wasm) where
  pub text-gathered :
      (wasi_fd p count result : ℕ) (m : wasm.Linear)
      → is_other wasi_fd ≡ false
      → count ≤ iovecs_size
      → text target wasm (write wasi_fd p count result) m ≡ gathered wasm m p count 0
  unfolding text
  text-gathered wasi_fd p count result m console few =
      rw
        (
          le→leb count iovecs_size few,
          console,
          transcript-gathered target.libc wasm m wasi_fd p count 0 console,
        )
        refl

  text-written :
      (c : Call wasm.Linear) (m : wasm.Linear) → IsPlain c → text target wasm c m ≡ written wasm c m
  text-written (compute f) m _ = unfold text written in refl
  text-written (write wasi_fd p count result) m (console, few) =
      unfold written in text-gathered wasi_fd p count result m console few
  text-written (clock id precision p) m _ = unfold text written in refl
  text-written (report i) m plain = absurd plain
  text-written (bare_stub i) m plain = absurd plain
  text-written (adapter_stub i) m plain = absurd plain
  text-written (input_at index) m _ = unfold text written in refl
  text-written input_length m _ = unfold text written in refl
  text-written (print val) m plain = absurd plain

  pub text_all-written :
      {A : Type 0} (given : Input) (p : Program wasm.Linear A) (v : View wasm.Linear)
      → IsPlainAll wasm given p v
      → text_all target wasm given p v ≡ written_all wasm given p v
  unfolding text_all written_all
  text_all-written given (ret a) v _ = refl
  text_all-written given (call c next) v (plain, plains) =
      ap₂ ◌++◌ (text-written c v.memory plain) (
        text_all-written given (next (answer wasm given c) (observe wasm c v).memory)
          (observe wasm c v) plains)

module _ (one two : Target) (wasm : Wasm) {A : Type 0} where
  -- On two targets with the same input, from states that show the same view, with room for what is
  -- printed, a guest whose calls are within the bounds of both comes to the same end on both, with the
  -- same linear memory and the same time, though each call may depend on the results before.
  pub follow-agree :
      (given : Input) (p : Program wasm.Linear A) (v : View wasm.Linear) (s : S one wasm given)
      (t : S two wasm given)
      → Shows one wasm given v (length (text_all one wasm given p v) + 0) s
      → Shows two wasm given v (length (text_all two wasm given p v) + 0) t
      → AdmitsAll one wasm given p v
      → AdmitsAll two wasm given p v
      → Ensures (follow one wasm p s) (λ a s'.
        Ensures
          (follow two wasm p t)
          (λ a' t'. (a ≡ a') × (s'.memory ≡ t'.memory) × (s'.ticks ≡ t'.ticks)))
  follow-agree given p v s t shows_one shows_two ok_one ok_two =
      Ensures-mono (follow-Shows one wasm given p v 0 s shows_one ok_one) λ a s' (came, _, h).
        Ensures-mono (follow-Shows two wasm given p v 0 t shows_two ok_two) λ a' t' (came', _, h').
          (came ∙ sym came', h.memory ∙ sym h'.memory, h.calls ∙ sym h'.calls)
