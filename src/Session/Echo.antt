-- ===== src/Session/Echo.antt =====
-- A guest that copies its input to the standard output by `fd_write`, on any target.
use native.Mathlib.Nat.{add-zero, zero-add}
use mathlib.Core.Path.{subst, ap₂}
use wasrisc.Base.{
  ℕ, zero, suc, ◌+◌, ◌^◌, ◌<◌, ◌≡◌, refl, sym, ap, ◌∙◌, arith, List, [], ◌∷◌, ◌++◌, length, get_or,
}
use wasrisc.Host.{Wasm}
use wasrisc.Machine.{Ensures, Ensures-mono}
use wasrisc.Machine.Word.{u8}
use wasrisc.Session.{
  Target, Input, Program, ret, call, follow, compute, write, input_at, input_length,
}
use wasrisc.Session.Performs.{S, Shows}
use wasrisc.Session.Prepared.{prepared, size-prepared, gathered-prepared}
use wasrisc.Session.Refines.{follow-Shows}
use wasrisc.Session.View.{View, text, answer, observe, observe_all, result, text_all, AdmitsAll}
use wasrisc.Session.Portable.{text-gathered}
use wasrisc.Wasi.Write.Gather.{length_at}

module _ (wasm : Wasm) {A : Type 0} (ending : ℕ → A) where
  -- With `k` bytes left, at index `i` of the input.
  unfoldable pub echo_from : ℕ → ℕ → Program wasm.Linear A
  echo_from zero i = ret (ending i)
  echo_from (suc k) i = call (input_at i) λ c _.
      call (compute (prepared wasm c)) λ _ _. call (write 1 0 1 24) λ _ _. echo_from k (i + 1)

  unfoldable pub echo : Program wasm.Linear A
  echo = call input_length λ n _. echo_from n 0

-- The low bytes of the input from index `i` on.
unfoldable pub bytes_from : Input → ℕ → ℕ → List ℕ
bytes_from given zero i = []
bytes_from given (suc k) i = u8 (given.bytes i) ∷ bytes_from given k (i + 1)

-- An input whose low bytes from index `i` on are those of a list.
pub bytes_from-get_or :
    (given : Input) (cs : List ℕ) (i : ℕ)
    → ((k : ℕ) → k < length cs → u8 (given.bytes (i + k)) ≡ get_or cs k 0)
    → bytes_from given (length cs) i ≡ cs
unfolding bytes_from
bytes_from-get_or given [] i same = refl
bytes_from-get_or given (c ∷ cs) i same =
    ap₂ ◌∷◌ (ap (λ j. u8 (given.bytes j)) (sym (add-zero i)) ∙ same 0 (omega arith)) (
      bytes_from-get_or given cs (i + 1) λ k below.
        let further : i + 1 + k ≡ i + suc k = omega arith in
        ap (λ j. u8 (given.bytes j)) further ∙ same (suc k) (omega arith))

module _ (target : Target) (wasm : Wasm) (given : Input) {A : Type 0} (ending : ℕ → A) where
  text-prepared :
      (c : ℕ) (m : wasm.Linear) → text target wasm (write 1 0 1 24) (prepared wasm c m) ≡ u8 c ∷ []
  text-prepared c m =
      text-gathered target wasm 1 0 1 24 (prepared wasm c m) refl (omega arith)
      ∙ gathered-prepared wasm c m

  text_all-echo_from :
      (k i : ℕ) (v : View wasm.Linear)
      → text_all target wasm given (echo_from wasm ending k i) v ≡ bytes_from given k i
  unfolding text_all echo_from bytes_from answer observe
  text_all-echo_from zero i v = refl
  text_all-echo_from (suc k) i v =
      let c = given.bytes i in
      let asked : text target wasm (input_at i) v.memory ≡ [] = unfold text in refl in
      let made : text target wasm (compute (prepared wasm c)) v.memory ≡ [] = unfold text in refl in
      rw (asked, made, text-prepared c v.memory)
        (ap (λ t. u8 c ∷ t) (text_all-echo_from k (i + 1) _))

  small-prepared :
      (c : ℕ) (m : wasm.Linear) (j : ℕ) → j < 1 → length_at wasm (prepared wasm c m) 0 j < 2 ^ 31
  small-prepared c m zero below = omega (arith, size-prepared wasm c m)
  small-prepared c m (suc j) below = absurd (omega arith)

  AdmitsAll-echo_from :
      (k i : ℕ) (v : View wasm.Linear)
      → ((j : ℕ) → j < i + k → target.Readable j)
      → AdmitsAll target wasm given (echo_from wasm ending k i) v
  unfolding echo_from answer observe
  AdmitsAll-echo_from zero i v readable = tt
  AdmitsAll-echo_from (suc k) i v readable = (
    readable i (omega arith),
    (
      tt,
      (
        λ j below _. small-prepared (given.bytes i) v.memory j below,
        AdmitsAll-echo_from k (i + 1) _ λ j below. readable j (omega arith),
      ),
    ),
  )

  result-echo_from :
      (k i : ℕ) (v : View wasm.Linear)
      → result wasm given (echo_from wasm ending k i) v ≡ ending (i + k)
  unfolding result echo_from
  result-echo_from zero i v = ap ending (sym (add-zero i))
  result-echo_from (suc k) i v =
      let further : i + 1 + k ≡ i + suc k = omega arith in
      result-echo_from k (i + 1) _ ∙ ap ending further

  values-echo_from :
      (k i : ℕ) (v : View wasm.Linear)
      → (observe_all wasm given (echo_from wasm ending k i) v).values ≡ v.values
  unfolding observe_all echo_from observe answer
  values-echo_from zero i v = refl
  values-echo_from (suc k) i v = values-echo_from k (i + 1) _

  length-bytes_from : (k i : ℕ) → length (bytes_from given k i) ≡ k
  unfolding bytes_from
  length-bytes_from zero i = refl
  length-bytes_from (suc k) i = ap suc (length-bytes_from k (i + 1))

  pub text_all-echo :
      (v : View wasm.Linear)
      → text_all target wasm given (echo wasm ending) v ≡ bytes_from given given.length 0
  unfolding echo text_all observe answer
  text_all-echo v =
      let asked : text target wasm input_length v.memory ≡ [] = unfold text in refl in
      rw asked (text_all-echo_from given.length 0 v)

  pub AdmitsAll-echo :
      (v : View wasm.Linear)
      → ((j : ℕ) → j < given.length → target.Readable j)
      → AdmitsAll target wasm given (echo wasm ending) v
  unfolding echo observe answer
  AdmitsAll-echo v readable =
      (tt, AdmitsAll-echo_from given.length 0 v λ j below. readable j (omega arith))

  pub result-echo :
      (v : View wasm.Linear) → result wasm given (echo wasm ending) v ≡ ending given.length
  unfolding echo result observe answer
  result-echo v = result-echo_from given.length 0 v ∙ ap ending (zero-add given.length)

  pub values-echo :
      (v : View wasm.Linear) → (observe_all wasm given (echo wasm ending) v).values ≡ v.values
  unfolding echo observe_all observe answer
  values-echo v = values-echo_from given.length 0 v

  -- On any target on which every index of the input can be read, with room for the input, the guest
  -- that reads its input byte by byte and writes each byte to the standard output comes to its end with
  -- the length of the input, and has printed exactly the low bytes of the input, in order; the host
  -- finds the values that it held.
  pub follow-echo :
      (v : View wasm.Linear) (n : ℕ) (s : S target wasm given)
      → Shows target wasm given v (given.length + n) s
      → ((j : ℕ) → j < given.length → target.Readable j)
      → Ensures (follow target wasm (echo wasm ending) s) (λ r t.
        (r ≡ ending given.length)
        × (target.libc.output t.device
            ≡ target.libc.output s.device ++ bytes_from given given.length 0)
        × target.Holds given v.values t.device
        × target.libc.Accepts n t.device)
  unfolding echo observe_all observe answer
  follow-echo v n s h readable =
      let prints = text_all-echo v in
      let room : given.length + n ≡ length (text_all target wasm given (echo wasm ending) v) + n =
        ap (λ k. k + n) (sym (ap length prints ∙ length-bytes_from given.length 0)) in
      let h' : Shows target wasm given v
          (length (text_all target wasm given (echo wasm ending) v) + n) s =
        record {
          memory = h.memory;
          values = h.values;
          calls = h.calls;
          room = subst (λ k. target.libc.Accepts k s.device) room h.room;
        } in
      Ensures-mono
        (follow-Shows target wasm given (echo wasm ending) v n s h' (AdmitsAll-echo v readable))
        λ r t (came, out, shows). (
          came ∙ result-echo v,
          out ∙ ap (λ o. target.libc.output s.device ++ o) prints,
          subst (λ vs. target.Holds given vs t.device) (values-echo_from given.length 0 v)
              shows.values,
          shows.room,
        )
