-- ===== src/Session/Refines.antt =====
-- The machine does what the view says.
use mathlib.Core.Path.{subst, ap₂}
use wasrisc.Base.{ℕ, ◌+◌, ◌≡◌, refl, sym, ap, ◌∙◌, ◌++◌, length, append-nil, append_assoc}
use native.Mathlib.Nat.{zero-add}
use wasrisc.Host.{Wasm}
use wasrisc.Machine.{Ensures, Ensures-bind}
use wasrisc.Session.{Target, Input, Program, ret, call, follow}
use wasrisc.Session.Performs.{S, Shows, perform-Shows, length-regroup}
use wasrisc.Session.View.{View, text, answer, observe, observe_all, result, text_all, AdmitsAll}

module _ (target : Target) (wasm : Wasm) (given : Input) {A : Type 0} where
  -- On any target: from a state that shows a view and an input, with room for the text, a guest whose
  -- calls keep within the bounds of the code and the target comes to what the view and the input
  -- foretell, has printed the text of its calls, and leaves a state that shows the view after them, and
  -- the input. Each call may depend on the results of the calls before and on the linear memory.
  pub follow-Shows :
      (p : Program wasm.Linear A) (v : View wasm.Linear) (n : ℕ) (s : S target wasm given)
      → Shows target wasm given v (length (text_all target wasm given p v) + n) s
      → AdmitsAll target wasm given p v
      → Ensures (follow target wasm p s) (λ a t.
        (a ≡ result wasm given p v)
        × (target.libc.output t.device
            ≡ target.libc.output s.device ++ text_all target wasm given p v)
        × Shows target wasm given (observe_all wasm given p v) n t)
  unfolding follow observe_all result text_all
  follow-Shows (ret a) v n s h _ = (
    a,
    s,
    refl,
    (
      refl,
      sym (append-nil (target.libc.output s.device)),
      record {
        memory = h.memory;
        values = h.values;
        calls = h.calls;
        room = subst (λ l. target.libc.Accepts l s.device) (zero-add n) h.room;
      },
    ),
  )
  follow-Shows (call c next) v n s h (ok, oks) =
      let w = observe wasm c v in
      let first = text target wasm c v.memory in
      let rest = next (answer wasm given c) w.memory in
      let later = text_all target wasm given rest w in
      let h' : Shows target wasm given v (length first + (length later + n)) s = record {
        memory = h.memory;
        values = h.values;
        calls = h.calls;
        room =
            subst (λ l. target.libc.Accepts l s.device)
              (length-regroup target wasm given first later n) h.room;
      } in
      Ensures-bind (perform-Shows target wasm given c v (length later + n) s h' ok)
        λ r t (answered, output, shows).
          let (a, u, ran, (came, rest_output, shows')) =
            follow-Shows (next (answer wasm given c) w.memory) w n t shows oks in
          let same : next r t.memory ≡ rest = ap₂ next answered shows.memory in
          (
            a,
            u,
            ap (λ q. follow target wasm q t) same ∙ ran,
            (
              came,
              rest_output
                  ∙ ap (λ o. o ++ later) output
                  ∙ append_assoc (target.libc.output s.device) first later,
              shows',
            ),
          )
