-- ===== src/Wasi/Printing.antt =====
-- Printing from wasi.c: what it adds to the output, and that it leaves memory and clock alone.
use wasrisc.Base.{
  ℕ, suc, ◌+◌, ◌≡◌, refl, sym, ap, ◌∙◌, List, [], ◌∷◌, ◌++◌, append_assoc, append-nil, length,
}
use wasrisc.Host.{Libc}
use wasrisc.Machine.{Run, Ensures, Ensures-mono, over}
use wasrisc.Machine.Word.{u8}
use wasrisc.Wasi.{State, print, put, Printed}

Ensures-over :
    {S T A : Type 0} {P : A → T → Type 0} {r : Run T A} (put : T → S → S) (s : S)
    → Ensures r P
    → Ensures (over put r s) (λ a s'. (t : T) × (s' ≡ put t s) × P a t)
Ensures-over put s (a, t, e, p) = rw e (a, put t s, refl, (t, refl, p))

module _ (libc : Libc) {Linear : Type 0} where
  pub Printed-refl :
      (n : ℕ) (s : State libc.Device Linear) → libc.Accepts n s.device → Printed libc [] n s s
  Printed-refl n s room = record {
    memory = refl;
    ticks = refl;
    output = sym (append-nil (libc.output s.device));
    rest = refl;
    room = room;
  }

  pub Printed-trans :
      {xs ys : List ℕ} {k n : ℕ} {s t u : State libc.Device Linear}
      → Printed libc xs k s t
      → Printed libc ys n t u
      → Printed libc (xs ++ ys) n s u
  Printed-trans {xs} {ys} {s} p q = record {
    memory = q.memory ∙ p.memory;
    ticks = q.ticks ∙ p.ticks;
    output = q.output ∙ ap (λ o. o ++ ys) p.output ∙ append_assoc (libc.output s.device) xs ys;
    rest = q.rest ∙ p.rest;
    room = q.room;
  }

  pub print-Printed :
      (fmt args : List ℕ) (n : ℕ) (s : State libc.Device Linear)
      → libc.Accepts (length (libc.formatted fmt args) + n) s.device
      → Ensures (print libc fmt args s) (λ _. Printed libc (libc.formatted fmt args) n s)
  unfolding print
  print-Printed fmt args n s room =
      Ensures-mono
        (Ensures-over (λ d t. record t { device = d }) s (libc.printf_lem fmt args n s.device room))
        λ _ t (d, e, p).
          rw e (record { memory = refl; ticks = refl; output = p.0; rest = p.1; room = p.2 })

  pub put-Printed :
      (c n : ℕ) (s : State libc.Device Linear)
      → libc.Accepts (suc n) s.device
      → Ensures (put libc c s) (λ _. Printed libc (u8 c ∷ []) n s)
  unfolding put
  put-Printed c n s room =
      Ensures-mono
        (Ensures-over (λ d t. record t { device = d }) s (libc.putchar_lem c n s.device room))
        λ _ t (d, e, p).
          rw e (record { memory = refl; ticks = refl; output = p.0; rest = p.1; room = p.2 })
