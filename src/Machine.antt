-- ===== src/Machine.antt =====
-- What running a C function can come to, and the sequencing of such runs.
pub mod Word
pub mod Memory
pub mod Bits
use wasrisc.Base.{◌≡◌, refl}

-- `halted` is a machine that has been shut down, so nothing runs after it. `hangs` waits or loops for ever.
-- `undefined` is behaviour that C leaves undefined.
pub data Run (S A : Type 0) : Type 0 where
  done : A → S → Run S A
  halted : S → Run S A
  hangs : S → Run S A
  undefined : Run S A

abbrev pub Cmd : Type 0 → Type 0 → Type 0
Cmd S A = S → Run S A

module _ {S A : Type 0} where
  abbrev pub pure : A → Cmd S A
  pure a s = done a s

  -- What holds after a run that returns.
  abbrev pub Ensures : Run S A → (A → S → Type 0) → Type 0
  Ensures r P = (a : A) × (s : S) × (r ≡ done a s) × P a s

  pub Ensures-mono :
      {P Q : A → S → Type 0} {r : Run S A}
      → Ensures r P
      → ((a : A) (s : S) → P a s → Q a s)
      → Ensures r Q
  Ensures-mono (a, s, e, p) weaken = (a, s, e, weaken a s p)

  -- What holds of the state that a run ends in, if it is defined: it returns or halts, and does not
  -- go on for ever.
  abbrev pub Settles : Run S A → (S → Type 0) → Type 0
  Settles (done a s) P = P s
  Settles (halted s) P = P s
  Settles (hangs s) P = ⊥
  Settles undefined P = Unit {0}

  pub Settles-mono :
      (P Q : S → Type 0) (r : Run S A) → Settles r P → ((s : S) → P s → Q s) → Settles r Q
  Settles-mono P Q (done a s) p weaken = weaken s p
  Settles-mono P Q (halted s) p weaken = weaken s p
  Settles-mono P Q (hangs s) p weaken = p
  Settles-mono P Q undefined p weaken = p

  pub Ensures-Settles :
      {P : A → S → Type 0} (Q : S → Type 0) {r : Run S A}
      → Ensures r P
      → ((a : A) (s : S) → P a s → Q s)
      → Settles r Q
  Ensures-Settles Q (a, s, e, p) weaken = rw e (weaken a s p)

module _ {S A B : Type 0} where
  abbrev pub and_then : Run S A → (A → Cmd S B) → Run S B
  and_then (done a s) k = k a s
  and_then (halted s) k = halted s
  and_then (hangs s) k = hangs s
  and_then undefined k = undefined

  infixl 5 ◌>>=◌ ◌>>◌
  abbrev pub ◌>>=◌ : Cmd S A → (A → Cmd S B) → Cmd S B
  m >>= k = λ s. and_then (m s) k

  abbrev pub ◌>>◌ : Cmd S A → Cmd S B → Cmd S B
  m >> n = m >>= λ _. n

  -- A run that returns, and then another.
  pub Ensures-bind :
      {P : A → S → Type 0} {Q : B → S → Type 0} {r : Run S A} {k : A → Cmd S B}
      → Ensures r P
      → ((a : A) (s : S) → P a s → Ensures (k a s) Q)
      → Ensures (and_then r k) Q
  Ensures-bind (a, s, e, p) next = rw e (next a s p)

  pub Settles-bind :
      (P Q : S → Type 0) (r : Run S A) (k : A → Cmd S B)
      → Settles r P
      → ((s : S) → P s → Q s)
      → ((a : A) (s : S) → P s → Settles (k a s) Q)
      → Settles (and_then r k) Q
  Settles-bind P Q (done a s) k p weaken next = next a s p
  Settles-bind P Q (halted s) k p weaken next = weaken s p
  Settles-bind P Q (hangs s) k p weaken next = p
  Settles-bind P Q undefined k p weaken next = p

-- Three steps and the rest are the three steps, and then the rest.
pub and_then_regroup :
    {S A : Type 0} (r : Run S (Unit {0})) (f g : Cmd S (Unit {0})) (rest : Cmd S A)
    → and_then r (λ _. f >> (g >> rest))
      ≡ and_then (and_then (and_then r (λ _. f)) (λ _. g)) (λ _. rest)
and_then_regroup {S} {A} (done a s) f g rest = and_then_twice (f s) g rest
  where
    and_then_twice :
        (r : Run S (Unit {0})) (g : Cmd S (Unit {0})) (rest : Cmd S A)
        → and_then r (λ _. g >> rest) ≡ and_then (and_then r (λ _. g)) (λ _. rest)
    and_then_twice (done a s) g rest = refl
    and_then_twice (halted s) g rest = refl
    and_then_twice (hangs s) g rest = refl
    and_then_twice undefined g rest = refl
and_then_regroup (halted s) f g rest = refl
and_then_regroup (hangs s) f g rest = refl
and_then_regroup undefined f g rest = refl

-- Running a command on one part of a larger state.
module _ {S T A : Type 0} where
  abbrev pub over : (T → S → S) → Run T A → S → Run S A
  over put (done a t) s = done a (put t s)
  over put (halted t) s = halted (put t s)
  over put (hangs t) s = hangs (put t s)
  over put undefined s = undefined

  pub Settles-over :
      (P : T → Type 0) (Q : S → Type 0) (put : T → S → S) (r : Run T A) (s : S)
      → Settles r P
      → ((t : T) → P t → Q (put t s))
      → Settles (over put r s) Q
  Settles-over P Q put (done a t) s p lift = lift t p
  Settles-over P Q put (halted t) s p lift = lift t p
  Settles-over P Q put (hangs t) s p lift = p
  Settles-over P Q put undefined s p lift = p
