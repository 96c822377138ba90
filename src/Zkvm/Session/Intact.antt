-- ===== src/Zkvm/Session/Intact.antt =====
-- What no guest changes on the zkvm, whatever it calls and with whatever arguments, while the output
-- area has room for its values: the memory below the area, where the input is, and what the console
-- has shown. The memory of the guest and the variables of the program lie in RAM, above the area.
use wasrisc.Base.{
  ℕ, ◌+◌, ◌-◌, ◌*◌, ◌≤◌, ◌<◌, ◌≡◌, refl, sym, ap, ◌∙◌, arith, List, [], ◌++◌, append-nil,
  append_assoc, leb, Bool-cases, inl, inr,
}
use wasrisc.Machine.{Settles}
use wasrisc.Machine.Memory.{store32, store32_outside}
use wasrisc.Machine.Word.{u32}
use wasrisc.Zkvm.{Zkvm, printk, output_addr, capacity}
use mathlib.Core.Path.{subst}
use wasrisc.Zkvm.Library.{rest}
use wasrisc.Session.{Call, Program, ret, call, print}

-- From `z` to `t` no memory below the output area is changed, and the console has only grown; the
-- area has room for `n` more values.
pub record Intact (n : ℕ) (z t : Zkvm) : Type 0 where
  pub memory : (a : ℕ) → a < output_addr → t.memory a ≡ z.memory a
  pub more : List ℕ
  pub console : t.uart ≡ z.uart ++ more
  pub room : t.output_count + n ≤ capacity

pub Intact-refl : (n : ℕ) (z : Zkvm) → z.output_count + n ≤ capacity → Intact n z z
Intact-refl n z room = record {
  memory = λ a out. refl;
  more = [];
  console = sym (append-nil z.uart);
  room = room;
}

-- More on the console, and all else as it was.
pub Intact-printed :
    (bytes : List ℕ) {n : ℕ} {z t u : Zkvm}
    → Intact n z t
    → rest u ≡ rest t
    → u.uart ≡ t.uart ++ bytes
    → Intact n z u
Intact-printed bytes {n} {z} h same shown = record {
  memory = λ a out. ap (λ r. r.0 a) same ∙ h.memory a out;
  more = h.more ++ bytes;
  console = shown ∙ ap (λ o. o ++ bytes) h.console ∙ append_assoc z.uart h.more bytes;
  room = subst (λ c. c + n ≤ capacity) (ap (λ r. r.1) (sym same)) h.room;
}

pub Intact-mono : (m n : ℕ) {z t : Zkvm} → n ≤ m → Intact m z t → Intact n z t
Intact-mono m n fewer h = record {
  memory = h.memory;
  more = h.more;
  console = h.console;
  room = omega (arith, h.room);
}

-- A value of any size, with room for it.
pub printk-Intact :
    (val n : ℕ) (z t : Zkvm) → Intact (1 + n) z t → Settles (printk val t) (Intact n z)
unfolding printk
printk-Intact val n z t h = elim (Bool-cases (leb capacity (t.output_count + 1 - 1))) [
  | inl far ↦ rw far tt
  | inr near ↦
      let counted = store32 t.memory output_addr (t.output_count + 1) in
      let place = u32 (output_addr + 4 + 4 * (t.output_count + 1 - 1)) in
      rw near (record {
        memory = λ a out. ground (
          arith,
          h.room,
          h.memory a out,
          store32_outside counted place (u32 val) a,
          store32_outside t.memory output_addr (t.output_count + 1) a,
        );
        more = h.more;
        console = h.console;
        room = omega (arith, h.room);
      })
]

-- The values that a call hands over.
unfoldable pub hands_over : {Linear : Type 0} → Call Linear → ℕ
hands_over (print val) = 1
hands_over _ = 0

-- On no path does the guest hand over more than `n` values.
abbrev pub HandsAtMost : {Linear A : Type 0} → ℕ → Program Linear A → Type 0
HandsAtMost n (ret a) = Unit {0}
HandsAtMost {Linear} n (call c next) =
    (hands_over c ≤ n) × ((r : ℕ) (m : Linear) → HandsAtMost (n - hands_over c) (next r m))
