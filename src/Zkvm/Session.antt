-- ===== src/Zkvm/Session.antt =====
-- The zkvm as a target for a guest's calls: its `printk` puts values into the output area, and prints
-- nothing; the input lies in memory, before that area.
pub mod Intact
pub mod Keeps
pub mod AnyGuest
pub mod Whole
pub mod Boot
pub mod Echoes
pub mod Reaches
use mathlib.Core.Path.{subst}
use wasrisc.Base.{
  ℕ, ◌^◌, ◌<◌, ◌≡◌, refl, sym, ◌∙◌, List, [], ◌∷◌, ◌++◌, append-nil, length, ap, inl, arith, ◌+◌,
  ◌*◌,
}
use wasrisc.Machine.{done, Ensures, Ensures-mono}
use wasrisc.Machine.Memory.{load32}
use wasrisc.Session.{Target, Input}
use wasrisc.Zkvm.{Zkvm, input_addr, output_addr, capacity}
use wasrisc.Zkvm.Imports.{guest_printk, input_data, input_data_len}
use wasrisc.Zkvm.Library.{zkvm_libc, rest}
use wasrisc.Zkvm.OutputBuffer.{Holds, SameOutside, printk-Holds}

-- The indices of the bytes before the output area.
abbrev pub Readable : ℕ → Type 0
Readable k = input_addr + 16 + k < output_addr

-- The values in the output area, and the input in its own.
pub record Serves (given : Input) (vs : List ℕ) (z : Zkvm) : Type 0 where
  pub held : Holds vs z
  pub bytes : (k : ℕ) → Readable k → input_data z.memory k ≡ given.bytes k
  pub len : input_data_len z.memory ≡ given.length

-- Both areas are where the UART is not.
pub Serves-rest :
    (given : Input) (vs : List ℕ) (z t : Zkvm)
    → rest t ≡ rest z
    → Serves given vs z
    → Serves given vs t
Serves-rest given vs z t e h = record {
  held =
      subst (λ r. Holds vs (record { memory = r.0; uart = t.uart; output_count = r.1 })) (sym e)
        (record { counted = h.held.counted; count_word = h.held.count_word; words = h.held.words });
  bytes = λ k ok. ap (λ r. input_data r.0 k) e ∙ h.bytes k ok;
  len = ap (λ r. input_data_len r.0) e ∙ h.len;
}

-- What lies before the output area.
SameOutside-input_data :
    {z t : Zkvm}
    → SameOutside z t
    → (k : ℕ) → Readable k
    → input_data t.memory k ≡ input_data z.memory k
unfolding input_data
SameOutside-input_data same k ok = same.memory _ (inl (omega arith))

SameOutside-input_data_len :
    {z t : Zkvm} → SameOutside z t → input_data_len t.memory ≡ input_data_len z.memory
unfolding input_data_len load32
SameOutside-input_data_len same =
    rw
      (
        same.memory (input_addr + 4 * 2) (inl (omega arith)),
        same.memory (input_addr + 4 * 2 + 1) (inl (omega arith)),
        same.memory (input_addr + 4 * 2 + 2) (inl (omega arith)),
        same.memory (input_addr + 4 * 2 + 3) (inl (omega arith)),
      )
      refl

pub SameOutside-Serves :
    (given : Input) (vs ws : List ℕ) (z t : Zkvm)
    → Serves given vs z
    → Holds ws t
    → SameOutside z t
    → Serves given ws t
SameOutside-Serves given vs ws z t h held same = record {
  held = held;
  bytes = λ k ok. SameOutside-input_data same k ok ∙ h.bytes k ok;
  len = SameOutside-input_data_len same ∙ h.len;
}

-- While the area has room.
abbrev pub Takes : List ℕ → ℕ → Type 0
Takes vs v = (length vs < capacity) × (v < 2 ^ 32)

pub zkvm_printk_lem :
    (given : Input) (v n : ℕ) (vs : List ℕ) (z : Zkvm)
    → Serves given vs z
    → Takes vs v
    → Unit {0}
    → Ensures
        (guest_printk v z)
        (λ _ t. (t.uart ≡ z.uart ++ []) × Serves given (vs ++ v ∷ []) t × Unit {0})
unfolding guest_printk
zkvm_printk_lem given v n vs z h (room, small) _ =
    Ensures-mono (printk-Holds v vs z h.held room small) λ _ t (held', same). (
      same.uart ∙ sym (append-nil z.uart),
      SameOutside-Serves given vs (vs ++ v ∷ []) z t h held' same,
      tt,
    )

abbrev pub zkvm_target : Target
zkvm_target = record {
  libc = zkvm_libc;
  guest_printk = guest_printk;
  printk_text = λ v. [];
  input_data = λ k z. done (input_data z.memory k) z;
  input_data_len = λ z. input_data_len z.memory;
  Holds = Serves;
  Readable = Readable;
  Takes = Takes;
  Holds_rest = Serves-rest;
  input_data_lem = λ given vs z k h ok. ap (λ v. done v z) (h.bytes k ok);
  input_data_len_lem = λ given vs z h. h.len;
  guest_printk_lem = zkvm_printk_lem;
}
