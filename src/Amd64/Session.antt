-- ===== src/Amd64/Session.antt =====
-- The process of platform/amd64 as a target for a guest's calls.
use wasrisc.Amd64.{TestInput, char_value, indexed, input_data, input_data_len}
use wasrisc.Amd64.Port.{guest_printk, guest_shutdown, trap}
use wasrisc.Base.{
  ℕ, ◌<◌, ◌≡◌, refl, ap, ◌∙◌, List, [], ◌∷◌, ◌++◌, Option, none, some, codes, length, get_or,
}
use wasrisc.Hosted.{Texts}
use wasrisc.Hosted.Library.{Holder, hosted_libc, kept}
use wasrisc.Machine.{Cmd, done, undefined, Ensures}
use wasrisc.Machine.Word.{u32}
use wasrisc.Session.{Target, Input}
use wasrisc.Session.Ending.{Ends}

abbrev pub with_globals : Holder
with_globals = record {
  State = TestInput;
  process = λ s. s.process;
  with_process = λ p s. record s { process = p };
  Globals = Option (List ℕ) × ℕ;
  globals = λ s. (s.test_input_data, s.test_input_data_len);
  process-with_process = λ p s. refl;
  globals-with_process = λ p s. refl;
}

-- An index outside the buffer is undefined behaviour.
abbrev pub fetched : Option ℕ → Cmd TestInput ℕ
fetched none s = undefined
fetched (some v) s = done v s

-- What the guest is told of a buffer with the given bytes and their terminator.
abbrev pub input_of : List ℕ → Input
input_of bytes = record {
  bytes = λ k. char_value (get_or (bytes ++ 0 ∷ []) k 0);
  length = u32 (length bytes);
}

module _ (texts : Texts) (begun : TestInput) (limit : ℕ) where
  -- The given input can be read below the limit, and nothing but the standard output has changed.
  abbrev pub Since : Input → List ℕ → TestInput → Type 0
  Since given vs s =
      ((k : ℕ) → k < limit → input_data begun k ≡ some (given.bytes k))
      × (input_data_len begun ≡ given.length)
      × (kept texts with_globals s ≡ kept texts with_globals begun)

  pub fetched_lem :
      (given : Input) (vs : List ℕ) (s : TestInput) (k : ℕ)
      → Since given vs s
      → k < limit
      → fetched (input_data s k) s ≡ done (given.bytes k) s
  unfolding input_data
  fetched_lem given vs s k h inside =
      ap (λ r. fetched (indexed r.0.0 k) s) h.2 ∙ ap (λ o. fetched o s) (h.0 k inside)

  pub input_data_len_lem :
      (given : Input) (vs : List ℕ) (s : TestInput)
      → Since given vs s
      → input_data_len s ≡ given.length
  unfolding input_data_len
  input_data_len_lem given vs s h = ap (λ r. u32 r.0.1) h.2 ∙ h.1

  pub amd64_printk_lem :
      (given : Input) (v n : ℕ) (vs : List ℕ) (s : TestInput)
      → Since given vs s
      → Unit {0}
      → Unit {0}
      → Ensures (guest_printk texts v s) (λ _ t.
        (t.process.stdout ≡ s.process.stdout ++ texts.formatted (codes "PRINTK(%x)\n") (v ∷ []))
        × Since given (vs ++ v ∷ []) t
        × Unit {0})
  unfolding guest_printk
  amd64_printk_lem given v n vs s h _ _ = (_, _, refl, (refl, h, tt))

  abbrev pub amd64_target : Target
  amd64_target = record {
    libc = hosted_libc texts with_globals;
    guest_printk = guest_printk texts;
    printk_text = λ v. texts.formatted (codes "PRINTK(%x)\n") (v ∷ []);
    input_data = λ k s. fetched (input_data s k) s;
    input_data_len = input_data_len;
    Holds = Since;
    Readable = λ k. k < limit;
    Takes = λ vs v. Unit {0};
    Holds_rest = λ given vs s t e h. (h.0, h.1, e ∙ h.2);
    input_data_lem = fetched_lem;
    input_data_len_lem = input_data_len_lem;
    guest_printk_lem = amd64_printk_lem;
  }

abbrev pub amd64_ends : Texts → Ends TestInput
amd64_ends texts = record { trap = trap texts; guest_shutdown = guest_shutdown }
