-- ===== src/Amd64/Input.antt =====
-- The input that a file gives, and the one that the zkvm gives.
use mathlib.Core.Option.{map}
use wasrisc.Base.{
  ℕ, zero, suc, ◌+◌, ◌*◌, ◌<◌, ◌≡◌, refl, ap, ◌∙◌, arith, List, [], ◌∷◌, ◌++◌, some, length, get_or,
  true, ◌==◌,
}
use wasrisc.Amd64.{
  TestInput, Stdio, load, read_input_data, char_value, element, indexed, input_data, input_data_len,
}
use wasrisc.Machine.Memory.{Memory}
use wasrisc.Machine.Word.{u8, u32}
use wasrisc.Zkvm.{input_addr}
use wasrisc.Zkvm.Imports

pub element-append :
    (xs ys : List ℕ) (k : ℕ) → k < length xs → element (xs ++ ys) k ≡ some (get_or xs k 0)
unfolding element
element-append [] ys k h = absurd (omega arith)
element-append (x ∷ xs) ys zero h = refl
element-append (x ∷ xs) ys (suc k) h = element-append xs ys k (omega arith)

pub u8-char_value : (c : ℕ) → c < 256 → u8 (char_value c) ≡ c
unfolding char_value
u8-char_value c h = ground arith

module _ (stdio : Stdio) (filename bytes : List ℕ) (s : TestInput) where
  abbrev pub loaded : TestInput
  loaded = record s { test_input_data = some (bytes ++ 0 ∷ []); test_input_data_len = length bytes }

  pub read_input_data-loaded :
      stdio.contents filename ≡ some bytes
      → stdio.allocates (length bytes + 1) ≡ true
      → stdio.fread bytes ≡ 1
      → read_input_data stdio filename s ≡ loaded
  unfolding read_input_data load
  read_input_data-loaded opens room reads =
      let whole : (stdio.fread bytes == 1) ≡ true = ground arith in
      ap (λ o. load stdio filename o s) opens ∙ rw (room, whole, stdio.fread_lem bytes reads) refl

  input_data-loaded :
      (k : ℕ) → k < length bytes → input_data loaded k ≡ some (char_value (get_or bytes k 0))
  unfolding input_data indexed
  input_data-loaded k inside = ap (map char_value) (element-append bytes (0 ∷ []) k inside)

  -- A file that is opened, given a buffer and read whole, and that fits the zkvm's input area, is the
  -- guest's input: the guest is told its length, and at an index of a byte that the zkvm's memory
  -- holds too, a number whose low byte is the one that the zkvm tells it.
  pub read_input_data-input_data :
      (m : Memory) (k : ℕ)
      → stdio.contents filename ≡ some bytes
      → stdio.allocates (length bytes + 1) ≡ true
      → stdio.fread bytes ≡ 1
      → length bytes < 0x6fff_fff0
      → k < length bytes
      → get_or bytes k 0 < 256
      → m (input_addr + 16 + k) ≡ get_or bytes k 0
      → let t = read_input_data stdio filename s in
        (input_data_len t ≡ length bytes)
        × (v : ℕ) × (input_data t k ≡ some v)
        × (u8 v ≡ Imports.input_data m k)
  unfolding input_data_len Imports.input_data
  read_input_data-input_data m k opens room reads small inside byte same =
      let read = read_input_data-loaded opens room reads in
      let address : u32 (input_addr + 4 * 4 + k) ≡ input_addr + 16 + k = omega arith in
      (
        ap (λ t. u32 t.test_input_data_len) read ∙ omega arith,
        char_value (get_or bytes k 0),
        ap (λ t. input_data t k) read ∙ input_data-loaded k inside,
        rw (address, same) (u8-char_value (get_or bytes k 0) byte),
      )
