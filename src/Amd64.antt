-- ===== src/Amd64.antt =====
-- platform/amd64: the input that a guest is given for tests, in amd64.c and custom_imports.c.
pub mod Input
pub mod Port
pub mod Copies
pub mod Session
pub mod Whole
pub mod Echoes
use mathlib.Core.Option.{map}
use wasrisc.Base.{
  ℕ, zero, suc, ◌+◌, ◌-◌, ◌*◌, ◌^◌, ◌≡◌, List, [], ◌∷◌, ◌++◌, Option, none, some, codes, length,
  get_or, Bool, true, false, not, ◌&&◌, ltb, ◌==◌, if◌then◌else◌,
}
use wasrisc.Hosted.{Process}
use wasrisc.Machine.Word.{u32}

-- The globals and the process. A null pointer is `none`.
pub record TestInput : Type 0 where
  pub test_input_data : Option (List ℕ)
  pub test_input_data_len : ℕ
  pub process : Process

-- The files and the C library: `fread bytes` is what `fread` of one item as large as the file
-- returns, and `buffer bytes` what the zeroed buffer, one byte larger, then holds. Of an item of no
-- bytes `fread` returns 0, and leaves the buffer.
pub record Stdio : Type 0 where
  pub contents : List ℕ → Option (List ℕ)
  pub allocates : ℕ → Bool
  pub fread : List ℕ → ℕ
  pub buffer : List ℕ → List ℕ
  pub fread_lem : (bytes : List ℕ) → fread bytes ≡ 1 → buffer bytes ≡ bytes ++ 0 ∷ []
  pub fread-nil : fread [] ≡ 0
  pub buffer-nil : buffer [] ≡ 0 ∷ []

abbrev pub printed : List ℕ → TestInput → TestInput
printed text s = record s { process = record s.process { stdout = s.process.stdout ++ text } }

module _ (stdio : Stdio) where
  -- What follows `fopen`.
  unfoldable pub load : List ℕ → Option (List ℕ) → TestInput → TestInput
  load filename none s = printed (codes "failed to open " ++ (filename ++ codes "\n")) s
  load filename (some bytes) s =
      let sized = record s { test_input_data_len = length bytes } in
      if not (stdio.allocates (length bytes + 1))
      then printed (codes "calloc failed") (record sized { test_input_data = none })
      else if not (stdio.fread bytes == 1)
      then printed (codes "read failed")
          (record sized { test_input_data = some (stdio.buffer bytes) })
      else record sized { test_input_data = some (stdio.buffer bytes) }

  unfoldable pub read_input_data : List ℕ → TestInput → TestInput
  read_input_data filename s = load filename (stdio.contents filename) s

-- `char` is signed on amd64, and is made a `U32`.
unfoldable pub char_value : ℕ → ℕ
char_value c = if ltb c 128 then c else 2 ^ 32 - 256 + c

unfoldable pub element : List ℕ → ℕ → Option ℕ
element [] k = none
element (c ∷ cs) zero = some c
element (c ∷ cs) (suc k) = element cs k

-- `none` is an access outside the buffer, which is undefined.
unfoldable pub indexed : Option (List ℕ) → ℕ → Option ℕ
indexed none k = none
indexed (some buffer) k = map char_value (element buffer k)

unfoldable pub input_data : TestInput → ℕ → Option ℕ
input_data s k = indexed s.test_input_data k

unfoldable pub input_data_len : TestInput → ℕ
input_data_len s = u32 s.test_input_data_len
