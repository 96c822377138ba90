-- ===== src/Amd64/Copies.antt =====
-- What a guest that copies its input to the console shows of the input that `main` sets up.
use mathlib.Core.Option.{map}
use wasrisc.Amd64.{
  TestInput, Stdio, printed, load, read_input_data, char_value, element, indexed, input_data,
  input_data_len,
}
use wasrisc.Amd64.Input.{read_input_data-loaded, u8-char_value}
use wasrisc.Amd64.Port.{on_process, asks_file, choose_input, main}
use wasrisc.Base.{
  ℕ, zero, suc, ◌+◌, ◌^◌, ◌<◌, ◌≡◌, refl, sym, ap, ◌∙◌, arith, List, [], ◌∷◌, ◌++◌, some, none,
  Option, codes, length, get_or, true, false, All, append-nil, append_assoc, length-append,
}
use wasrisc.Hosted.{print}
use wasrisc.Machine.{Cmd, done, undefined, pure, ◌>>◌}
use wasrisc.Machine.Word.{u8, u32}
use wasrisc.Wasi.Init.{wasi_init}
use wasrisc.Zkvm.Port.{Guest}

-- One byte of the input, read as the guest reads it and written as `putchar` writes it.
unfoldable copy_byte : Option ℕ → Cmd TestInput (Unit {0})
copy_byte none s = undefined
copy_byte (some v) s = on_process (print (u8 v ∷ [])) s

unfoldable copy : ℕ → ℕ → Cmd TestInput (Unit {0})
copy zero i s = done tt s
copy (suc k) i s = ((λ s. copy_byte (input_data s i) s) >> copy k (i + 1)) s

abbrev copying : Guest TestInput
copying = record {
  instantiate = pure tt;
  start = λ s. copy (input_data_len s) 0 s;
  free_instance = pure tt;
}

-- The input that the arguments lead to, with what is printed on the way.
pub data Supplies (stdio : Stdio) (argv : List (List ℕ)) (notice bytes : List ℕ) : Type 0 where
  default :
      asks_file argv ≡ false
      → notice ≡ []
      → bytes ≡ codes "test789"
      → Supplies stdio argv notice bytes
  missing :
      asks_file argv ≡ true
      → stdio.contents (get_or argv 2 []) ≡ none
      → notice ≡ codes "failed to open " ++ (get_or argv 2 [] ++ codes "\n")
      → bytes ≡ codes "test789"
      → Supplies stdio argv notice bytes
  from_file :
      asks_file argv ≡ true
      → stdio.contents (get_or argv 2 []) ≡ some bytes
      → stdio.allocates (length bytes + 1) ≡ true
      → stdio.fread bytes ≡ 1
      → notice ≡ []
      → Supplies stdio argv notice bytes
  empty_file :
      asks_file argv ≡ true
      → stdio.contents (get_or argv 2 []) ≡ some []
      → stdio.allocates 1 ≡ true
      → notice ≡ codes "read failed"
      → bytes ≡ []
      → Supplies stdio argv notice bytes

abbrev pub holding : List ℕ → List ℕ → TestInput → TestInput
holding notice bytes s = record (printed notice s) {
  test_input_data = some (bytes ++ 0 ∷ []);
  test_input_data_len = length bytes;
}

-- An empty file is taken for one that could not be read, and is an empty input all the same.
read_input_data-empty :
    (stdio : Stdio) (filename : List ℕ) (s : TestInput)
    → stdio.contents filename ≡ some []
    → stdio.allocates 1 ≡ true
    → read_input_data stdio filename s ≡ record (printed (codes "read failed") s) {
      test_input_data = some (0 ∷ []);
      test_input_data_len = 0;
    }
unfolding read_input_data load
read_input_data-empty stdio filename s opens room =
    ap (λ o. load stdio filename o s) opens ∙ rw (room, stdio.fread-nil, stdio.buffer-nil) refl

pub choose_input-holding :
    (stdio : Stdio) (argv : List (List ℕ)) (notice bytes : List ℕ) (s : TestInput)
    → Supplies stdio argv notice bytes
    → choose_input stdio argv s ≡ holding notice bytes s
unfolding choose_input read_input_data load
choose_input-holding stdio argv notice bytes s (default other none_said same) =
    rw (other, none_said, same, append-nil) refl
choose_input-holding stdio argv notice bytes s (missing asked gone said same) =
    rw (asked, said, same)
      (ap
        (λ o. load stdio (get_or argv 2 []) o (record s {
          test_input_data = some (codes "test789" ++ 0 ∷ []);
          test_input_data_len = 7;
        }))
        gone)
choose_input-holding stdio argv notice bytes s (from_file asked opens room reads none_said) =
    rw (asked, none_said, append-nil)
      (read_input_data-loaded stdio (get_or argv 2 []) bytes _ opens room reads)
choose_input-holding stdio argv notice bytes s (empty_file asked opens room said none_read) =
    rw (asked, said, none_read) (read_input_data-empty stdio (get_or argv 2 []) _ opens room)

element-middle :
    (before : List ℕ) (c : ℕ) (rest : List ℕ)
    → element (before ++ c ∷ rest) (length before) ≡ some c
unfolding element
element-middle [] c rest = refl
element-middle (x ∷ before) c rest = element-middle before c rest

printed-printed :
    (xs ys : List ℕ) (s : TestInput) → printed ys (printed xs s) ≡ printed (xs ++ ys) s
printed-printed xs ys s =
    ap (λ o. record s { process = record s.process { stdout = o } })
      (append_assoc s.process.stdout xs ys)

-- One round of the guest's loop.
copy-round :
    (k i c : ℕ) (s : TestInput)
    → input_data s i ≡ some (char_value c)
    → c < 256
    → copy (suc k) i s ≡ copy k (i + 1) (printed (c ∷ []) s)
unfolding copy copy_byte
copy-round k i c s e h = rw (e, u8-char_value c h) refl

copy-printed :
    (before cs : List ℕ) (s : TestInput)
    → s.test_input_data ≡ some (before ++ (cs ++ 0 ∷ []))
    → All (λ c. c < 256) cs
    → copy (length cs) (length before) s ≡ done tt (printed cs s)
copy-printed before [] s e h =
    unfold copy in
    ap (λ o. done tt (record s { process = record s.process { stdout = o } }))
      (sym (append-nil s.process.stdout))
copy-printed before (c ∷ cs) s e h =
    let found : input_data s (length before) ≡ some (char_value c) =
      unfold input_data indexed in
      ap (λ d. indexed d (length before)) e
      ∙ ap (map char_value) (element-middle before c (cs ++ 0 ∷ [])) in
    let next : length before + 1 ≡ length (before ++ c ∷ []) =
      omega (arith, length-append before (c ∷ [])) in
    copy-round (length cs) (length before) c s found h.0
    ∙ ap (λ i. copy (length cs) i (printed (c ∷ []) s)) next
    ∙ copy-printed (before ++ c ∷ []) cs (printed (c ∷ []) s)
        (e ∙ ap some (sym (append_assoc before (c ∷ []) (cs ++ 0 ∷ [])))) h.1
    ∙ ap (done tt) (printed-printed (c ∷ []) cs s)

-- A guest that asks for the length of its input, reads every byte and writes it to the console shows
-- the input that `main` set up: the built-in one, or the file that the arguments name, when it is
-- opened, given a buffer and read whole, or behind a notice the built-in one, when it is not opened,
-- or nothing, when it is empty. The input is of bytes and below 2 ^ 32 in length; `main` returns 0.
main-copying :
    (stdio : Stdio) (argv : List (List ℕ)) (notice bytes : List ℕ) (s : TestInput)
    → Supplies stdio argv notice bytes
    → All (λ c. c < 256) bytes
    → length bytes < 2 ^ 32
    → (t : TestInput) × (main stdio copying argv s ≡ done 0 t)
      × (t.process.stdout
          ≡ s.process.stdout ++ (notice ++ (codes "instantiating guest program...\n" ++ bytes)))
unfolding main wasi_init
main-copying stdio argv notice bytes s supplies small short =
    let h = holding notice bytes s in
    let begun = printed (codes "instantiating guest program...\n") h in
    let all : u32 (length bytes) ≡ length bytes = omega arith in
    let copied : copy (input_data_len begun) 0 begun ≡ done tt (printed bytes begun) =
      unfold input_data_len in rw all (copy-printed [] bytes begun refl small) in
    (
      printed bytes begun,
      rw (choose_input-holding stdio argv notice bytes s supplies, copied) refl,
      append_assoc (s.process.stdout ++ notice) (codes "instantiating guest program...\n") bytes
          ∙ append_assoc s.process.stdout notice _,
    )
