-- ===== src/Amd64/Echoes.antt =====
-- The guest that copies its input by `fd_write`, on the input that `main` sets up.
use native.Mathlib.Nat.{zero-add}
use mathlib.Core.Path.{ap₂}
use wasrisc.Amd64.{TestInput, Stdio, char_value}
use wasrisc.Amd64.Copies.{Supplies, holding}
use wasrisc.Amd64.Input.{u8-char_value}
use wasrisc.Amd64.Port.{main}
use wasrisc.Amd64.Session.{input_of}
use wasrisc.Amd64.Whole.{guest_of, target_of, outcome, main-guest_of}
use wasrisc.Base.{
  ℕ, ◌^◌, ◌<◌, ◌≡◌, ap, ◌∙◌, arith, List, ◌++◌, codes, length, get_or, All, All-get_or,
  get_or-default,
}
use wasrisc.Host.{Wasm}
use wasrisc.Hosted.{Texts}
use wasrisc.Machine.{done}
use wasrisc.Machine.Word.{u8, u32}
use wasrisc.Session.Echo.{
  echo, bytes_from, bytes_from-get_or, text_all-echo, AdmitsAll-echo, result-echo,
}
use wasrisc.Session.Ending.{returns}
use wasrisc.Session.View.{first_view}

-- The low byte of what the guest is told is the byte of the input.
u8-input_of :
    (bytes : List ℕ) (k : ℕ)
    → All (λ c. c < 256) bytes
    → u8 ((input_of bytes).bytes k) ≡ get_or bytes k 0
u8-input_of bytes k small =
    ap (λ c. u8 (char_value c)) (get_or-default bytes k 0)
    ∙ u8-char_value (get_or bytes k 0) (All-get_or (λ c. c < 256) bytes k 0 (omega arith) small)

module _ (texts : Texts) (wasm : Wasm) (m : wasm.Linear) where
  -- With arguments that lead to an input of bytes, below 2 ^ 32 in length, and a guest that copies its
  -- input to the standard output by `fd_write` and returns, `main` prints the notice, if the named
  -- file is not opened or is empty, the first line and exactly the bytes of the input, and returns 0;
  -- nothing else of the program has changed but the input.
  pub main-echo :
      (stdio : Stdio) (argv : List (List ℕ)) (notice bytes : List ℕ) (s : TestInput)
      → Supplies stdio argv notice bytes
      → All (λ c. c < 256) bytes
      → length bytes < 2 ^ 32
      → main stdio
          (guest_of texts wasm m (echo wasm (λ _. returns)) bytes (holding notice bytes s))
          argv
          s
        ≡ done 0 (holding (notice ++ (codes "instantiating guest program...\n" ++ bytes)) bytes s)
  unfolding outcome
  main-echo stdio argv notice bytes s supplies small short =
      let target =
        target_of texts wasm m (echo wasm (λ _. returns)) bytes (holding notice bytes s) in
      let given = input_of bytes in
      let whole : u32 (length bytes) ≡ length bytes = omega arith in
      let copied : bytes_from given given.length 0 ≡ bytes =
        ap (λ k. bytes_from given k 0) whole
        ∙ bytes_from-get_or given bytes 0
            (λ k below. ap (λ j. u8 (given.bytes j)) (zero-add k) ∙ u8-input_of bytes k small) in
      main-guest_of texts wasm m (echo wasm (λ _. returns)) stdio argv notice bytes s supplies
        (AdmitsAll-echo target wasm given (λ _. returns) (first_view m) λ j below. omega arith)
      ∙ ap₂
          (λ e text.
            outcome texts e
              (holding (notice ++ (codes "instantiating guest program...\n" ++ text)) bytes s))
          (result-echo target wasm given (λ _. returns) (first_view m))
          (text_all-echo target wasm given (λ _. returns) (first_view m) ∙ copied)
