-- ===== src/Tests/Amd64.antt =====
-- The same input on amd64 and on the zkvm.
use wasrisc.Base.{
  ℕ, ◌+◌, ◌-◌, ◌≡◌, refl, arith, [], ◌∷◌, ◌++◌, some, none, true, codes, length, get_or, ◌==◌,
  if◌then◌else◌,
}
use wasrisc.Amd64.{Stdio, TestInput, read_input_data, input_data, input_data_len}
use wasrisc.Amd64.Input.{read_input_data-input_data}
use wasrisc.Machine.Memory.{Memory}
use wasrisc.Machine.Word.{u8}
use wasrisc.Zkvm.{input_addr}
use wasrisc.Zkvm.Imports

abbrev pub one_file : Stdio
one_file = record {
  contents = λ name. some (codes "hey");
  allocates = λ n. true;
  fread = λ bytes. if length bytes == 0 then 0 else 1;
  buffer = λ bytes. bytes ++ 0 ∷ [];
  fread_lem = λ bytes read. refl;
  fread-nil = refl;
  buffer-nil = refl;
}

abbrev pub defaults : TestInput
defaults = record {
  test_input_data = some (codes "test789");
  test_input_data_len = 7;
  process = record { stdout = []; stderr = []; ending = none };
}

abbrev same_input : Memory
same_input a = get_or (codes "hey") (a - (input_addr + 16)) 0

read_input_data-input_data_example :
    let t = read_input_data one_file (codes "input") defaults in
    (input_data_len t ≡ 3)
    × (v : ℕ) × (input_data t 1 ≡ some v)
    × (u8 v ≡ Imports.input_data same_input 1)
read_input_data-input_data_example =
    read_input_data-input_data one_file (codes "input") (codes "hey") defaults same_input 1 refl
      refl refl (omega arith) (omega arith) (omega arith) refl
