-- ===== src/Tests/Target.antt =====
-- The zkvm: its output area, its input area and the ends of a run.
use wasrisc.Base.{
  ℕ, get_or, All-get_or, if◌then◌else◌, ◌==◌, ◌+◌, ◌-◌, ◌/◌, ◌%◌, ◌^◌, ◌<◌, ◌≡◌, refl, ap, inl,
  arith, [], ◌∷◌, codes, ◌∙◌,
}
use wasrisc.Machine.{Run, done, ◌>>◌, and_then, Ensures, halted, pure}
use wasrisc.Machine.Memory.{Memory, load32, IsBytes}
use wasrisc.Tests.{machine, zeros, five_bytes}
use wasrisc.Zkvm.{Zkvm, ram_start, len_input_buf, read_value, input_addr}
use wasrisc.Zkvm.Imports.{input_data, input_data_len}
use wasrisc.Zkvm.InputBuffer.{read_value-input_data}
use wasrisc.Zkvm.OutputBuffer.{Holds, SameOutside, printk_each, printk_each-Holds}
use wasrisc.Zkvm.OutputBuffer.Spill.{
  Represents, printk_each_at, printk_each_at-printk_each, printk_each_at-spills, ram_word,
}
use wasrisc.Zkvm.Port.{Guest, main, exit}
use wasrisc.Zkvm.Port.Endings.{exit-halted, concluded, main-concluded, sent}

fresh-Holds : Holds [] (machine zeros)
fresh-Holds = record { counted = refl; count_word = inl refl; words = λ i h. absurd (omega arith) }

printk_each-Holds_example :
    Ensures
      (printk_each (7 ∷ 8 ∷ []) (machine zeros))
      (λ _ t. Holds (7 ∷ 8 ∷ []) t × SameOutside (machine zeros) t)
printk_each-Holds_example =
    printk_each-Holds (7 ∷ 8 ∷ []) [] (machine zeros) fresh-Holds (omega arith) (omega arith)

five_bytes-IsBytes : IsBytes five_bytes
five_bytes-IsBytes a = ground (
  arith,
  All-get_or (λ x. x < 256) (codes "hello") (a - (input_addr + 16)) 0 (omega arith) (omega arith),
)

read_value-input_data_example :
    (1 < len_input_buf five_bytes)
    × (input_data five_bytes 4 ≡ read_value five_bytes 1 / 256 ^ 0 % 256)
unfolding load32 input_data_len
read_value-input_data_example =
    read_value-input_data five_bytes 4 five_bytes-IsBytes (omega arith) (omega arith)

printk_each_at-printk_each_example : Ensures (printk_each (7 ∷ 8 ∷ []) (machine zeros)) (λ _ t.
    (m' : Memory) × (printk_each_at ram_start (7 ∷ 8 ∷ []) zeros ≡ done tt m')
    × Represents ram_start m' t)
unfolding load32
printk_each_at-printk_each_example =
    printk_each_at-printk_each ram_start (7 ∷ 8 ∷ []) zeros (machine zeros) (omega arith)
      (omega arith) (record { counter = refl; elsewhere = λ a out. refl })

-- A memory with the count of a full output area in the second word of RAM.
abbrev full : Memory
full a = if a == ram_start + 4 then 255 else if a == ram_start + 5 then 63 else 0

printk_each_at-spills_example : Ensures (printk_each_at (ram_start + 4) (9 ∷ 8 ∷ []) full) (λ _ t.
    ((j : ℕ) → j < 1 → load32 t (ram_word j) ≡ get_or (9 ∷ []) j 0)
    × (load32 t (ram_start + 4) ≡ 8))
unfolding load32
printk_each_at-spills_example =
    printk_each_at-spills 1 (9 ∷ []) 8 full (omega arith) refl refl (omega arith) (omega arith)

-- A guest that exits.
abbrev exiting : Guest Zkvm
exiting = record { instantiate = pure tt; start = exit 1; free_instance = pure tt }

abbrev begun : Zkvm
begun = sent (codes "instantiating guest program...\n") (machine zeros)

abbrev after_exit : Zkvm
after_exit = sent (codes "exit()\n") begun

abbrev begun_run : Run Zkvm (Unit {0})
begun_run = (exiting.instantiate >> exiting.start >> exiting.free_instance) begun

-- The guest's `exit` is the end of the run.
main-exits : main exiting (machine zeros) ≡ halted after_exit
main-exits =
    main-concluded exiting (machine zeros)
    ∙ ap (λ r. concluded exiting (machine zeros) (and_then r (λ _. pure tt))) (exit-halted 1 begun)
