-- ===== src/Zkvm.antt =====
-- The ziskemu target: platform/zkvm/zkvm.h and platform/zkvm/zkvm.c.
-- `Zkvm` is the machine's memory, the bytes written to its UART and the static `outputCount`. The
-- compiled program keeps `outputCount`, `ticks` of wasi.c and the guest's linear memory in RAM; they
-- are values of their own here, and `memory` stands for them nowhere.
pub mod Imports
pub mod OutputBuffer
pub mod InputBuffer
pub mod Library
pub mod Port
pub mod Session
use wasrisc.Base.{
  ℕ, ◌+◌, ◌-◌, ◌*◌, ◌/◌, ◌%◌, ◌^◌, List, [], ◌∷◌, ◌++◌, ◌==◌, leb, not, if◌then◌else◌,
}
use wasrisc.Machine.{Run, done, halted, undefined, Cmd}
use wasrisc.Machine.Memory.{Memory, load32, store32}
use wasrisc.Machine.Word.{u8, u32}

abbrev pub input_addr : ℕ
input_addr = 0x90000000

abbrev pub output_addr : ℕ
output_addr = 0xa0010000

abbrev pub ram_start : ℕ
ram_start = 0xa0020000

abbrev pub ram_size : ℕ
ram_size = 0x1FFE0000

abbrev pub heap_offset : ℕ
heap_offset = 0x01000000

abbrev pub heap_start : ℕ
heap_start = ram_start + heap_offset

abbrev pub heap_size : ℕ
heap_size = ram_size - heap_offset

pub record Zkvm : Type 0 where
  pub memory : Memory
  pub uart : List ℕ
  pub output_count : ℕ

-- The room of the output area in words, the count aside: it ends where RAM starts.
abbrev pub capacity : ℕ
capacity = 16383

-- The address is an `unsigned`. Behind the area the store goes to RAM, to the variables of the
-- program, `outputCount` among them, so the run is undefined from there on. Zkvm/OutputBuffer/Spill.antt
-- has `printk` with `outputCount` in memory, and that store.
unfoldable pub printk : ℕ → Cmd Zkvm (Unit {0})
printk val z =
    let count = z.output_count + 1 in
    let counted = store32 z.memory output_addr count in
    if leb capacity (count - 1)
    then undefined
    else done tt (record z {
      output_count = count;
      memory = store32 counted (u32 (output_addr + 4 + 4 * (count - 1))) (u32 val);
    })

-- The number of words of the input, the last one perhaps in part.
unfoldable pub len_input_buf : Memory → ℕ
len_input_buf m =
    let bytes = load32 m (input_addr + 4 * 2) in
    if not (bytes % 4 == 0) then u32 (bytes / 4 + 1) else bytes / 4

unfoldable pub read_value : Memory → ℕ → ℕ
read_value m i = load32 m (u32 (input_addr + u32 (4 * u32 (i + 4))))

-- `ecall` 93 ends the run, and hands over no status.
unfoldable pub shutdown : Cmd Zkvm (Unit {0})
shutdown z = halted z
