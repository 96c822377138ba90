-- ===== src/Tests.antt =====
-- Concrete machines, on which the theorems are applied.
mod Linear
mod Wasi
mod Clock
mod Target
mod Heap
mod Qemu
mod Wamr
mod Amd64
mod Hosted
mod Session
mod Reaches
mod Runtime
mod Start
mod Echoes
use wasrisc.Base.{ℕ, ◌+◌, ◌-◌, List, [], codes, get_or, ltb, ◌==◌, if◌then◌else◌}
use wasrisc.Machine.Memory.{Memory}
use wasrisc.Session.{Input}
use wasrisc.Zkvm.Imports.{input_data, input_data_len}
use wasrisc.Zkvm.{Zkvm, input_addr}

-- A machine with the given memory, at the start of a run.
abbrev pub machine : Memory → Zkvm
machine m = record { memory = m; uart = []; output_count = 0 }

-- The input that the host has placed in a machine.
abbrev pub input_of : Zkvm → Input
input_of z = record { bytes = input_data z.memory; length = input_data_len z.memory }

abbrev pub zeros : Memory
zeros a = 0

-- Five bytes of input, `hello`.
abbrev pub five_bytes : Memory
five_bytes a =
    if ltb a (input_addr + 16)
    then (if a == input_addr + 8 then 5 else 0)
    else get_or (codes "hello") (a - (input_addr + 16)) 0
