-- ===== src/Lib.antt =====
-- The runtime that wasrisc links with a guest program, which w2c2 compiles from WebAssembly to C:
-- the WASI functions that the guest imports, the memory functions that w2c2 calls, and the
-- console, the input and the output of each bare target.
--
-- The parts and how they interact:
--   - A guest calls WASI. `Wasi` models w2c2/embedded/wasi.c: `fd_write` (Wasi/Write.antt), with
--     its loops over the ciovecs and over the bytes; `clock_time_get` (Wasi/Clock.antt), whose
--     counter is advanced through a `double`; and the stubs (Wasi/Stubs), which print and return a
--     code. `Wasip2` models the stubs of w2c2/embedded/wasip2.c. Both take the C library and the
--     linear memory of w2c2_base.h as the interfaces `Libc` and `Wasm` of Host.antt.
--   - `Console` models strlen, putchar, puts and printf, which platform/zkvm/main.c and
--     platform/riscv-qemu/main.c define alike over their own `writeuartc` (the interface `Uart`).
--   - `Zkvm` models platform/zkvm: zkvm.h and zkvm.c (Zkvm.antt), custom_imports.c
--     (Zkvm/Imports.antt) and main.c (Zkvm/Port.antt). The compiled program has `outputCount` of
--     zkvm.c, `ticks` of wasi.c and the guest's linear memory in RAM; the records keep them apart
--     from the bytes of the machine, whose `memory` stands for none of them, and `printk` is
--     undefined where its store would reach RAM. Zkvm/OutputBuffer/Spill.antt has `printk` with
--     `outputCount` in memory. Zkvm/Library.antt fills `Libc` with the zkvm's own functions, so
--     the theorems on WASI hold of that target.
--   - `Session` composes them: a guest is a program (`Program`) that calls WASI, preview 1 and 2,
--     the clock, printk and the input, each call chosen by the results before it and by the linear
--     memory, with what it computes in between, over a target, which is the interface `Target`. A
--     program makes finitely many calls on every path; Zkvm/Session/Reaches.antt has the states of
--     guests without end. Session/View.antt is what the guest and the host see of a run, and
--     Session/Performs.antt and Session/Refines.antt show that a machine does what the view says.
--     Session/Portable.antt sets two targets side by side, Session/Echo.antt has one guest, over
--     the ciovec of Session/Prepared.antt, and Session/Ending.antt has the ways in which a guest's
--     run ends. The `Session` of Zkvm, RiscvQemu, RiscvQemuUser and Amd64 fills `Target`. On the
--     zkvm, Whole adds `main`, Boot adds startup.S, and Intact, Keeps, AnyGuest and Reaches are
--     about guests of which only the number of values that they hand over is bounded.
--     Amd64/Whole.antt adds `main` and its arguments, and Zkvm/Session/Echoes.antt and
--     Amd64/Echoes.antt are about the guest of Session/Echo.antt there. platform/amd64 does not
--     link wasip2.c, so a guest of it makes no call of it.
--   - `Startup` models the loops of the three startup.S that clear the BSS; what follows them is
--     in Zkvm/Session/Boot.antt, RiscvQemu/Endings.antt and RiscvWamrQemu/Start.antt.
--   - `Memlib` models w2c2/embedded/memlib.c, which is linked with the zkvm: the three buffers of
--     w2c2 at fixed places of the heap, and memset with its shortcut. Memlib/Heap.antt has the
--     reachable states of the buffers as a step relation on calls that succeed, and
--     Memlib/Linear.antt sets the buffer of the linear memory beside the areas of zkvm.c.
--   - `RiscvQemu` models platform/riscv-qemu: main.c (RiscvQemu.antt, RiscvQemu/Polling.antt and
--     RiscvQemu/Endings.antt) and custom_imports.c (RiscvQemu/Imports.antt), with `exit` of
--     startup.S. RiscvQemu/Library.antt fills `Libc` a second time.
--   - `RiscvWamrQemu` models uart.c and syscalls.c of platform/riscv-wamr-qemu, which a C library
--     and the WAMR runtime stand on: Sending and Streams are about `_write`, Reading and Lines
--     about `_read`, and Sbrk about the heap. RiscvWamrQemu/File2c.antt models its
--     file2c/file2c.c, which makes the C source of the program that the runtime loads.
--   - `Wamr` models platform/riscv-wamr-qemu/main.c and platform/riscv-wamr-qemu-aarch64/main.c,
--     over a runtime of which only the answers are known. Wamr/Protocol.antt states its order of
--     calls as a step relation on what the runtime holds, Wamr/Spoken.antt what has been printed
--     at each end, and Wamr/Lines.antt that these are whole lines.
--   - RiscvWamrQemu/Start.antt composes `Startup`, `Wamr` and `RiscvWamrQemu`: the machine of the
--     WAMR target from its reset on, with the stream of the C library (`Stream`,
--     RiscvWamrQemu/Stdout.antt) between printf and `_write`. Of what a call of the runtime does
--     to the board it has what the call prints.
--   - `Amd64` models platform/amd64: amd64.c, which reads a guest's input from a file over the
--     interface `Stdio`, and the imports that hand it over (Amd64.antt); main.c and the imports
--     that print (Amd64/Port.antt). `RiscvQemuUser` models platform/riscv-qemu-user. `Hosted` is
--     the process that both run on: its two outputs and how it ends. Hosted/Library.antt fills
--     `Libc` for both.
--   - `Machine` has what a run of a C function can come to (it returns, shuts the machine down,
--     goes on for ever, or is undefined), 32-bit words in byte-addressed memory, and casts. `Base`
--     has the names and list lemmas that all share. `Tests` applies the theorems to concrete
--     machines.
--
-- State is passed explicitly. A record holds what the C code keeps in statics, in memory and in
-- the device; a function is a `Cmd`, from a state to a `Run`. C's unsigned arithmetic has its
-- modulus written out, and signed overflow is `undefined`.
--
-- Bounds and fuel:
--   - `strlen` makes a hundred rounds at most, which is its own bound. The loop of `puts` and
--     `printf` is given one round more than the string is long, for the last test.
--   - `write_ciovecs` is given eleven rounds; the code makes ten at most and tests once more.
--     `put_bytes` is given one more than the buffer has bytes. Each of these loops hangs when it
--     uses up its rounds.
--   - `clear_bss` is given its rounds; more than there are bytes to clear are enough.
--   - `to_double` tries eleven spacings, enough for numbers below 2 ^ 64.
--   - `decimal` prints ten digits at most, enough for an `int`.
--   - The UART of the two QEMU targets is the list of what the reads of its line status will
--     return. A loop that uses the list up hangs, so theorems on it ask for enough reads that show
--     its bit.
--
-- Parameters, which are code from elsewhere: the linear memory (`Wasm`), a C library (`Libc`), the
-- guest (`Guest`), `sizeof(wasmMemory)`, the numbers of the C library's headers (`Posix`), its
-- files (`Stdio`), its stream (`Stream`) and its formatted texts (`Texts`), the WAMR runtime
-- (`Runtime`), the bounds of the BSS, which the linker gives, and the routines of
-- w2c2/embedded/memops.S (`Memops`).
--
-- Not modelled: w2c2/embedded/memops.S and w2c2/embedded/wasi.h, which are copies from other
-- projects; accessors without a computation (`wasiMemory`, `__errno`, `environ`); the setting of
-- the stack pointer; the scripts, the container image and the examples.
mod Base
pub mod Machine
pub mod Console
pub mod Host
pub mod Session
pub mod Zkvm
pub mod Wasi
pub mod Wasip2
pub mod Memlib
pub mod RiscvQemu
pub mod RiscvWamrQemu
pub mod Wamr
pub mod Startup
pub mod Hosted
pub mod Amd64
pub mod RiscvQemuUser
mod Tests
