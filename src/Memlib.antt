-- ===== src/Memlib.antt =====
-- w2c2/embedded/memlib.c: the three buffers of w2c2 at fixed places of the heap, and the memory
-- functions over the assembly routines of memops.S. It is linked with platform/zkvm/main.c.
pub mod Layout
pub mod Heap
pub mod Memset
pub mod Linear
use wasrisc.Base.{
  ℕ, ◌+◌, ◌-◌, ◌*◌, ◌%◌, ◌^◌, ◌≡◌, ◌<◌, Bool, not, ◌&&◌, ◌==◌, leb, ltb, if◌then◌else◌, codes,
}
use wasrisc.Machine.{done, Cmd, pure, ◌>>◌}
use wasrisc.Machine.Memory.{Memory}
use wasrisc.Machine.Word.{u8, u32, u64}
use wasrisc.Zkvm.{Zkvm, heap_start, heap_size}
use wasrisc.Zkvm.Port.{puts}

abbrev pub wasm_function_table_buf_size : ℕ
wasm_function_table_buf_size = 0x100000

pub data AllocType : Type 0 where
  wasm_memory_struct_alloc wasm_function_table_alloc wasm_memory_data_alloc : AllocType

-- Pointers are 64-bit numbers, and `null` is 0.
abbrev pub null : ℕ
null = 0

-- `struct_size` is `sizeof(wasmMemory)`, a structure of w2c2_base.h.
module _ (struct_size : ℕ) where
  -- The constants are `unsigned`, so their sum has 32 bits; `size` makes it 64 bits wide.
  unfoldable pub memory_data_size_ok : ℕ → Bool
  memory_data_size_ok size =
      leb (u64 (u32 (heap_start + struct_size + wasm_function_table_buf_size) + size))
        (u32 (heap_start + heap_size))

  unfoldable pub malloc : ℕ → AllocType → Cmd Zkvm ℕ
  malloc size wasm_memory_struct_alloc =
      puts (codes "malloc: allocate wasm memory struct\n") >> pure heap_start
  malloc size wasm_function_table_alloc =
      puts (codes "malloc: table allocate\n")
      >> pure (u64 (u32 (heap_start + heap_size) + 2 ^ 64 - size - 1))
  malloc size wasm_memory_data_alloc = do
    puts (codes "malloc: allocate memory->data\n")
    if not (memory_data_size_ok size)
        then puts (codes "malloc: not enough space available\n") >> pure null
        else pure (u32 (heap_start + struct_size))

  unfoldable pub alloc_type : ℕ → AllocType
  alloc_type size =
      if size == struct_size
      then wasm_memory_struct_alloc
      else if size == 1
      then wasm_memory_data_alloc
      else wasm_function_table_alloc

  -- The zeroing is compiled out by `SKIP_ALLOC_ZEROING`.
  unfoldable pub calloc : ℕ → ℕ → Cmd Zkvm ℕ
  calloc nmemb size = puts (codes "calloc()\n") >> malloc (u64 (nmemb * size)) (alloc_type size)

  unfoldable pub realloc : ℕ → ℕ → Cmd Zkvm ℕ
  realloc ptr size =
      if not (memory_data_size_ok size)
      then puts (codes "realloc: not enough space available\n") >> pure null
      else pure ptr

unfoldable pub free : ℕ → Cmd Zkvm (Unit {0})
free ptr = puts (codes "free()\n") >> pure tt

-- The assembly routines, which are another project's. `asm_memset` fills with the low byte.
pub record Memops : Type 0 where
  pub asm_memcpy : ℕ → ℕ → ℕ → Memory → Memory
  pub asm_memmove : ℕ → ℕ → ℕ → Memory → Memory
  pub asm_memset : ℕ → ℕ → ℕ → Memory → Memory
  pub asm_memset_lem :
      (b c len : ℕ) (m : Memory) (a : ℕ)
      → asm_memset b c len m a ≡ (if leb b a && ltb a (b + len) then u8 c else m a)

module _ (ops : Memops) where
  abbrev on_memory : (Memory → Memory) → ℕ → Cmd Zkvm ℕ
  on_memory f p z = done p (record z { memory = f z.memory })

  unfoldable pub memcpy : ℕ → ℕ → ℕ → Cmd Zkvm ℕ
  memcpy dest src n = on_memory (ops.asm_memcpy dest src n) dest

  unfoldable pub memmove : ℕ → ℕ → ℕ → Cmd Zkvm ℕ
  memmove dest src n = on_memory (ops.asm_memmove dest src n) dest

  -- `SKIP_BIG_CHUNKS_MEMSET_ZEROING` is defined.
  unfoldable pub memset : ℕ → ℕ → ℕ → Cmd Zkvm ℕ
  memset b c len =
      if ltb wasm_function_table_buf_size len && (c == 0)
      then pure b
      else on_memory (ops.asm_memset b c len) b

  unfoldable pub rv64_zero : ℕ → ℕ → Cmd Zkvm (Unit {0})
  rv64_zero dst n = do
    puts (codes "rv64_zero()\n")
    if n == 0 then pure tt else memset dst 0 n >> pure tt
