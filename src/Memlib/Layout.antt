-- ===== src/Memlib/Layout.antt =====
-- Where the three buffers lie, and for which sizes.
use wasrisc.Base.{
  ℕ, ◌+◌, ◌-◌, ◌*◌, ◌^◌, ◌≤◌, ◌<◌, ◌≡◌, ◌≢◌, ◌↔◌, ◌⊎◌, refl, arith, true, false, Bool-cases, inl,
  inr, codes,
}
use wasrisc.Machine.{done, Ensures, Ensures-mono}
use wasrisc.Machine.Word.{u32, u64}
use wasrisc.Zkvm.{Zkvm, heap_start, heap_size}
use wasrisc.Console.Text.{shown}
use wasrisc.Zkvm.Port.Endings.{sent, puts-sent}
use wasrisc.Memlib.{
  wasm_function_table_buf_size, null, memory_data_size_ok, malloc, alloc_type, calloc, realloc,
  wasm_memory_data_alloc, wasm_memory_struct_alloc, wasm_function_table_alloc,
}

abbrev pub heap_end : ℕ
heap_end = heap_start + heap_size

module _ (struct_size : ℕ) (small : struct_size ≤ 4096) where
  -- The first address that the memory's data must leave to the table.
  abbrev pub data_floor : ℕ
  data_floor = heap_start + struct_size + wasm_function_table_buf_size

  -- For a structure of at most 4096 bytes and every size of 64 bits, the test succeeds exactly if the
  -- data and the assumed table fit the heap behind the structure, or the sum of the size with their
  -- offsets passes 2 ^ 64.
  pub memory_data_size_ok_iff :
      (size : ℕ)
      → size < 2 ^ 64
      → (memory_data_size_ok struct_size size ≡ true)
        ↔ ((data_floor + size ≤ heap_end) ⊎ (2 ^ 64 ≤ data_floor + size))
  unfolding memory_data_size_ok
  memory_data_size_ok_iff size bounded = ground arith

  memory_data_size_ok-fits :
      (size : ℕ)
      → data_floor + size < 2 ^ 64
      → memory_data_size_ok struct_size size ≡ true
      → data_floor + size ≤ heap_end
  unfolding memory_data_size_ok
  memory_data_size_ok-fits size fits ok = ground arith

  memory_data_size_ok-full :
      (size : ℕ)
      → data_floor + size < 2 ^ 64
      → memory_data_size_ok struct_size size ≡ false
      → heap_end < data_floor + size
  unfolding memory_data_size_ok
  memory_data_size_ok-full size fits full = ground arith

  malloc-struct :
      (n : ℕ) (z : Zkvm)
      → malloc struct_size n wasm_memory_struct_alloc z
        ≡ done heap_start (sent (shown (codes "malloc: allocate wasm memory struct\n")) z)
  unfolding malloc
  malloc-struct n z = rw puts-sent

  malloc-table :
      (n : ℕ) (z : Zkvm)
      → malloc struct_size n wasm_function_table_alloc z
        ≡ done
            (u64 (u32 heap_end + 2 ^ 64 - n - 1))
            (sent (shown (codes "malloc: table allocate\n")) z)
  unfolding malloc
  malloc-table n z = rw puts-sent

  abbrev asked : Zkvm → Zkvm
  asked z = sent (shown (codes "malloc: allocate memory->data\n")) z

  malloc-data :
      (n : ℕ) (z : Zkvm)
      → memory_data_size_ok struct_size n ≡ true
      → malloc struct_size n wasm_memory_data_alloc z
        ≡ done (u32 (heap_start + struct_size)) (asked z)
  unfolding malloc
  malloc-data n z ok = rw (puts-sent (codes "malloc: allocate memory->data\n") z, ok)

  malloc-refused :
      (n : ℕ) (z : Zkvm)
      → memory_data_size_ok struct_size n ≡ false
      → malloc struct_size n wasm_memory_data_alloc z
        ≡ done null (sent (shown (codes "malloc: not enough space available\n")) (asked z))
  unfolding malloc
  malloc-refused n z full = rw (
    puts-sent (codes "malloc: allocate memory->data\n") z,
    full,
    puts-sent (codes "malloc: not enough space available\n") (asked z),
  )

  alloc_type-struct : alloc_type struct_size struct_size ≡ wasm_memory_struct_alloc
  unfolding alloc_type
  alloc_type-struct = ground arith

  alloc_type-data : struct_size ≢ 1 → alloc_type struct_size 1 ≡ wasm_memory_data_alloc
  unfolding alloc_type
  alloc_type-data ne = ground arith

  alloc_type-table :
      (size : ℕ)
      → size ≢ struct_size
      → size ≢ 1
      → alloc_type struct_size size ≡ wasm_function_table_alloc
  unfolding alloc_type
  alloc_type-table size ne_struct ne_data = ground arith

  calloc-malloc :
      (nmemb size : ℕ) (z : Zkvm)
      → calloc struct_size nmemb size z
        ≡ malloc struct_size
            (u64 (nmemb * size))
            (alloc_type struct_size size)
            (sent (shown (codes "calloc()\n")) z)
  unfolding calloc
  calloc-malloc nmemb size z = rw puts-sent

  -- The structure's buffer is the start of the heap.
  pub calloc_struct :
      (z : Zkvm) → Ensures (calloc struct_size 1 struct_size z) (λ p _. p ≡ heap_start)
  calloc_struct z = rw (calloc-malloc, alloc_type-struct) (heap_start, _, malloc-struct _ _, refl)

  -- The table's buffer ends one byte before the end of the heap.
  pub calloc_table :
      (nmemb size : ℕ) (z : Zkvm)
      → size ≢ struct_size
      → size ≢ 1
      → nmemb * size < heap_end
      → Ensures (calloc struct_size nmemb size z) (λ p _. p + nmemb * size + 1 ≡ heap_end)
  calloc_table nmemb size z ne_struct ne_data fits =
      rw (calloc-malloc, alloc_type-table size ne_struct ne_data)
        (u64 (u32 heap_end + 2 ^ 64 - u64 (nmemb * size) - 1), _, malloc-table _ _, omega arith)

  -- For a structure that is not of one byte, and a size whose sum with the offsets fits 64 bits: the
  -- data's buffer follows the structure's if it leaves the assumed table its room, and is null
  -- otherwise.
  pub calloc_data :
      (n : ℕ) (z : Zkvm)
      → struct_size ≢ 1
      → data_floor + n < 2 ^ 64
      → Ensures (calloc struct_size n 1 z) (λ p _.
        ((p ≡ null) × (heap_end < data_floor + n))
        ⊎ ((p ≡ heap_start + struct_size) × (data_floor + n ≤ heap_end)))
  calloc_data n z ne fits =
      let same : u64 (n * 1) ≡ n = omega arith in
      rw (calloc-malloc, alloc_type-data ne, same)
        (elim (Bool-cases (memory_data_size_ok struct_size n)) [
          | inl ok ↦ (
            u32 (heap_start + struct_size),
            _,
            malloc-data n _ ok,
            inr (omega arith, memory_data_size_ok-fits n fits ok),
          )
          | inr full ↦
              (null, _, malloc-refused n _ full, inl (refl, memory_data_size_ok-full n fits full))
        ])

  -- For a size whose sum with the offsets fits 64 bits: a buffer keeps its place if the size leaves
  -- the assumed table its room, and `realloc` returns null otherwise.
  pub realloc_lem :
      (ptr size : ℕ) (z : Zkvm)
      → data_floor + size < 2 ^ 64
      → Ensures (realloc struct_size ptr size z) (λ p _.
        ((p ≡ null) × (heap_end < data_floor + size))
        ⊎ ((p ≡ ptr) × (data_floor + size ≤ heap_end)))
  unfolding realloc
  realloc_lem ptr size z fits = elim (Bool-cases (memory_data_size_ok struct_size size)) [
    | inl ok ↦ rw ok (ptr, z, refl, inr (refl, memory_data_size_ok-fits size fits ok))
    | inr full ↦
        rw (full, puts-sent) (null, _, refl, inl (refl, memory_data_size_ok-full size fits full))
  ]

  -- For a table that fits the heap, of which the size decides the kind of its buffer, and the largest
  -- memory that the size test allows behind the structure: the table begins inside that memory exactly
  -- if it has the assumed size or more. The assumption is never updated from the sizes asked for.
  pub calloc_table-overlaps :
      (nmemb size : ℕ) (z : Zkvm)
      → size ≢ struct_size
      → size ≢ 1
      → nmemb * size < heap_end
      → let largest = heap_end - data_floor in
        (memory_data_size_ok struct_size largest ≡ true)
        × (memory_data_size_ok struct_size (largest + 1) ≡ false)
        × Ensures (calloc struct_size nmemb size z) (λ p _.
          (p < heap_start + struct_size + largest) ↔ (wasm_function_table_buf_size ≤ nmemb * size))
  unfolding memory_data_size_ok
  calloc_table-overlaps nmemb size z ne_struct ne_data fits = (
    ground arith,
    ground arith,
    Ensures-mono (calloc_table nmemb size z ne_struct ne_data fits)
        λ p _ e. (λ inside. omega arith, λ large. omega arith),
  )
