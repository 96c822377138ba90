-- ===== src/Tests/Heap.antt =====
-- The heap, with a `wasmMemory` of 48 bytes, and `memset`.
use wasrisc.Base.{
  false, ◌*◌, ℕ, ◌+◌, ◌-◌, ◌^◌, ◌≤◌, ◌<◌, ◌≡◌, ◌↔◌, ◌⊎◌, refl, ◌≢◌, [], ◌∷◌, inl, inr, arith, true,
  ltb, leb, ◌&&◌, if◌then◌else◌,
}
use wasrisc.Machine.{done, Ensures}
use wasrisc.Machine.Memory.{Memory, load32}
use wasrisc.Machine.Word.{u8}
use wasrisc.Memlib.{Memops, null, memory_data_size_ok, calloc, memset}
use wasrisc.Memlib.Heap.{
  Buffers, Reach, InHeap, Apart, region, here, next, alloc_struct, alloc_content, alloc_table,
  Reach-Apart, nothing,
}
use wasrisc.Memlib.Layout.{
  heap_end, memory_data_size_ok_iff, calloc_data, calloc_table-overlaps, calloc_struct,
  calloc_table,
}
use wasrisc.Memlib.Linear.{with_word, Reach-printk_each}
use wasrisc.Zkvm.OutputBuffer.{printk_each}
use wasrisc.Zkvm.Session.{Serves}
use wasrisc.Memlib.Memset.{Filled, memset-Filled_iff}
use wasrisc.Tests.{input_of, machine, zeros}
use wasrisc.Zkvm.{Zkvm}

abbrev z : Zkvm
z = machine zeros

memory_data_size_ok_iff_example :
    (memory_data_size_ok 48 (2 ^ 64 - 1) ≡ true)
    ↔ ((0xa1120030 + (2 ^ 64 - 1) ≤ heap_end) ⊎ (2 ^ 64 ≤ 0xa1120030 + (2 ^ 64 - 1)))
memory_data_size_ok_iff_example =
    memory_data_size_ok_iff 48 (omega arith) (2 ^ 64 - 1) (omega arith)

calloc_table-overlaps_example :
    (memory_data_size_ok 48 (heap_end - 0xa1120030) ≡ true)
    × (memory_data_size_ok 48 (heap_end - 0xa1120030 + 1) ≡ false)
    × Ensures
        (calloc 48 131072 8 z)
        (λ p _. (p < 0xa1020030 + (heap_end - 0xa1120030)) ↔ (0x100000 ≤ 131072 * 8))
calloc_table-overlaps_example =
    calloc_table-overlaps 48 (omega arith) 131072 8 z (omega arith) (omega arith) (omega arith)

-- A buffer of 64 KiB for the linear memory.
abbrev content : Ensures (calloc 48 65536 1 z) (λ p _.
    ((p ≡ null) × (heap_end < 0xa1120030 + 65536))
    ⊎ ((p ≡ 0xa1020030) × (0xa1120030 + 65536 ≤ heap_end)))
content = calloc_data 48 (omega arith) 65536 z (omega arith) (omega arith)

content-allocated : content.0 ≢ null
content-allocated = elim content.3 [
  | inl (_, full) ↦ absurd (omega (arith, full))
  | inr (at, _) ↦ omega (arith, at)
]

abbrev laid : Buffers
laid = record {
  structure = region (calloc_struct 48 (omega arith) z).0 48;
  content = region content.0 65536;
  table =
      region (calloc_table 48 (omega arith) 16 8 z (omega arith) (omega arith) (omega arith)).0 128;
}

laid-Reach : Reach 48 laid
laid-Reach =
    let s = calloc_struct 48 (omega arith) z in
    let t = calloc_table 48 (omega arith) 16 8 z (omega arith) (omega arith) (omega arith) in
    next
      (next (next here (alloc_struct nothing z s.1 s.0 s.2))
        (alloc_content _ z content.1 65536 content.0 (omega arith) content.2 content-allocated))
      (alloc_table _ z t.1 16 8 t.0 (omega arith) (omega arith) (omega arith) t.2)

Reach-printk_each_example :
    Ensures (printk_each (5 ∷ 7 ∷ []) (with_word (laid.content.start + 8) 0xcafe z)) (λ _ t.
      Serves (input_of z) (5 ∷ 7 ∷ []) t × (load32 t.memory (laid.content.start + 8) ≡ 0xcafe))
Reach-printk_each_example =
    Reach-printk_each 48 (omega arith) (omega arith) (input_of z) [] (5 ∷ 7 ∷ []) 8 0xcafe z
      laid-Reach (omega arith) (omega arith)
      (record {
        held = record {
          counted = refl;
          count_word = inl refl;
          words = λ i h. absurd (omega arith);
        };
        bytes = λ k ok. refl;
        len = refl;
      })
      (omega arith) (omega arith)

Reach-Apart_example :
    (InHeap laid.structure × InHeap laid.content × InHeap laid.table)
    × (Apart laid.structure laid.content
        × Apart laid.content laid.table
        × Apart laid.structure laid.table)
Reach-Apart_example = Reach-Apart 48 (omega arith) (omega arith) laid-Reach

abbrev byte_loop : ℕ → ℕ → ℕ → Memory → Memory
byte_loop b c len m a = if leb b a && ltb a (b + len) then u8 c else m a

abbrev test_ops : Memops
test_ops = record {
  asm_memcpy =
      λ dest src n m a. if leb dest a && ltb a (dest + n) then m (src + (a - dest)) else m a;
  asm_memmove =
      λ dest src n m a. if leb dest a && ltb a (dest + n) then m (src + (a - dest)) else m a;
  asm_memset = byte_loop;
  asm_memset_lem = λ b c len m a. refl;
}

memset-Filled_iff_example :
    (t : Zkvm) × (memset test_ops 16 0 0x200000 z ≡ done 16 t)
    × (Filled 16 0 0x200000 zeros t.memory ↔ (
        (0x200000 ≤ 0x100000) ⊎ ((0 < 0) ⊎ ((a : ℕ) → 16 ≤ a → a < 16 + 0x200000 → zeros a ≡ 0))))
memset-Filled_iff_example = memset-Filled_iff test_ops 16 0 0x200000 z
