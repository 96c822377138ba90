-- ===== src/Memlib/Linear.antt =====
-- The buffer of the linear memory beside the areas that the host reads and has written.
use wasrisc.Base.{
  ℕ, ◌+◌, ◌*◌, ◌^◌, ◌≤◌, ◌<◌, ◌≡◌, ◌≢◌, refl, ◌∙◌, arith, List, ◌++◌, All, length, inl, inr,
}
use wasrisc.Machine.{Ensures, Ensures-mono}
use wasrisc.Machine.Memory.{
  load32, store32, store32_outside, load32-store32_ne, load32-store32_self,
}
use wasrisc.Machine.Word.{u32}
use wasrisc.Memlib.Heap.{Buffers, Reach, Reach-Apart}
use wasrisc.Session.{Input}
use wasrisc.Zkvm.{Zkvm, input_addr, output_addr, ram_start, capacity}
use wasrisc.Zkvm.Imports.{input_data, input_data_len}
use wasrisc.Zkvm.OutputBuffer.{Holds, SameOutside, slot, printk_each, printk_each-Holds}
use wasrisc.Zkvm.Session.{Serves, SameOutside-Serves}

-- A word stored by the guest.
abbrev pub with_word : ℕ → ℕ → Zkvm → Zkvm
with_word a v z = record z { memory = store32 z.memory a v }

SameOutside-load32 :
    {z t : Zkvm} (a : ℕ) → SameOutside z t → ram_start ≤ a → load32 t.memory a ≡ load32 z.memory a
unfolding load32
SameOutside-load32 a same above =
    rw
      (
        same.memory a (inr above),
        same.memory (a + 1) (inr (omega arith)),
        same.memory (a + 2) (inr (omega arith)),
        same.memory (a + 3) (inr (omega arith)),
      )
      refl

-- A store in RAM.
module _ (given : Input) (vs : List ℕ) (a v : ℕ) (z : Zkvm) (above : ram_start ≤ a)
    (room : length vs ≤ capacity) where
  with_word-Holds : Holds vs z → Holds vs (with_word a v z)
  with_word-Holds h = record {
    counted = h.counted;
    count_word = elim h.count_word [
      | inl none ↦ inl none
      | inr counted ↦ inr (load32-store32_ne z.memory a output_addr v (inr (omega arith)) ∙ counted)
    ];
    words =
        λ i below. load32-store32_ne z.memory a (slot i) v (inr (omega arith)) ∙ h.words i below;
  }

  with_word-Serves : Serves given vs z → Serves given vs (with_word a v z)
  unfolding input_data input_data_len
  with_word-Serves h = record {
    held = with_word-Holds h.held;
    bytes = λ k ok.
        let place : u32 (input_addr + 4 * 4 + k) < output_addr = omega arith in
        store32_outside z.memory a v _ (inl (omega (arith, place))) ∙ h.bytes k ok;
    len = load32-store32_ne z.memory a (input_addr + 4 * 2) v (inr (omega arith)) ∙ h.len;
  }

module _ (struct_size : ℕ) (small : struct_size ≤ 4096) (ne : struct_size ≢ 1) where
  -- A guest's store of a 32-bit word in the buffer of its linear memory, as a run has allocated it or
  -- let it grow, disturbs neither the input nor the values in the output area; and the values that the
  -- guest then hands over, while they fit, stand there behind the others and leave that word as it is.
  -- The structure has at most 4096 bytes, and not one.
  pub Reach-printk_each :
      {b : Buffers} (given : Input) (vs ws : List ℕ) (p v : ℕ) (z : Zkvm)
      → Reach struct_size b
      → p + 4 ≤ b.content.size
      → v < 2 ^ 32
      → Serves given vs z
      → length vs + length ws ≤ capacity
      → All (λ w. w < 2 ^ 32) ws
      → Ensures
          (printk_each ws (with_word (b.content.start + p) v z))
          (λ _ t. Serves given (vs ++ ws) t × (load32 t.memory (b.content.start + p) ≡ v))
  Reach-printk_each {b} given vs ws p v z r inside word h room words =
      let a = b.content.start + p in
      let ((_, content, _), _) = Reach-Apart struct_size small ne r in
      let above : ram_start ≤ a = ground (arith, content) in
      let stored = with_word-Serves given vs a v z above (omega arith) h in
      Ensures-mono (printk_each-Holds ws vs (with_word a v z) stored.held room words)
        λ _ t (held, same). (
          SameOutside-Serves given vs (vs ++ ws) (with_word a v z) t stored held same,
          SameOutside-load32 a same above ∙ load32-store32_self z.memory a v word,
        )
