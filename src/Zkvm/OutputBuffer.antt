-- ===== src/Zkvm/OutputBuffer.antt =====
-- The words that `printk` has written, as the host reads them: the count at `output_addr` and the
-- values behind it, up to the start of RAM.
pub mod Spill
use wasrisc.Base.{
  ℕ, zero, suc, ◌+◌, ◌*◌, ◌^◌, ◌≤◌, ◌<◌, ◌≡◌, refl, ◌⊎◌, inr, List, [], ◌∷◌, ◌++◌, arith, ◌∙◌,
  append-nil, append_assoc, All, length, length-append, get_or,
}
use wasrisc.Machine.{done, Ensures, Ensures-bind, Ensures-mono, Cmd, pure, ◌>>◌}
use wasrisc.Machine.Memory.{
  Memory, load32, store32, load32-store32_self, load32-store32_ne, store32_outside,
}
use wasrisc.Zkvm.{Zkvm, printk, output_addr, ram_start, capacity}

abbrev pub slot : ℕ → ℕ
slot i = output_addr + 4 + 4 * i

-- The output area holds exactly the values `vs`, in order.
pub record Holds (vs : List ℕ) (z : Zkvm) : Type 0 where
  pub counted : z.output_count ≡ length vs
  pub count_word : vs ≡ [] ⊎ (load32 z.memory output_addr ≡ length vs)
  pub words : (i : ℕ) → i < length vs → load32 z.memory (slot i) ≡ get_or vs i 0

-- Only the output area and the count differ.
pub record SameOutside (z t : Zkvm) : Type 0 where
  pub uart : t.uart ≡ z.uart
  pub memory : (a : ℕ) → (a < output_addr) ⊎ (ram_start ≤ a) → t.memory a ≡ z.memory a

pub get_or-append_last : (vs : List ℕ) (v : ℕ) → get_or (vs ++ v ∷ []) (length vs) 0 ≡ v
get_or-append_last [] v = refl
get_or-append_last (x ∷ vs) v = get_or-append_last vs v

pub get_or-append_left :
    (vs : List ℕ) (v i : ℕ) → i < length vs → get_or (vs ++ v ∷ []) i 0 ≡ get_or vs i 0
get_or-append_left [] v i h = absurd (omega arith)
get_or-append_left (x ∷ vs) v zero h = refl
get_or-append_left (x ∷ vs) v (suc i) h = get_or-append_left vs v i (omega arith)

-- The state after a `printk` that is defined.
abbrev printed : ℕ → Zkvm → Zkvm
printed v z = record z {
  output_count = z.output_count + 1;
  memory = store32 (store32 z.memory output_addr (z.output_count + 1)) (slot z.output_count) v;
}

printk-printed :
    (v : ℕ) (z : Zkvm) → z.output_count < capacity → v < 2 ^ 32 → printk v z ≡ done tt (printed v z)
unfolding printk
printk-printed v z room small = ground arith

module _ (v : ℕ) (vs : List ℕ) (z : Zkvm) (h : Holds vs z) (room : length vs < capacity)
    (small : v < 2 ^ 32) where
  abbrev counted_memory : Memory
  counted_memory = store32 z.memory output_addr (z.output_count + 1)

  count_word-printed : load32 (printed v z).memory output_addr ≡ length (vs ++ v ∷ [])
  count_word-printed = ground (
    arith,
    h.counted,
    length-append vs (v ∷ []),
    load32-store32_ne counted_memory (slot z.output_count) output_addr v,
    load32-store32_self z.memory output_addr (z.output_count + 1),
  )

  words-printed :
      (i : ℕ)
      → i < length (vs ++ v ∷ [])
      → load32 (printed v z).memory (slot i) ≡ get_or (vs ++ v ∷ []) i 0
  words-printed i below = ground (
    arith,
    h.counted,
    h.words i,
    length-append vs (v ∷ []),
    get_or-append_left vs v i,
    get_or-append_last vs v,
    load32-store32_ne counted_memory (slot z.output_count) (slot i) v,
    load32-store32_ne z.memory output_addr (slot i) (z.output_count + 1),
    load32-store32_self counted_memory (slot z.output_count) v,
  )

  printed-Holds : Holds (vs ++ v ∷ []) (printed v z)
  printed-Holds = record {
    counted = omega (arith, h.counted, length-append vs (v ∷ []));
    count_word = inr count_word-printed;
    words = words-printed;
  }

  printed-SameOutside : SameOutside z (printed v z)
  printed-SameOutside = record {
    uart = refl;
    memory = λ a out. ground (
      arith,
      h.counted,
      store32_outside counted_memory (slot z.output_count) v a,
      store32_outside z.memory output_addr (z.output_count + 1) a,
    );
  }

-- While the buffer has room, `printk` appends its value to what the output area holds, and changes
-- no memory outside the area and nothing on the UART.
pub printk-Holds :
    (v : ℕ) (vs : List ℕ) (z : Zkvm)
    → Holds vs z
    → length vs < capacity
    → v < 2 ^ 32
    → Ensures (printk v z) (λ _ t. Holds (vs ++ v ∷ []) t × SameOutside z t)
printk-Holds v vs z h room small = (
  tt,
  printed v z,
  printk-printed v z (omega (arith, h.counted)) small,
  (printed-Holds v vs z h room small, printed-SameOutside v vs z h room small),
)

-- A guest that prints one value after another.
unfoldable pub printk_each : List ℕ → Cmd Zkvm (Unit {0})
printk_each [] = pure tt
printk_each (v ∷ vs) = printk v >> printk_each vs

-- A run of `printk` calls with 32-bit values leaves them all in the output area, in order and behind
-- those it held, as long as they fit; the UART and all memory outside the area stay as they were.
pub printk_each-Holds :
    (ws vs : List ℕ) (z : Zkvm)
    → Holds vs z
    → length vs + length ws ≤ capacity
    → All (λ w. w < 2 ^ 32) ws
    → Ensures (printk_each ws z) (λ _ t. Holds (vs ++ ws) t × SameOutside z t)
unfolding printk_each
printk_each-Holds [] vs z h room small =
    (tt, z, refl, (rw append-nil h, record { uart = refl; memory = λ a out. refl }))
printk_each-Holds (w ∷ ws) vs z h room small =
    Ensures-bind (printk-Holds w vs z h (omega arith) small.0) λ _ t (held, same).
      let longer = length-append vs (w ∷ []) in
      Ensures-mono (printk_each-Holds ws (vs ++ w ∷ []) t held (omega (arith, longer)) small.1)
        λ _ t' (held', same'). (
          rw append_assoc at held',
          record {
            uart = same'.uart ∙ same.uart;
            memory = λ a out. same'.memory a out ∙ same.memory a out;
          },
        )
