-- ===== src/Zkvm/OutputBuffer/Spill.antt =====
-- `printk` of platform/zkvm/zkvm.c with `outputCount` in memory, where the compiled program has it: what
-- Zkvm.antt keeps apart from the memory, and what a full output area leads to.
use wasrisc.Base.{
  ℕ, ◌+◌, ◌-◌, ◌*◌, ◌^◌, ◌≤◌, ◌<◌, ◌≡◌, ◌⊎◌, inl, refl, sym, append-nil, append_assoc, List, [],
  ◌∷◌, ◌++◌, All, arith, ◌∙◌, ap, length, length-append, get_or, ltb, leb, ◌||◌, if◌then◌else◌,
}
use wasrisc.Machine.{Run, done, undefined, Cmd, pure, ◌>>◌, Ensures, Ensures-bind, Ensures-mono}
use wasrisc.Machine.Memory.{
  Memory, load32, store32, load32-store32_self, load32-store32_ne, store32_outside,
}
use wasrisc.Machine.Word.{u32}
use wasrisc.Zkvm.{Zkvm, printk, output_addr, ram_start, ram_size, capacity}
use wasrisc.Zkvm.OutputBuffer.{printk_each, get_or-append_last, get_or-append_left}

-- `outputCount` lies at `p`. The index is an `int`, so its multiple by four is undefined when it does
-- not fit; the address is an `unsigned`.
unfoldable pub printk_at : ℕ → ℕ → Cmd Memory (Unit {0})
printk_at p val m =
    let count = u32 (load32 m p + 1) in
    let counted = store32 (store32 m p count) output_addr count in
    let index = u32 (count + (2 ^ 32 - 1)) in
    if ltb index (2 ^ 29) || leb (2 ^ 32 - 2 ^ 29) index
    then done tt (store32 counted (u32 (output_addr + 4 + 4 * index)) (u32 val))
    else undefined

unfoldable pub printk_each_at : ℕ → List ℕ → Cmd Memory (Unit {0})
printk_each_at p [] = pure tt
printk_each_at p (v ∷ vs) = printk_at p v >> printk_each_at p vs

-- The memory `m` has the count of `z` at `p` and agrees with its memory everywhere else.
pub record Represents (p : ℕ) (m : Memory) (z : Zkvm) : Type 0 where
  pub counter : load32 m p ≡ z.output_count
  pub elsewhere : (a : ℕ) → (a < p) ⊎ (p + 4 ≤ a) → m a ≡ z.memory a

store32_cong : (m n : Memory) (p v a : ℕ) → m a ≡ n a → store32 m p v a ≡ store32 n p v a
unfolding store32
store32_cong m n p v a same = ground (arith, same)

abbrev returned : Memory → Run Memory (Unit {0})
returned m = done tt m

-- The memory after a call that finds `count` in the counter and its index within the bounds.
abbrev stored_at : ℕ → ℕ → ℕ → Memory → Memory
stored_at p count v m =
    store32 (store32 (store32 m p (count + 1)) output_addr (count + 1))
      (output_addr + 4 + 4 * count) v

printk_at-stored_at :
    (p v : ℕ) (m : Memory)
    → load32 m p < 2 ^ 27
    → printk_at p v m ≡ done tt (stored_at p (load32 m p) (u32 v) m)
unfolding printk_at
printk_at-stored_at p v m few = ground arith

counter-stored_at :
    (p count v : ℕ) (m : Memory)
    → ram_start ≤ p
    → count < 2 ^ 27
    → output_addr + 4 + 4 * count + 4 ≤ p
    → load32 (stored_at p count v m) p ≡ count + 1
counter-stored_at p count v m above few before =
    load32-store32_ne (store32 (store32 m p (count + 1)) output_addr (count + 1))
      (output_addr + 4 + 4 * count) p v (inl (omega arith))
    ∙ load32-store32_ne (store32 m p (count + 1)) output_addr p (count + 1) (inl (omega arith))
    ∙ load32-store32_self m p (count + 1) (omega arith)

-- A call of `printk` while the area has room.
printk_at-printk :
    (p v : ℕ) (m : Memory) (z : Zkvm)
    → ram_start ≤ p
    → z.output_count < capacity
    → Represents p m z
    → Ensures (printk v z) (λ _ t.
      (t.output_count ≡ z.output_count + 1)
      × ((m' : Memory) × (printk_at p v m ≡ done tt m') × Represents p m' t))
unfolding printk
printk_at-printk p v m z above room same =
    let few : load32 m p < 2 ^ 27 = omega (arith, same.counter) in
    let count = z.output_count in
    let counted = store32 z.memory output_addr (count + 1) in
    let t : Zkvm = record z {
      output_count = count + 1;
      memory = store32 counted (output_addr + 4 + 4 * count) (u32 v);
    } in
    (
      tt,
      t,
      ground (arith, room),
      (
        refl,
        (
          stored_at p count (u32 v) m,
          printk_at-stored_at p v m few
              ∙ ap (λ (c : ℕ). returned (stored_at p c (u32 v) m)) same.counter,
          record {
            counter = counter-stored_at p count (u32 v) m above (omega arith) (omega arith);
            elsewhere = λ a out.
                store32_cong (store32 (store32 m p (count + 1)) output_addr (count + 1)) counted
                  (output_addr + 4 + 4 * count) (u32 v) a
                  (store32_cong (store32 m p (count + 1)) z.memory output_addr (count + 1) a
                    (store32_outside m p (count + 1) a out ∙ same.elsewhere a out));
          },
        ),
      ),
    )

-- With `outputCount` in a word of RAM, and memory that agrees with the state of the zkvm everywhere
-- else, a run of `printk` calls with any values, for which the output area has room, does to the
-- memory what it does to the state that keeps `outputCount` apart: both return, and again they agree.
pub printk_each_at-printk_each :
    (p : ℕ) (vs : List ℕ) (m : Memory) (z : Zkvm)
    → ram_start ≤ p
    → z.output_count + length vs ≤ capacity
    → Represents p m z
    → Ensures
        (printk_each vs z)
        (λ _ t. (m' : Memory) × (printk_each_at p vs m ≡ done tt m') × Represents p m' t)
unfolding printk_each printk_each_at
printk_each_at-printk_each p [] m z above room same = (tt, z, refl, (m, refl, same))
printk_each_at-printk_each p (v ∷ vs) m z above room same =
    Ensures-bind (printk_at-printk p v m z above (omega arith) same)
      λ _ t (counted, (m', ran, same')).
        rw ran (printk_each_at-printk_each p vs m' t above (omega (arith, counted)) same')

-- The word of RAM that the value behind a full area and `i` more goes to.
abbrev pub ram_word : ℕ → ℕ
ram_word i = ram_start + 4 * i

-- Behind the full area the values `vs` have gone to the first words of RAM, and are counted.
record Spilled (p : ℕ) (vs : List ℕ) (m : Memory) : Type 0 where
  counter : load32 m p ≡ capacity + length vs
  words : (i : ℕ) → i < length vs → load32 m (ram_word i) ≡ get_or vs i 0

module _ (k : ℕ) (vs : List ℕ) (v : ℕ) (m : Memory) (inside : ram_word k + 4 ≤ ram_start + ram_size)
    (h : Spilled (ram_word k) vs m) (small : v < 2 ^ 32) where
  abbrev next_memory : Memory
  next_memory = stored_at (ram_word k) (load32 m (ram_word k)) v m

  printk_at-next_memory : length vs ≤ k → printk_at (ram_word k) v m ≡ done tt next_memory
  printk_at-next_memory short =
      printk_at-stored_at (ram_word k) v m (omega (arith, h.counter))
      ∙ ap (λ (w : ℕ). returned (stored_at (ram_word k) (load32 m (ram_word k)) w m)) (omega arith)

  -- A word before the counter keeps its value, or has the new one.
  next_memory-words :
      (i : ℕ)
      → i < length (vs ++ v ∷ [])
      → length vs ≤ k
      → i < k
      → load32 next_memory (ram_word i) ≡ get_or (vs ++ v ∷ []) i 0
  next_memory-words i below short before =
      let count = load32 m (ram_word k) in
      let first = store32 m (ram_word k) (count + 1) in
      let counted = store32 first output_addr (count + 1) in
      ground (
        arith,
        h.counter,
        h.words i,
        length-append vs (v ∷ []),
        get_or-append_left vs v i,
        get_or-append_last vs v,
        load32-store32_ne counted (output_addr + 4 + 4 * count) (ram_word i) v,
        load32-store32_ne first output_addr (ram_word i) (count + 1),
        load32-store32_ne m (ram_word k) (ram_word i) (count + 1),
        load32-store32_self counted (output_addr + 4 + 4 * count) v,
      )

  next_memory-Spilled : length vs < k → Spilled (ram_word k) (vs ++ v ∷ []) next_memory
  next_memory-Spilled short = record {
    counter =
        counter-stored_at (ram_word k) (load32 m (ram_word k)) v m (omega arith)
          (omega (arith, h.counter)) (omega (arith, h.counter))
        ∙ omega (arith, h.counter, length-append vs (v ∷ []));
    words = λ i below.
        next_memory-words i below (omega arith) (omega (arith, length-append vs (v ∷ [])));
  }

  -- The value that goes to the place of the counter.
  next_memory-counter : length vs ≡ k → load32 next_memory (ram_word k) ≡ v
  next_memory-counter full =
      let count = load32 m (ram_word k) in
      let counted = store32 (store32 m (ram_word k) (count + 1)) output_addr (count + 1) in
      ground (arith, h.counter, load32-store32_self counted (output_addr + 4 + 4 * count) v)

printk_at-Spilled :
    (k : ℕ) (vs : List ℕ) (v : ℕ) (m : Memory)
    → ram_word k + 4 ≤ ram_start + ram_size
    → Spilled (ram_word k) vs m
    → v < 2 ^ 32
    → length vs < k
    → Ensures (printk_at (ram_word k) v m) (λ _ t. Spilled (ram_word k) (vs ++ v ∷ []) t)
printk_at-Spilled k vs v m inside h small short = (
  tt,
  next_memory k vs v m inside h small,
  printk_at-next_memory k vs v m inside h small (omega arith),
  next_memory-Spilled k vs v m inside h small short,
)

printk_each_at-Spilled :
    (k : ℕ) (ws vs : List ℕ) (v : ℕ) (m : Memory)
    → ram_word k + 4 ≤ ram_start + ram_size
    → Spilled (ram_word k) vs m
    → All (λ w. w < 2 ^ 32) ws
    → v < 2 ^ 32
    → length vs + length ws ≡ k
    → Ensures (printk_each_at (ram_word k) (ws ++ v ∷ []) m) (λ _ t.
      ((j : ℕ) → j < k → load32 t (ram_word j) ≡ get_or (vs ++ ws) j 0)
      × (load32 t (ram_word k) ≡ v))
unfolding printk_each_at
printk_each_at-Spilled k [] vs v m inside h small last full =
    let ran = printk_at-next_memory k vs v m inside h last (omega arith) in
    rw ran (
      tt,
      next_memory k vs v m inside h last,
      refl,
      (
        λ j below.
            next_memory-words k vs v m inside h last j (omega (arith, length-append vs (v ∷ [])))
              (omega arith) below
            ∙ get_or-append_left vs v j (omega arith)
            ∙ ap (λ us. get_or us j 0) (sym (append-nil vs)),
        next_memory-counter k vs v m inside h last (omega arith),
      ),
    )
printk_each_at-Spilled k (w ∷ ws) vs v m inside h small last full =
    Ensures-bind (printk_at-Spilled k vs w m inside h small.0 (omega arith)) λ _ t h'.
      Ensures-mono
        (printk_each_at-Spilled k ws (vs ++ w ∷ []) v t inside h' small.1 last
          (omega (arith, length-append vs (w ∷ []))))
        λ _ u (words, counter). (
          λ j below. words j below ∙ ap (λ us. get_or us j 0) (append_assoc vs (w ∷ []) ws),
          counter,
        )

-- With `outputCount` in the word of RAM behind `k` others, and the output area full, a run of `printk`
-- calls with `k` 32-bit values and one more returns: the `k` values lie in the first words of RAM, one
-- for each, and the last has overwritten `outputCount`.
pub printk_each_at-spills :
    (k : ℕ) (ws : List ℕ) (v : ℕ) (m : Memory)
    → ram_word k + 4 ≤ ram_start + ram_size
    → load32 m (ram_word k) ≡ capacity
    → length ws ≡ k
    → All (λ w. w < 2 ^ 32) ws
    → v < 2 ^ 32
    → Ensures (printk_each_at (ram_word k) (ws ++ v ∷ []) m) (λ _ t.
      ((j : ℕ) → j < k → load32 t (ram_word j) ≡ get_or ws j 0) × (load32 t (ram_word k) ≡ v))
printk_each_at-spills k ws v m inside full long small last =
    let none_yet : Spilled (ram_word k) [] m = record {
      counter = full ∙ omega arith;
      words = λ i below. absurd (omega arith);
    } in
    printk_each_at-Spilled k ws [] v m inside none_yet small last (omega (arith, long))
