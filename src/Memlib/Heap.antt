-- ===== src/Memlib/Heap.antt =====
-- The buffers that w2c2 asks for in the course of a run, as a machine whose steps are the calls of
-- `calloc` and `realloc` that succeed.
use mathlib.Core.Path.{subst}
use wasrisc.Base.{ℕ, ◌+◌, ◌*◌, ◌^◌, ◌≤◌, ◌<◌, ◌≡◌, ◌≢◌, ◌⊎◌, refl, sym, ap, ◌∙◌, arith, inl, inr}
use wasrisc.Machine.{Run, done, Ensures}
use wasrisc.Zkvm.{Zkvm, heap_start}
use wasrisc.Memlib.{wasm_function_table_buf_size, null, calloc, realloc}
use wasrisc.Memlib.Layout.{heap_end, calloc_struct, calloc_table, calloc_data, realloc_lem}

pub record Region : Type 0 where
  pub start : ℕ
  pub size : ℕ

abbrev pub region : ℕ → ℕ → Region
region p n = record { start = p; size = n }

-- A buffer that was not asked for yet is empty.
pub record Buffers : Type 0 where
  pub structure : Region
  pub content : Region
  pub table : Region

abbrev pub nothing : Buffers
nothing = record { structure = region 0 0; content = region 0 0; table = region 0 0 }

abbrev pub InHeap : Region → Type 0
InHeap r = (r.size ≡ 0) ⊎ ((heap_start ≤ r.start) × (r.start + r.size ≤ heap_end))

abbrev pub Apart : Region → Region → Type 0
Apart r q =
    (r.start + r.size ≤ q.start) ⊎ ((q.start + q.size ≤ r.start) ⊎ ((r.size ≡ 0) ⊎ (q.size ≡ 0)))

module _ (struct_size : ℕ) where
  -- A WebAssembly memory has 2 ^ 32 bytes at most. The table is one that the assumed size covers.
  pub data Step : Buffers → Buffers → Type 0 where
    alloc_struct :
        (b : Buffers) (z t : Zkvm) (p : ℕ)
        → calloc struct_size 1 struct_size z ≡ done p t
        → Step b (record b { structure = region p struct_size })
    alloc_content :
        (b : Buffers) (z t : Zkvm) (n p : ℕ)
        → n ≤ 2 ^ 32
        → calloc struct_size n 1 z ≡ done p t
        → p ≢ null
        → Step b (record b { content = region p n })
    alloc_table :
        (b : Buffers) (z t : Zkvm) (nmemb size p : ℕ)
        → size ≢ struct_size
        → size ≢ 1
        → nmemb * size < wasm_function_table_buf_size
        → calloc struct_size nmemb size z ≡ done p t
        → Step b (record b { table = region p (nmemb * size) })
    grow :
        (b : Buffers) (z t : Zkvm) (n p : ℕ)
        → n ≤ 2 ^ 32
        → realloc struct_size b.content.start n z ≡ done p t
        → p ≢ null
        → Step b (record b { content = region p n })

  pub data Reach : Buffers → Type 0 where
    here : Reach nothing
    next : {b c : Buffers} → Reach b → Step b c → Reach c

  -- Where each buffer lies once it was asked for.
  pub record IsLaid (b : Buffers) : Type 0 where
    pub structure :
        (b.structure.size ≡ 0)
        ⊎ ((b.structure.start ≡ heap_start) × (b.structure.size ≡ struct_size))
    pub content :
        ((b.content.start ≡ 0) × (b.content.size ≡ 0))
        ⊎ ((b.content.start ≡ heap_start + struct_size)
            × (heap_start + struct_size + wasm_function_table_buf_size + b.content.size ≤ heap_end))
    pub table :
        (b.table.size ≡ 0)
        ⊎ ((b.table.start + b.table.size + 1 ≡ heap_end)
            × (b.table.size < wasm_function_table_buf_size))

value : {S A : Type 0} → A → Run S A → A
value d (done a s) = a
value d _ = d

-- A run that has returned returned what it ensures.
returned :
    {S A : Type 0} {P : A → Type 0} {r : Run S A} {a : A} {s : S}
    → r ≡ done a s
    → Ensures r (λ b _. P b)
    → P a
unfolding value
returned {P} {a} e (b, t, e', p) = subst P (ap (value b) (sym e' ∙ e)) p

module _ (struct_size : ℕ) (small : struct_size ≤ 4096) (ne : struct_size ≢ 1) where
  Step-IsLaid : {b c : Buffers} → Step struct_size b c → IsLaid struct_size b → IsLaid struct_size c
  Step-IsLaid (alloc_struct b z t p e) h =
      let at : p ≡ heap_start = returned e (calloc_struct struct_size small z) in
      record { structure = inr (at, refl); content = h.content; table = h.table }
  Step-IsLaid (alloc_content b z t n p max e ok) h =
      let at = returned e (calloc_data struct_size small n z ne (omega arith)) in
      record { structure = h.structure; content = ground arith; table = h.table }
  Step-IsLaid (alloc_table b z t nmemb size p ne_struct ne_data max e) h =
      let at =
        returned e (calloc_table struct_size small nmemb size z ne_struct ne_data (omega arith)) in
      record { structure = h.structure; content = h.content; table = inr (at, max) }
  Step-IsLaid (grow b z t n p max e ok) h =
      let at = returned e (realloc_lem struct_size small b.content.start n z (omega arith)) in
      record { structure = h.structure; content = ground arith; table = h.table }

  Reach-IsLaid : {b : Buffers} → Reach struct_size b → IsLaid struct_size b
  Reach-IsLaid here = record { structure = inl refl; content = inl (refl, refl); table = inl refl }
  Reach-IsLaid (next r st) = Step-IsLaid st (Reach-IsLaid r)

  -- For a structure of at most 4096 bytes and not of one: in every state that a run reaches, the
  -- three buffers lie in the heap and none overlaps another. A run's memories have at most 2 ^ 32
  -- bytes, and its tables are below the assumed size.
  pub Reach-Apart :
      {b : Buffers}
      → Reach struct_size b
      → (InHeap b.structure × InHeap b.content × InHeap b.table)
        × (Apart b.structure b.content × Apart b.content b.table × Apart b.structure b.table)
  Reach-Apart r =
      let h = Reach-IsLaid r in
      ((ground arith, ground arith, ground arith), (ground arith, ground arith, ground arith))
