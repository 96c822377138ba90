-- ===== src/RiscvWamrQemu/Sbrk.antt =====
-- `_sbrk`: the heap that grows towards the linker's `_stack_top`.
use wasrisc.Base.{
  ℕ, ◌+◌, ◌-◌, ◌^◌, ◌≤◌, ◌<◌, ◌≡◌, ◌⊎◌, refl, ap, arith, List, [], ◌∷◌, ltb, Bool-cases, inl, inr,
  le→ltb, All,
}
use wasrisc.Machine.{done, Cmd, pure, ◌>>=◌}
use wasrisc.RiscvWamrQemu.{Board, Posix, no_pointer, moved, sbrk}

-- The ends of the regions from `p` on, of the given sizes, that lie side by side.
unfoldable pub side_by_side : ℕ → List ℕ → List ℕ
side_by_side p [] = []
side_by_side p (n ∷ ns) = p ∷ side_by_side (p + n) ns

unfoldable pub sum : List ℕ → ℕ
sum [] = 0
sum (n ∷ ns) = n + sum ns

module _ (posix : Posix) (stack_top : ℕ) where
  -- Growing the heap gives the old end and moves it, if the new one does not pass the limit, and
  -- otherwise fails with ENOMEM and leaves the heap as it is.
  pub sbrk_lem :
      (incr : ℕ) (b : Board)
      → incr < 2 ^ 31
      → b.heap_end + incr < 2 ^ 64
      → ((b.heap_end + incr ≤ stack_top)
          × (sbrk posix stack_top incr b
              ≡ done b.heap_end (record b { heap_end = b.heap_end + incr })))
        ⊎ ((stack_top < b.heap_end + incr)
            × (sbrk posix stack_top incr b ≡ done no_pointer (record b { errno = posix.enomem })))
  unfolding sbrk
  sbrk_lem incr b small fits =
      let up : moved b.heap_end incr ≡ b.heap_end + incr = ground arith in
      elim (Bool-cases (ltb stack_top (b.heap_end + incr))) [
        | inl past ↦ inr (ground arith, rw (up, past) refl)
        | inr within ↦ inl (ground arith, rw (up, within) refl)
      ]

  -- Calls of `_sbrk`, one after another, and the pointers that they return.
  unfoldable pub sbrk_each : List ℕ → Cmd Board (List ℕ)
  sbrk_each [] = pure []
  sbrk_each (incr ∷ incrs) = do p ← sbrk posix stack_top incr; ps ← sbrk_each incrs; pure (p ∷ ps)

  -- Calls with sizes below 2 ^ 31 that together fit below the limit all succeed, and return regions that lie
  -- side by side from the old end of the heap to the new one.
  pub sbrk_each-side_by_side :
      (incrs : List ℕ) (b : Board)
      → All (λ n. n < 2 ^ 31) incrs
      → b.heap_end + sum incrs ≤ stack_top
      → stack_top < 2 ^ 64
      → sbrk_each incrs b
        ≡ done (side_by_side b.heap_end incrs) (record b { heap_end = b.heap_end + sum incrs })
  unfolding sbrk_each side_by_side sum
  sbrk_each-side_by_side [] b small fits top =
      ap (λ e. done [] (record b { heap_end = e })) (omega arith)
  sbrk_each-side_by_side (n ∷ ns) b small fits top = elim (sbrk_lem n b small.0 (omega arith)) [
    | inl (_, grown) ↦
        rw
          (
            grown,
            sbrk_each-side_by_side ns (record b { heap_end = b.heap_end + n }) small.1 (omega arith)
                top,
          )
          (ap
            (λ e. done (b.heap_end ∷ side_by_side (b.heap_end + n) ns) (record b { heap_end = e }))
            (omega arith))
    | inr (past, _) ↦ absurd (omega arith)
  ]

  -- Taking a positive size that fits below the limit and giving it back restores the board, and the
  -- second call returns the end that the first one made.
  pub sbrk-sbrk :
      (incr : ℕ) (b : Board)
      → 0 < incr
      → incr < 2 ^ 31
      → b.heap_end + incr ≤ stack_top
      → stack_top < 2 ^ 64
      → (sbrk posix stack_top incr >>= λ _. sbrk posix stack_top (2 ^ 32 - incr)) b
        ≡ done (b.heap_end + incr) b
  unfolding sbrk
  sbrk-sbrk incr b some small fits top =
      let up : moved b.heap_end incr ≡ b.heap_end + incr = ground arith in
      let down : moved (b.heap_end + incr) (2 ^ 32 - incr) ≡ b.heap_end = ground arith in
      rw
        (
          up,
          le→ltb stack_top (b.heap_end + incr) fits,
          down,
          le→ltb stack_top b.heap_end (omega arith),
        )
        refl
