-- ===== src/RiscvWamrQemu/Waiting.antt =====
-- Waiting for the line status.
use wasrisc.Base.{
  ℕ, suc, ◌≤◌, ◌≡◌, refl, arith, List, [], ◌∷◌, bit_and, ◌==◌, Bool-cases, inl, inr, if◌then◌else◌,
}
use wasrisc.Machine.{done}
use wasrisc.RiscvWamrQemu.{Board, await, wait}

-- How many of the reads to come show the bit.
unfoldable pub shows : ℕ → List ℕ → ℕ
shows bit [] = 0
shows bit (status ∷ rest) = if bit_and status bit == 0 then shows bit rest else suc (shows bit rest)

await-shows :
    (lsr : List ℕ) (bit n : ℕ) (b : Board)
    → suc n ≤ shows bit lsr
    → (rest : List ℕ) × (await lsr bit b ≡ done tt (record b { lsr = rest })) × (n ≤ shows bit rest)
unfolding await shows
await-shows [] bit n b h = absurd (omega arith)
await-shows (status ∷ rest) bit n b h = elim (Bool-cases (bit_and status bit == 0)) [
  | inl busy ↦ rw busy (await-shows rest bit n b (rw busy at h))
  | inr free ↦
      rw free (rest, refl, let left : suc n ≤ suc (shows bit rest) = rw free at h in omega arith)
]

-- A wait ends when some read to come shows the bit, and uses up one such read.
pub wait-shows :
    (bit n : ℕ) (b : Board)
    → suc n ≤ shows bit b.lsr
    → (rest : List ℕ) × (wait bit b ≡ done tt (record b { lsr = rest })) × (n ≤ shows bit rest)
unfolding wait
wait-shows bit n b h = await-shows b.lsr bit n b h
