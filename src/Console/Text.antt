-- ===== src/Console/Text.antt =====
-- What `strlen` measures: the bytes before the terminator, or the first hundred of them.
use mathlib.Core.Path.{ap₂}
use wasrisc.Base.{
  ◌<◌, ◌++◌, All, take-eq_self, false, ℕ, zero, suc, ◌+◌, ◌≤◌, min, ◌≡◌, refl, ap, List, [], ◌∷◌,
  arith, ◌==◌, if◌then◌else◌, length, take, drop, map, ◌∙◌, length-map, length-take,
}
use native.Mathlib.Numerals.{add-one}
use wasrisc.Console.{strlen_loop, strlen, strlen_max, char_at}
use wasrisc.Machine.Word.{u8}

-- The bytes of a string before its first NUL.
unfoldable pub before_nul : List ℕ → List ℕ
before_nul [] = []
before_nul (c ∷ s) = if c == 0 then [] else c ∷ before_nul s

-- What the console shows of a string.
unfoldable pub shown : List ℕ → List ℕ
unfolding before_nul
shown s = map u8 (take strlen_max (before_nul s))

-- The bytes that `k` rounds of the printing loop write from index `i` on.
unfoldable pub window : ℕ → ℕ → List ℕ → List ℕ
window zero i s = []
window (suc k) i s = u8 (char_at s i) ∷ window k (i + 1) s

-- One character on.
before_nul-drop :
    (i : ℕ) (s : List ℕ)
    → before_nul (drop i s)
      ≡ (if char_at s i == 0 then [] else char_at s i ∷ before_nul (drop (suc i) s))
unfolding before_nul
before_nul-drop zero [] = refl
before_nul-drop zero (c ∷ s) = refl
before_nul-drop (suc i) [] = refl
before_nul-drop (suc i) (c ∷ s) = before_nul-drop i s

strlen_loop-min :
    (k i : ℕ) (s : List ℕ)
    → i + k ≡ strlen_max
    → strlen_loop k i s ≡ min (i + length (before_nul (drop i s))) strlen_max
unfolding strlen_loop
strlen_loop-min zero i s h = omega arith
strlen_loop-min (suc k) i s h =
    ground (arith, before_nul-drop i s, strlen_loop-min k (i + 1) s, add-one i)

-- `strlen` returns the number of bytes before the terminator, and never more than `strlen_max`.
pub strlen-min : (s : List ℕ) → strlen s ≡ min (length (before_nul s)) strlen_max
unfolding strlen
strlen-min s = omega (arith, strlen_loop-min strlen_max 0 s refl)

window-take :
    (k i : ℕ) (s : List ℕ)
    → k ≤ length (before_nul (drop i s))
    → window k i s ≡ map u8 (take k (before_nul (drop i s)))
unfolding window
window-take zero i s h = refl
window-take (suc k) i s h = ground (arith, before_nul-drop i s, window-take k (i + 1) s, add-one i)

take-min : (m n : ℕ) (s : List ℕ) → m ≡ min (length s) n → take m s ≡ take n s
take-min zero zero s e = refl
take-min zero (suc n) [] e = refl
take-min zero (suc n) (c ∷ s) e = absurd (omega arith)
take-min (suc m) zero s e = absurd (omega arith)
take-min (suc m) (suc n) [] e = absurd (omega arith)
take-min (suc m) (suc n) (c ∷ s) e = ap (λ t. c ∷ t) (take-min m n s (omega arith))

pub window-strlen : (s : List ℕ) → window (strlen s) 0 s ≡ shown s
unfolding shown
window-strlen s = rw (strlen-min s) (
    window-take (min (length (before_nul s)) strlen_max) 0 s (omega arith)
    ∙ ap (map u8)
        (take-min (min (length (before_nul s)) strlen_max) strlen_max (before_nul s) refl))

pub length-shown : (s : List ℕ) → length (shown s) ≡ strlen s
unfolding shown
length-shown s = omega (
  arith,
  strlen-min s,
  length-map (take strlen_max (before_nul s)) u8,
  length-take strlen_max (before_nul s),
)

-- Bytes that the console shows as they are.
abbrev pub Plain : List ℕ → Type 0
Plain s = All (λ c. (0 < c) × (c < 256)) s

pub before_nul-Plain : (s rest : List ℕ) → Plain s → before_nul (s ++ 0 ∷ rest) ≡ s
unfolding before_nul
before_nul-Plain [] rest h = refl
before_nul-Plain (c ∷ s) rest h =
    let other : (c == 0) ≡ false = ground arith in
    rw other (ap (λ t. c ∷ t) (before_nul-Plain s rest h.1))

map-u8-Plain : (s : List ℕ) → Plain s → map u8 s ≡ s
map-u8-Plain [] h = refl
map-u8-Plain (c ∷ s) h = ap₂ ◌∷◌ (omega arith) (map-u8-Plain s h.1)

pub shown-Plain : (s rest : List ℕ) → Plain s → length s ≤ strlen_max → shown (s ++ 0 ∷ rest) ≡ s
unfolding shown
shown-Plain s rest h fits =
    rw (before_nul-Plain s rest h, take-eq_self strlen_max s fits) (map-u8-Plain s h)
