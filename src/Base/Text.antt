-- ===== src/Base/Text.antt =====
-- The bytes of a text literal of the source, all of whose literals are ASCII, and texts of whole
-- lines.
use Prim.Native.Nat.{ℕ}
use Prim.Native.Char.{code}
use Prim.Native.String.{String}
use mathlib.Core.Path.{◌≡◌, refl, ap, ◌∙◌}
use mathlib.Core.List.{List, [], ◌∷◌, ◌++◌}

abbrev pub codes : String → List ℕ
codes String.[] = []
codes (String.◌∷◌ c s) = code c ∷ codes s

-- The last byte of a text behind `c`.
abbrev pub last_byte : ℕ → List ℕ → ℕ
last_byte c [] = c
last_byte c (x ∷ xs) = last_byte x xs

-- A text is empty or ends with a newline.
abbrev pub EndsLine : List ℕ → Type 0
EndsLine text = last_byte 10 text ≡ 10

pub last_byte-append :
    (xs ys : List ℕ) (c : ℕ) → last_byte c (xs ++ ys) ≡ last_byte (last_byte c xs) ys
last_byte-append [] ys c = refl
last_byte-append (x ∷ xs) ys c = last_byte-append xs ys x

pub EndsLine-append : (xs ys : List ℕ) → EndsLine xs → EndsLine ys → EndsLine (xs ++ ys)
EndsLine-append xs ys whole whole' =
    last_byte-append xs ys 10 ∙ ap (λ c. last_byte c ys) whole ∙ whole'

-- A text ends with a newline, and so does what ends with it.
abbrev pub ClosesLine : List ℕ → Type 0
ClosesLine text = (c : ℕ) → last_byte c text ≡ 10

pub ClosesLine-append : (xs ys : List ℕ) → ClosesLine ys → ClosesLine (xs ++ ys)
ClosesLine-append xs ys closes c = last_byte-append xs ys c ∙ closes (last_byte c xs)
