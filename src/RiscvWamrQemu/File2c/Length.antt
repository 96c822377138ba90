-- ===== src/RiscvWamrQemu/File2c/Length.antt =====
-- The length that a reader of C finds declared behind the array is that of the file.
use wasrisc.Base.{
  ℕ, zero, suc, ◌+◌, ◌-◌, ◌*◌, ◌/◌, ◌%◌, ◌^◌, ◌≤◌, ◌<◌, ◌≡◌, ◌≢◌, refl, ap, ◌∙◌, arith, List, [],
  ◌∷◌, ◌++◌, Bool, true, false, Option, some, codes, length, All, leb, ltb, ◌==◌, ◌&&◌,
  if◌then◌else◌, Bool-cases, inl, inr,
}
use wasrisc.RiscvWamrQemu.File2c.{
  hex_digit, hex_byte, decimal, int_text, body, source, convert, main,
}
use wasrisc.Machine.Word.{u32}

-- What follows the first `c`.
unfoldable pub after : ℕ → List ℕ → List ℕ
after c [] = []
after c (x ∷ s) = let rest = after c s in if x == c then s else rest

abbrev pub is_digit : ℕ → Bool
is_digit c = leb b'0' c && leb c b'9'

-- The number that the digits at the start of a text continue.
unfoldable pub digits_value : ℕ → List ℕ → ℕ
digits_value v [] = v
digits_value v (c ∷ s) =
    let rest = digits_value (v * 10 + (c - b'0')) s in if is_digit c then rest else v

-- The number behind the first `=` behind the first closing brace.
unfoldable pub declared_length : List ℕ → ℕ
declared_length s = digits_value 0 (after b'=' (after b'}' s))

module _ (c : ℕ) where
  abbrev pub Without : List ℕ → Type 0
  Without xs = All (λ x. x ≢ c) xs

  after-append : (xs t : List ℕ) → Without xs → after c (xs ++ t) ≡ after c t
  unfolding after
  after-append [] t h = refl
  after-append (x ∷ xs) t h =
      let other : (x == c) ≡ false = ground arith in rw other (after-append xs t h.1)

  append-Without : (xs ys : List ℕ) → Without xs → Without ys → Without (xs ++ ys)
  append-Without [] ys h g = g
  append-Without (x ∷ xs) ys h g = (h.0, append-Without xs ys h.1 g)

hex_digit-ne : (d : ℕ) → d < 16 → hex_digit d ≢ b'}'
unfolding hex_digit
hex_digit-ne d h = ground arith

comma-Without : (last : Bool) → Without b'}' (if last then [] else codes ", ")
comma-Without true = tt
comma-Without false = omega arith

wrap-Without : (wrap : Bool) → Without b'}' (if wrap then codes "\n    " else [])
wrap-Without true = omega arith
wrap-Without false = tt

body-Without :
    (filesize n : ℕ) (bytes : List ℕ)
    → All (λ c. c < 256) bytes
    → Without b'}' (body filesize n bytes)
unfolding body hex_byte
body-Without filesize n [] h = tt
body-Without filesize n (c ∷ cs) h =
    append-Without b'}' (hex_byte c) _
      (
        omega arith,
        (
          omega arith,
          (hex_digit-ne (c / 16) (omega (arith, h.0)), (hex_digit-ne (c % 16) (omega arith), tt)),
        ),
      )
      (append-Without b'}' _ _ (comma-Without (u32 (n + 1) == filesize)) (
        append-Without b'}' _ _ (wrap-Without ((n + 1) % 20 == 0))
          (body-Without filesize (n + 1) cs h.1)))

-- The number that a list of digits continues.
unfoldable value : ℕ → List ℕ → ℕ
value v [] = v
value v (c ∷ s) = value (v * 10 + (c - b'0')) s

abbrev IsDigit : ℕ → Type 0
IsDigit c = (b'0' ≤ c) × (c ≤ b'9')

digits_value-append :
    (v : ℕ) (xs t : List ℕ)
    → All IsDigit xs
    → digits_value v (xs ++ t) ≡ digits_value (value v xs) t
unfolding digits_value value
digits_value-append v [] t h = refl
digits_value-append v (c ∷ xs) t h =
    let digit : is_digit c ≡ true = ground (arith, h.0.0, h.0.1) in
    rw digit (digits_value-append (v * 10 + (c - b'0')) xs t h.1)

value-append : (v : ℕ) (xs : List ℕ) (d : ℕ) → value v (xs ++ d ∷ []) ≡ value v xs * 10 + (d - b'0')
unfolding value
value-append v [] d = refl
value-append v (c ∷ xs) d = value-append (v * 10 + (c - b'0')) xs d

append-IsDigit :
    (xs : List ℕ) (d : ℕ) → All IsDigit xs → d < 10 → All IsDigit (xs ++ (b'0' + d) ∷ [])
append-IsDigit [] d h small = ((omega arith, omega arith), tt)
append-IsDigit (c ∷ xs) d h small = (h.0, append-IsDigit xs d h.1 small)

decimal-IsDigit : (k v : ℕ) → All IsDigit (decimal k v)
unfolding decimal
decimal-IsDigit zero v = tt
decimal-IsDigit (suc k) v = elim (Bool-cases (ltb v 10)) [
  | inl one ↦ rw one (append-IsDigit [] (v % 10) tt (omega arith))
  | inr more ↦
      rw more
        (append-IsDigit (decimal k (v / 10)) (v % 10) (decimal-IsDigit k (v / 10)) (omega arith))
]

-- What `k` digits can show.
abbrev limit : ℕ → ℕ
limit zero = 1
limit (suc k) = 10 * limit k

value-decimal : (k v : ℕ) → v < limit k → value 0 (decimal k v) ≡ v
unfolding decimal value
value-decimal zero v h = omega arith
value-decimal (suc k) v h = elim (Bool-cases (ltb v 10)) [
  | inl one ↦ rw one (ground arith)
  | inr more ↦
      let front = decimal k (v / 10) in
      let ih = value-decimal k (v / 10) (omega arith) in
      rw more (value-append 0 front (b'0' + v % 10) ∙ rw ih (omega arith))
]

digits_value-int_text :
    (n : ℕ) (t : List ℕ) → n < 2 ^ 31 → digits_value 0 (int_text n ++ b';' ∷ t) ≡ n
unfolding int_text digits_value
digits_value-int_text n t small =
    let plain : ltb n (2 ^ 31) ≡ true = ground arith in
    rw (plain, digits_value-append 0 (decimal 10 n) (b';' ∷ t) (decimal-IsDigit 10 n))
      (value-decimal 10 n (omega arith))

source-declared_length :
    (var_name bytes : List ℕ)
    → All (λ c. c < 256) bytes
    → Without b'}' var_name
    → Without b'=' var_name
    → length bytes < 2 ^ 31
    → declared_length (source var_name bytes) ≡ length bytes
unfolding source declared_length after
source-declared_length var_name bytes small plain plain' short =
    let size : u32 (length bytes) ≡ length bytes = omega arith in
    rw size (
      ap (λ s. digits_value 0 (after b'=' s))
        (after-append b'}' var_name _ plain
          ∙ after-append b'}' (body (length bytes) 0 bytes) _ (body-Without _ 0 bytes small))
      ∙ ap (digits_value 0) (after-append b'=' var_name _ plain')
      ∙ digits_value-int_text (length bytes) (codes "\n") short)

-- Given a file of bytes that opens, of a length below 2 ^ 31, and a name without a closing brace and
-- an equals sign, the program succeeds, and the number that its source declares behind the array is
-- the length of the file.
pub main-declared_length :
    (files : List ℕ → Option (List ℕ)) (me fn var_name bytes : List ℕ)
    → files fn ≡ some bytes
    → All (λ c. c < 256) bytes
    → Without b'}' var_name
    → Without b'=' var_name
    → length bytes < 2 ^ 31
    → ((main files (me ∷ fn ∷ var_name ∷ [])).status ≡ 0)
      × (declared_length (main files (me ∷ fn ∷ var_name ∷ [])).stdout ≡ length bytes)
unfolding main convert
main-declared_length files me fn var_name bytes opens small plain plain' short = (
  ap (λ o. (convert var_name o).status) opens,
  ap (λ o. declared_length (convert var_name o).stdout) opens
      ∙ source-declared_length var_name bytes small plain plain' short,
)
