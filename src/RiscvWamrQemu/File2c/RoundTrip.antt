-- ===== src/RiscvWamrQemu/File2c/RoundTrip.antt =====
-- The bytes that a reader of C finds in the array are those of the file.
use wasrisc.Base.{
  ℕ, ◌+◌, ◌-◌, ◌*◌, ◌/◌, ◌%◌, ◌<◌, ◌≡◌, ◌≢◌, refl, ap, ◌∙◌, arith, List, [], ◌∷◌, ◌++◌,
  append_assoc, Bool, true, false, Option, none, some, codes, All, leb, ◌==◌, ◌&&◌, ◌^◌, length,
  if◌then◌else◌,
}
use wasrisc.RiscvWamrQemu.File2c.{hex_digit, hex_byte, body, source, convert, main, int_text}
use wasrisc.Machine.Word.{u32}

-- Where a reader of an initializer stands: before a number, perhaps with the choice of the closing
-- brace; behind a number; in one of the form `0xHL`; or behind what is no initializer of such numbers.
pub data Place : Type 0 where
  awaits : Bool → Place
  behind after_zero at_high wrong : Place
  at_low : ℕ → Place

unfoldable pub is_blank : ℕ → Bool
is_blank c = if c == b' ' then true else c == b'\n'

unfoldable pub is_hex : ℕ → Bool
is_hex c = if leb c b'9' then leb b'0' c else leb b'A' c && leb c b'F'

abbrev pub digit_value : ℕ → ℕ
digit_value c = if leb c b'9' then c - b'0' else c - b'A' + 10

-- Blanks may stand around a number, a comma has to stand between two.
unfoldable pub next : Place → ℕ → Place
next (awaits any) c = if is_blank c then awaits any else if c == b'0' then after_zero else wrong
next behind c = if is_blank c then behind else if c == b',' then awaits false else wrong
next after_zero c = if c == b'x' then at_high else wrong
next at_high c = if is_hex c then at_low (digit_value c) else wrong
next (at_low h) c = if is_hex c then behind else wrong
next wrong c = wrong

unfoldable pub found : Place → ℕ → List ℕ
found (at_low h) c = (h * 16 + digit_value c) ∷ []
found _ c = []

unfoldable pub closes : Place → ℕ → Bool
closes (awaits any) c = any && (c == b'}')
closes behind c = c == b'}'
closes _ c = false

unfoldable pub before : List ℕ → Option (List ℕ) → Option (List ℕ)
before vs none = none
before vs (some ws) = some (vs ++ ws)

-- The numbers up to the closing brace, if there is one and only an initializer before it.
unfoldable pub numbers : Place → List ℕ → Option (List ℕ)
numbers p [] = none
numbers p (c ∷ s) =
    let rest = numbers (next p c) s in if closes p c then some [] else before (found p c) rest

-- The numbers of the first initializer in a C source.
unfoldable pub array_of : List ℕ → Option (List ℕ)
array_of [] = none
array_of (c ∷ s) = let rest = array_of s in if c == b'{' then numbers (awaits true) s else rest

digit_value-hex_digit : (d : ℕ) → d < 16 → digit_value (hex_digit d) ≡ d
unfolding hex_digit
digit_value-hex_digit d h = ground arith

hex_digit-is_hex : (d : ℕ) → d < 16 → is_hex (hex_digit d) ≡ true
unfolding hex_digit is_hex
hex_digit-is_hex d h = ground arith

before-none : (r : Option (List ℕ)) → before [] r ≡ r
unfolding before
before-none none = refl
before-none (some ws) = refl

numbers-digits :
    (h l : ℕ) (t : List ℕ)
    → h < 16
    → l < 16
    → numbers at_high (hex_digit h ∷ hex_digit l ∷ t)
      ≡ before ((h * 16 + l) ∷ []) (numbers behind t)
unfolding numbers next found closes
numbers-digits h l t high low =
    rw
      (
        hex_digit-is_hex h high,
        hex_digit-is_hex l low,
        digit_value-hex_digit h high,
        digit_value-hex_digit l low,
      )
      (before-none _)

numbers-hex_byte :
    (any : Bool) (c : ℕ) (t : List ℕ)
    → c < 256
    → numbers (awaits any) (hex_byte c ++ t) ≡ before (c ∷ []) (numbers behind t)
unfolding hex_byte numbers next found closes is_blank
numbers-hex_byte true c t h =
    before-none _
    ∙ before-none _
    ∙ numbers-digits (c / 16) (c % 16) t (omega arith) (omega arith)
    ∙ ap (λ v. before (v ∷ []) (numbers behind t)) (omega arith)
numbers-hex_byte false c t h =
    before-none _
    ∙ before-none _
    ∙ numbers-digits (c / 16) (c % 16) t (omega arith) (omega arith)
    ∙ ap (λ v. before (v ∷ []) (numbers behind t)) (omega arith)

-- A comma and blanks lead to the next number.
numbers-comma :
    (wrap : Bool) (t : List ℕ)
    → numbers behind (codes ", " ++ ((if wrap then codes "\n    " else []) ++ t))
      ≡ numbers (awaits false) t
unfolding numbers next found closes is_blank before
numbers-comma true t = simp (before-none)
numbers-comma false t = simp (before-none)

-- Blanks and the brace lead to the end.
numbers-end :
    (wrap : Bool) (t : List ℕ)
    → numbers behind ((if wrap then codes "\n    " else []) ++ (codes "\n};\n" ++ t)) ≡ some []
unfolding numbers next found closes is_blank before
numbers-end true t = refl
numbers-end false t = refl

regroup :
    (xs ys zs rest t : List ℕ)
    → (xs ++ (ys ++ (zs ++ rest))) ++ t ≡ xs ++ (ys ++ (zs ++ (rest ++ t)))
regroup xs ys zs rest t =
    append_assoc xs (ys ++ (zs ++ rest)) t
    ∙ ap (λ r. xs ++ r)
        (append_assoc ys (zs ++ rest) t ∙ ap (λ r. ys ++ r) (append_assoc zs rest t))

-- The bytes from the `n`-th on, of `filesize` in all.
numbers-body :
    (any : Bool) (filesize n c : ℕ) (cs t : List ℕ)
    → filesize ≡ n + length (c ∷ cs)
    → filesize < 2 ^ 32
    → All (λ c. c < 256) (c ∷ cs)
    → numbers (awaits any) (body filesize n (c ∷ cs) ++ (codes "\n};\n" ++ t)) ≡ some (c ∷ cs)
unfolding body before
numbers-body any filesize n c [] t size fits h =
    let last = u32 (n + 1) == filesize in
    let is_last : last ≡ true = ground (arith, size) in
    let wrap = if (n + 1) % 20 == 0 then codes "\n    " else [] in
    let ended : numbers behind
          ((if last then [] else codes ", ") ++ (wrap ++ (codes "\n};\n" ++ t)))
        ≡ some [] =
      rw is_last (numbers-end ((n + 1) % 20 == 0) t) in
    ap (numbers (awaits any)) (regroup (hex_byte c) _ _ [] _)
    ∙ numbers-hex_byte any c _ h.0
    ∙ ap (before (c ∷ [])) ended
numbers-body any filesize n c (d ∷ cs) t size fits h =
    let last = u32 (n + 1) == filesize in
    let is_last : last ≡ false = ground (arith, size) in
    let wrap = if (n + 1) % 20 == 0 then codes "\n    " else [] in
    let rest = body filesize (n + 1) (d ∷ cs) in
    let text = rest ++ (codes "\n};\n" ++ t) in
    let parted : numbers behind ((if last then [] else codes ", ") ++ (wrap ++ text))
        ≡ numbers (awaits false) text =
      rw is_last (numbers-comma ((n + 1) % 20 == 0) text) in
    ap (numbers (awaits any)) (regroup (hex_byte c) _ _ rest _)
    ∙ numbers-hex_byte any c _ h.0
    ∙ ap (before (c ∷ []))
        (parted ∙ numbers-body false filesize (n + 1) d cs t (omega (arith, size)) fits h.1)

array_of-append : (xs t : List ℕ) → All (λ c. c ≢ b'{') xs → array_of (xs ++ t) ≡ array_of t
unfolding array_of
array_of-append [] t h = refl
array_of-append (c ∷ xs) t h =
    let other : (c == b'{') ≡ false = ground arith in rw other (array_of-append xs t h.1)

start_of :
    (any : Bool) (t : List ℕ) → numbers (awaits any) (codes "\n    " ++ t) ≡ numbers (awaits any) t
unfolding numbers next found closes is_blank
start_of true t = simp (before-none)
start_of false t = simp (before-none)

-- The text behind the initializer of a file of `size` bytes.
abbrev after_array : List ℕ → ℕ → List ℕ
after_array var_name size =
    codes "int " ++ (var_name ++ (codes "_length=" ++ (int_text (u32 size) ++ codes ";\n")))

numbers-file :
    (bytes t : List ℕ)
    → length bytes < 2 ^ 31
    → All (λ c. c < 256) bytes
    → numbers (awaits true) (body (u32 (length bytes)) 0 bytes ++ (codes "\n};\n" ++ t))
      ≡ some bytes
unfolding body
numbers-file [] t short small = unfold numbers next closes found is_blank before in refl
numbers-file (c ∷ cs) t short small =
    numbers-body true (u32 (length (c ∷ cs))) 0 c cs t (omega arith) (omega arith) small

source-array_of :
    (var_name bytes : List ℕ)
    → length bytes < 2 ^ 31
    → All (λ c. c < 256) bytes
    → All (λ c. c ≢ b'{') var_name
    → array_of (source var_name bytes) ≡ some bytes
unfolding source array_of
source-array_of var_name bytes short small plain =
    let t = after_array var_name (length bytes) in
    let initializer = body (u32 (length bytes)) 0 bytes ++ (codes "\n};\n" ++ t) in
    array_of-append var_name (codes "[] = {\n    " ++ initializer) plain
    ∙ start_of true initializer
    ∙ numbers-file bytes t short small

-- Given a file of fewer than 2^31 bytes that opens and a name without a brace, the program succeeds,
-- and the source that it prints has an initializer of hexadecimal numbers with one comma between two
-- of them and none behind the last, which are the bytes of the file, in order and no others.
pub main-array_of :
    (files : List ℕ → Option (List ℕ)) (me fn var_name bytes : List ℕ)
    → files fn ≡ some bytes
    → length bytes < 2 ^ 31
    → All (λ c. c < 256) bytes
    → All (λ c. c ≢ b'{') var_name
    → ((main files (me ∷ fn ∷ var_name ∷ [])).status ≡ 0)
      × (array_of (main files (me ∷ fn ∷ var_name ∷ [])).stdout ≡ some bytes)
unfolding main convert
main-array_of files me fn var_name bytes opens short small plain = (
  ap (λ o. (convert var_name o).status) opens,
  ap (λ o. array_of (convert var_name o).stdout) opens
      ∙ source-array_of var_name bytes short small plain,
)
