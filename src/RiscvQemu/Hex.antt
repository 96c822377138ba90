-- ===== src/RiscvQemu/Hex.antt =====
-- What `printk` writes, and that it can be read back.
use wasrisc.Base.{
  sym, append_assoc, ap, ◌∙◌, ◌==◌, ◌≤◌, Bool, true, false, not, ◌&&◌, ltb, passes_below,
  passes_below_lem, All, length, ℕ, ◌+◌, ◌-◌, ◌*◌, ◌/◌, ◌%◌, ◌^◌, ◌<◌, ◌≡◌, refl, arith, List, [],
  ◌∷◌, ◌++◌, codes, bit_and, get_or, leb, if◌then◌else◌, map,
}
use wasrisc.Console.Output.{puts_lem}
use wasrisc.Console.Text.{shown, Plain, shown-Plain, before_nul, before_nul-Plain}
use wasrisc.Machine.{done, Ensures}
use wasrisc.Machine.Bits.{bit_and_fifteen}
use wasrisc.RiscvQemu.Imports.{hex, hex_line, guest_printk}
use wasrisc.RiscvQemu.{Device}
use wasrisc.RiscvQemu.Polling.{ready, qemu_uart, puts}

-- The character of a digit.
abbrev pub hex_char : ℕ → ℕ
hex_char d = get_or hex d 0

-- The digits of a 32-bit number, the highest first.
unfoldable pub nibbles : ℕ → List ℕ
nibbles v =
    (v / 268435456 % 16)
    ∷ (v / 16777216 % 16)
    ∷ (v / 1048576 % 16)
    ∷ (v / 65536 % 16)
    ∷ (v / 4096 % 16)
    ∷ (v / 256 % 16)
    ∷ (v / 16 % 16)
    ∷ (v % 16)
    ∷ []

digit_at : (v w : ℕ) → v ≡ w → hex_char (bit_and v 15) ≡ hex_char (w % 16)
digit_at v w e = ap hex_char (bit_and_fifteen v ∙ ap (λ (t : ℕ). t % 16) e)

hex_line-nibbles : (v : ℕ) → hex_line v ≡ codes "0x" ++ (map hex_char (nibbles v) ++ (10 ∷ 0 ∷ []))
unfolding hex_line nibbles
hex_line-nibbles v = cc (
  digit_at (v / 16 / 16 / 16 / 16 / 16 / 16 / 16) (v / 268435456) (omega arith),
  digit_at (v / 16 / 16 / 16 / 16 / 16 / 16) (v / 16777216) (omega arith),
  digit_at (v / 16 / 16 / 16 / 16 / 16) (v / 1048576) (omega arith),
  digit_at (v / 16 / 16 / 16 / 16) (v / 65536) (omega arith),
  digit_at (v / 16 / 16 / 16) (v / 4096) (omega arith),
  digit_at (v / 16 / 16) (v / 256) (omega arith),
  digit_at (v / 16) (v / 16) refl,
  digit_at v v refl,
)

-- A character read as a digit.
unfoldable pub digit_of : ℕ → ℕ
digit_of c = if leb c b'9' then c - b'0' else c - b'a' + 10

-- Whether a character is `0` to `9` or `a` to `f`.
unfoldable pub is_hex_digit : ℕ → Bool
is_hex_digit c = if leb c b'9' then leb b'0' c else leb b'a' c && leb c b'f'

is_digit_char : ℕ → Bool
is_digit_char d =
    ((digit_of (hex_char d) == d) && is_hex_digit (hex_char d))
    && (ltb 0 (hex_char d) && (ltb (hex_char d) 256 && not (hex_char d == 10)))

digit_chars : passes_below is_digit_char 16 ≡ true
unfolding passes_below is_digit_char digit_of is_hex_digit
digit_chars = refl

digit_table :
    (d : ℕ)
    → d < 16
    → (digit_of (hex_char d) ≡ d)
      × (0 < hex_char d)
      × (hex_char d < 256)
      × ((hex_char d == 10) ≡ false)
      × (is_hex_digit (hex_char d) ≡ true)
unfolding is_digit_char
digit_table d h =
    let all : is_digit_char d ≡ true = passes_below_lem is_digit_char d 16 h digit_chars in
    ground arith

-- The number that a line of hexadecimal digits behind `0x` stands for, up to the newline.
unfoldable pub hex_value : ℕ → List ℕ → ℕ
hex_value acc [] = acc
hex_value acc (c ∷ s) =
    let rest = hex_value (acc * 16 + digit_of c) s in if c == 10 then acc else rest

from_digits : ℕ → List ℕ → ℕ
from_digits acc [] = acc
from_digits acc (d ∷ ds) = from_digits (acc * 16 + d) ds

hex_value-digits :
    (acc : ℕ) (ds : List ℕ)
    → All (λ d. d < 16) ds
    → hex_value acc (map hex_char ds ++ 10 ∷ []) ≡ from_digits acc ds
unfolding hex_value from_digits
hex_value-digits acc [] h = refl
hex_value-digits acc (d ∷ ds) h =
    let entry = digit_table d h.0 in rw (entry.3, entry.0) (hex_value-digits (acc * 16 + d) ds h.1)

digits-Plain : (ds : List ℕ) → All (λ d. d < 16) ds → Plain (map hex_char ds ++ 10 ∷ [])
digits-Plain [] h = omega arith
digits-Plain (d ∷ ds) h = let entry = digit_table d h.0 in ((entry.1, entry.2), digits-Plain ds h.1)

hex_chars :
    (ds : List ℕ) → All (λ d. d < 16) ds → All (λ c. is_hex_digit c ≡ true) (map hex_char ds)
hex_chars [] h = tt
hex_chars (d ∷ ds) h = ((digit_table d h.0).4, hex_chars ds h.1)

nibbles-lt : (v : ℕ) → All (λ d. d < 16) (nibbles v)
unfolding nibbles
nibbles-lt v = omega arith

from_digits-nibbles : (v : ℕ) → v < 2 ^ 32 → from_digits 0 (nibbles v) ≡ v
unfolding from_digits nibbles
from_digits-nibbles v h = omega arith

-- The digits of a line that `printk` writes, and the newline.
abbrev pub digits_line : ℕ → List ℕ
digits_line v = map hex_char (nibbles v) ++ 10 ∷ []

length-digits_line : (v : ℕ) → length (digits_line v) ≡ 9
unfolding nibbles
length-digits_line v = refl

-- The line that `printk` writes.
abbrev pub printed_line : ℕ → List ℕ
printed_line v = codes "0x" ++ digits_line v

pub length-printed_line : (v : ℕ) → length (printed_line v) ≡ 11
length-printed_line v = omega (arith, length-digits_line v)

printed_line-Plain : (v : ℕ) → Plain (printed_line v)
printed_line-Plain v = (
  (omega arith, omega arith),
  ((omega arith, omega arith), digits-Plain (nibbles v) (nibbles-lt v)),
)

hex_line-printed_line : (v : ℕ) → hex_line v ≡ printed_line v ++ 0 ∷ []
hex_line-printed_line v =
    hex_line-nibbles v
    ∙ ap (λ s. 48 ∷ 120 ∷ s) (sym (append_assoc (map hex_char (nibbles v)) (10 ∷ []) (0 ∷ [])))

pub before_nul-hex_line : (v : ℕ) → before_nul (hex_line v) ≡ printed_line v
before_nul-hex_line v =
    ap before_nul (hex_line-printed_line v)
    ∙ before_nul-Plain (printed_line v) [] (printed_line-Plain v)

shown-hex_line : (v : ℕ) → shown (hex_line v) ≡ printed_line v
shown-hex_line v =
    ap shown (hex_line-printed_line v)
    ∙ shown-Plain (printed_line v) [] (printed_line-Plain v) (omega (arith, length-printed_line v))

-- With a UART that takes eleven bytes and `n` more, `printk` sends the line.
pub guest_printk_line :
    (v n : ℕ) (d : Device)
    → 11 + n ≤ ready d.lsr
    → (t : Device) × (guest_printk v d ≡ done tt t)
      × (t.sent ≡ d.sent ++ printed_line v)
      × (n ≤ ready t.lsr)
unfolding guest_printk puts
guest_printk_line v n d room =
    let long : length (shown (hex_line v)) + n ≤ ready d.lsr =
      rw (shown-hex_line v) (omega (arith, length-printed_line v)) in
    let (_, t, ran, p) = puts_lem qemu_uart (hex_line v) n d long in
    (t, rw ran refl, p.1 ∙ ap (λ s. d.sent ++ s) (shown-hex_line v), p.2)

-- When eleven reads to come show the UART's register empty, `printk` of a 32-bit number writes `0x`,
-- eight hexadecimal digits and a newline, and the digits read up to the newline give the number back.
pub guest_printk-hex_value :
    (v : ℕ) (d : Device)
    → v < 2 ^ 32
    → 11 ≤ ready d.lsr
    → Ensures (guest_printk v d) (λ _ t.
      (digits : List ℕ) × (t.sent ≡ d.sent ++ (codes "0x" ++ (digits ++ 10 ∷ [])))
      × (length digits ≡ 8)
      × All (λ c. is_hex_digit c ≡ true) digits
      × (hex_value 0 (digits ++ 10 ∷ []) ≡ v))
unfolding nibbles
guest_printk-hex_value v d h room =
    let (t, ran, sent, _) = guest_printk_line v 0 d room in
    (
      tt,
      t,
      ran,
      (
        map hex_char (nibbles v),
        sent,
        refl,
        hex_chars (nibbles v) (nibbles-lt v),
        hex_value-digits 0 (nibbles v) (nibbles-lt v) ∙ from_digits-nibbles v h,
      ),
    )
