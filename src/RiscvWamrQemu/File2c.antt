-- ===== src/RiscvWamrQemu/File2c.antt =====
-- platform/riscv-wamr-qemu/file2c/file2c.c: a file as the C source of an array of its bytes.
pub mod RoundTrip
pub mod Length
use wasrisc.Base.{
  ℕ, zero, suc, ◌+◌, ◌-◌, ◌*◌, ◌/◌, ◌%◌, ◌^◌, List, [], ◌∷◌, ◌++◌, Option, none, some, codes,
  length, get_or, ltb, ◌==◌, not, if◌then◌else◌,
}
use wasrisc.Machine.Word.{u32}

-- A digit of `%X`.
unfoldable pub hex_digit : ℕ → ℕ
hex_digit d = if ltb d 10 then b'0' + d else b'A' + (d - 10)

-- `0x%.2X` of a byte.
unfoldable pub hex_byte : ℕ → List ℕ
hex_byte c = b'0' ∷ b'x' ∷ hex_digit (c / 16) ∷ hex_digit (c % 16) ∷ []

-- The decimal digits of a number, ten at most.
unfoldable pub decimal : ℕ → ℕ → List ℕ
decimal zero v = []
decimal (suc k) v =
    let rest = decimal k (v / 10) in (if ltb v 10 then [] else rest) ++ (b'0' + v % 10) ∷ []

-- `%i` of the 32 bits of an `int`.
unfoldable pub int_text : ℕ → List ℕ
int_text v = if ltb v (2 ^ 31) then decimal 10 v else b'-' ∷ decimal 10 (2 ^ 32 - v)

-- The loop over the bytes still to come, of which `n` were printed. The size and the comparison are
-- of `int`s.
unfoldable pub body : ℕ → ℕ → List ℕ → List ℕ
body filesize n [] = []
body filesize n (c ∷ cs) =
    hex_byte c
    ++ ((if u32 (n + 1) == filesize then [] else codes ", ")
        ++ ((if (n + 1) % 20 == 0 then codes "\n    " else []) ++ body filesize (n + 1) cs))

unfoldable pub source : List ℕ → List ℕ → List ℕ
source var_name bytes =
    codes "const char "
    ++ (var_name
        ++ (codes "[] = {\n    "
            ++ (body (u32 (length bytes)) 0 bytes
                ++ (codes "\n};\n"
                    ++ (codes "int "
                        ++ (var_name
                            ++ (codes "_length="
                                ++ (int_text (u32 (length bytes)) ++ codes ";\n"))))))))

-- How the program ends, and what it has printed.
pub record Outcome : Type 0 where
  pub status : ℕ
  pub stdout : List ℕ
  pub stderr : List ℕ

unfoldable pub help : List ℕ → List ℕ
help me =
    codes "file2c originally by IngwiePhoenix | Convert a file into a C source file.\n"
    ++ (codes "Usage: " ++ (me ++ codes " inputFile varName > output"))

-- What follows `fopen`, which gave the file's bytes or failed.
unfoldable pub convert : List ℕ → Option (List ℕ) → Outcome
convert var_name none = record {
  status = 1;
  stdout = [];
  stderr = codes "Error while opening file.";
}
convert var_name (some bytes) = record { status = 0; stdout = source var_name bytes; stderr = [] }

-- `files` is the file system: what a name opens, if anything.
unfoldable pub main : (List ℕ → Option (List ℕ)) → List (List ℕ) → Outcome
main files argv =
    if not (length argv == 3)
    then record { status = 1; stdout = help (get_or argv 0 []); stderr = [] }
    else convert (get_or argv 2 []) (files (get_or argv 1 []))
