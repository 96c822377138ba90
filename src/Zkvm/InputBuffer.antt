-- ===== src/Zkvm/InputBuffer.antt =====
-- The input area: its length in bytes at `input_addr + 8`, and the bytes from `input_addr + 16` on.
-- It is read by words in zkvm.c and by bytes in custom_imports.c.
use wasrisc.Base.{ℕ, ◌+◌, ◌*◌, ◌/◌, ◌%◌, ◌^◌, ◌≤◌, ◌<◌, ◌≡◌, sym, ap, ◌∙◌, arith}
use wasrisc.Machine.Memory.{Memory, IsBytes, load32, load32-byte}
use wasrisc.Machine.Word.{u32}
use wasrisc.Zkvm.{len_input_buf, read_value, input_addr}
use wasrisc.Zkvm.Imports.{input_data_len, input_data}

-- In a memory of bytes, `len_input_buf` is the least number of words that covers the input.
pub len_input_buf-covers :
    (m : Memory)
    → IsBytes m
    → (input_data_len m ≤ 4 * len_input_buf m) × (4 * len_input_buf m < input_data_len m + 4)
unfolding len_input_buf input_data_len load32
len_input_buf-covers m bytes = ground (
  arith,
  bytes (input_addr + 8),
  bytes (input_addr + 8 + 1),
  bytes (input_addr + 8 + 2),
  bytes (input_addr + 8 + 3),
)

-- In a memory of bytes, every byte of an input that fits below 2 ^ 32 lies in one of the words that
-- `len_input_buf` counts, and reading it by the byte or by the word gives the same.
pub read_value-input_data :
    (m : Memory) (j : ℕ)
    → IsBytes m
    → j < input_data_len m
    → j < 0x6fff_fff0
    → (j / 4 < len_input_buf m) × (input_data m j ≡ read_value m (j / 4) / 256 ^ (j % 4) % 256)
unfolding read_value input_data
read_value-input_data m j bytes inside area = (
  omega (arith, len_input_buf-covers m bytes),
  ap m address
      ∙ sym (load32-byte m word (j % 4) bytes (omega arith))
      ∙ ap (λ p. load32 m p / 256 ^ (j % 4) % 256) word_address,
)
  where
    word : ℕ
    word = input_addr + 16 + 4 * (j / 4)

    address : u32 (input_addr + 4 * 4 + j) ≡ word + j % 4
    address = omega arith

    word_address : word ≡ u32 (input_addr + u32 (4 * u32 (j / 4 + 4)))
    word_address = omega arith
