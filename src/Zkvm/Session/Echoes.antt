-- ===== src/Zkvm/Session/Echoes.antt =====
-- The guest that copies its input by `fd_write`, from the reset of the zkvm on.
use mathlib.Core.Path.{ap₂}
use wasrisc.Base.{
  ℕ, ◌+◌, ◌-◌, ◌*◌, ◌^◌, ◌≤◌, ◌<◌, ◌≡◌, refl, ap, ◌∙◌, arith, List, ◌++◌, codes, length, get_or,
  All, All-get_or,
}
use wasrisc.Host.{Wasm}
use wasrisc.Machine.{halted}
use wasrisc.Machine.Memory.{Memory, load32}
use wasrisc.Machine.Word.{u8, u32}
use wasrisc.Session.{Input}
use wasrisc.Session.Echo.{
  echo, bytes_from, bytes_from-get_or, text_all-echo, AdmitsAll-echo, result-echo, values-echo,
}
use wasrisc.Session.Ending.{returns}
use wasrisc.Session.View.{first_view}
use wasrisc.Zkvm.{Zkvm, input_addr, output_addr, ram_start}
use wasrisc.Zkvm.Imports.{input_data, input_data_len}
use wasrisc.Zkvm.Session.{zkvm_target}
use wasrisc.Zkvm.Session.Boot.{start, start-session}
use wasrisc.Zkvm.Session.Whole.{session_guest, farewell}

-- The host has placed the bytes sixteen bytes into the input area, and their number in the word eight
-- bytes into it.
pub record Placed (bytes : List ℕ) (m : Memory) : Type 0 where
  pub fits : input_addr + 16 + length bytes ≤ output_addr
  pub small : All (λ c. c < 256) bytes
  pub len : load32 m (input_addr + 8) ≡ length bytes
  pub content : (k : ℕ) → k < length bytes → m (input_addr + 16 + k) ≡ get_or bytes k 0

-- What the guest is told of it.
abbrev input_in : List ℕ → Memory → Input
input_in bytes m = record { bytes = input_data m; length = length bytes }

bytes_from-Placed :
    (bytes : List ℕ) (m : Memory)
    → Placed bytes m
    → bytes_from (input_in bytes m) (length bytes) 0 ≡ bytes
unfolding input_data
bytes_from-Placed bytes m placed = bytes_from-get_or (input_in bytes m) bytes 0 λ k below.
    let small : get_or bytes k 0 < 256 =
      All-get_or (λ c. c < 256) bytes k 0 (omega arith) placed.small in
    let address : u32 (input_addr + 4 * 4 + (0 + k)) ≡ input_addr + 16 + k =
      omega (arith, placed.fits) in
    ap (λ a. u8 (m a)) address ∙ ap u8 (placed.content k below) ∙ omega arith

module _ (wasm : Wasm) where
  -- From any state of the machine in whose input area the host has placed bytes that fit it, a start
  -- whose loop has as many rounds as the BSS, which lies in RAM, has bytes and one more, with the guest
  -- that copies its input to the standard output by `fd_write` and returns, comes to a halt: behind
  -- what the UART had sent it has sent the first line, exactly the bytes of the input and the last
  -- line, and `printk` has counted no value.
  pub start-echo :
      (bss_start bss_end rounds : ℕ) (bytes : List ℕ) (m : wasm.Linear) (z : Zkvm)
      → ram_start ≤ bss_start
      → bss_end + 1 < 2 ^ 64
      → bss_end - bss_start < rounds
      → Placed bytes z.memory
      → (t : Zkvm) × (start bss_start bss_end rounds
            (session_guest wasm m (echo wasm (λ _. returns)))
            z
          ≡ halted t)
        × (t.uart
            ≡ z.uart
              ++ (codes "instantiating guest program...\n"
                  ++ (bytes ++ codes "guest program completed\n")))
        × (t.output_count ≡ 0)
  unfolding input_data_len
  start-echo bss_start bss_end rounds bytes m z above fits enough placed =
      let given = input_in bytes z.memory in
      let v = first_view m in
      let (t, ran, shown, held) =
        start-session wasm bss_start bss_end rounds given m (echo wasm (λ _. returns)) z above fits
          enough ((λ k ok. refl), placed.len)
          (AdmitsAll-echo zkvm_target wasm given (λ _. returns) v
            λ j below. omega (arith, placed.fits)) in
      (
        t,
        ran,
        shown
            ∙ ap₂
                (λ text e.
                  z.uart ++ (codes "instantiating guest program...\n" ++ (text ++ farewell wasm e)))
                (text_all-echo zkvm_target wasm given (λ _. returns) v
                  ∙ bytes_from-Placed bytes z.memory placed)
                (result-echo zkvm_target wasm given (λ _. returns) v),
        held.counted ∙ ap length (values-echo zkvm_target wasm given (λ _. returns) v),
      )
