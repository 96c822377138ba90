-- ===== src/Wasip2/Messages.antt =====
-- The messages as the console of a port without a C library shows them, and what the stubs leave
-- alone.
use wasrisc.Base.{ℕ, ◌+◌, ◌≡◌, refl, [], Bool, true, false, length, take, List, if◌then◌else◌}
use wasrisc.Console.Text.{shown}
use wasrisc.Console.{strlen_max}
use wasrisc.Host.{Libc}
use wasrisc.Machine.{Ensures, Ensures-bind}
use wasrisc.Wasi.{State, Printed}
use wasrisc.Zkvm.{Zkvm}
use wasrisc.Wasi.Printing.{print-Printed}
use wasrisc.Wasip2.{bare, adapter}
use wasrisc.Wasip2.Bare.{BareImport, bare_message, monotonic_clock_subscribe_duration}
use wasrisc.Wasip2.Adapter
use wasrisc.Wasip2.Adapter.{AdapterImport, adapter_message}

-- The stubs whose message is longer than `strlen_max`.
abbrev pub is_cut : AdapterImport → Bool
is_cut Adapter.terminal_input_drop_terminal_input = true
is_cut Adapter.terminal_output_drop_terminal_output = true
is_cut Adapter.types_descriptor_append_via_stream = true
is_cut Adapter.types_descriptor_metadata_hash_at = true
is_cut Adapter.types_descriptor_read_via_stream = true
is_cut Adapter.types_descriptor_unlink_file_at = true
is_cut Adapter.types_descriptor_write_via_stream = true
is_cut Adapter.types_drop_directory_entry_stream = true
is_cut Adapter.streams_output_stream_blocking_flush = true
is_cut _ = false

-- What the console shows of an adapter stub's message.
abbrev pub visible : AdapterImport → List ℕ
visible i = if is_cut i then take strlen_max (adapter_message i) else adapter_message i

-- The message of every other stub is shown whole.
pub bare_message-shown : (i : BareImport) → shown (bare_message i) ≡ bare_message i
unfolding shown bare_message
bare_message-shown monotonic_clock_subscribe_duration = refl
bare_message-shown _ = refl

module _ (libc : Libc) {Linear : Type 0} where
  -- A stub returns zero, prints its message, and leaves the guest's memory and the clock alone.
  pub adapter-Printed :
      (i : AdapterImport) (n : ℕ) (s : State libc.Device Linear)
      → libc.Accepts (length (libc.formatted (adapter_message i) []) + n) s.device
      → Ensures
          (adapter libc i s)
          (λ r t. (r ≡ 0) × Printed libc (libc.formatted (adapter_message i) []) n s t)
  unfolding adapter
  adapter-Printed i n s room =
      Ensures-bind (print-Printed libc (adapter_message i) [] n s room)
        λ _ t p. (0, t, refl, (refl, p))

  pub bare-Printed :
      (i : BareImport) (n : ℕ) (s : State libc.Device Linear)
      → libc.Accepts (length (libc.formatted (bare_message i) []) + n) s.device
      → Ensures
          (bare libc i s)
          (λ r t. (r ≡ 0) × Printed libc (libc.formatted (bare_message i) []) n s t)
  unfolding bare
  bare-Printed i n s room =
      Ensures-bind (print-Printed libc (bare_message i) [] n s room)
        λ _ t p. (0, t, refl, (refl, p))
