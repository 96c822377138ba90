-- ===== src/Wasi/Stubs/Process.antt =====
-- The stubs of wasi.c for the process: arguments, environment, scheduling, exit.
use wasrisc.Base.{ℕ, [], codes}
use wasrisc.Host.{Libc}
use wasrisc.Machine.{Cmd, pure, ◌>>◌}
use wasrisc.Wasi.{errno_success, on_device, State, print}

module _ (libc : Libc) {Linear : Type 0} where
  unfoldable pub instantiate : Cmd (State libc.Device Linear) (Unit {0})
  instantiate = print libc (codes "wasisnapshotpreview1Instantiate\n") [] >> pure tt

  unfoldable pub free_instance : Cmd (State libc.Device Linear) (Unit {0})
  free_instance = print libc (codes "wasisnapshotpreview1FreeInstance\n") [] >> pure tt

  unfoldable pub proc_exit : ℕ → Cmd (State libc.Device Linear) (Unit {0})
  proc_exit l0 =
      print libc (codes "wasi_snapshot_preview1__proc_exit\n") [] >> on_device libc (libc.exit l0)

  unfoldable pub environ_sizes_get : ℕ → ℕ → Cmd (State libc.Device Linear) ℕ
  environ_sizes_get l0 l1 =
      print libc (codes "wasi_snapshot_preview1__environ_sizes_get\n") [] >> pure 0

  unfoldable pub poll_oneoff : ℕ → ℕ → ℕ → ℕ → Cmd (State libc.Device Linear) ℕ
  poll_oneoff in_pointer out_pointer subscription_count event_count = pure errno_success

  unfoldable pub adapter_close_badfd : ℕ → Cmd (State libc.Device Linear) ℕ
  adapter_close_badfd l0 =
      print libc (codes "wasi_snapshot_preview1__adapter_close_badfd\n") [] >> pure 0

  unfoldable pub environ_get : ℕ → ℕ → Cmd (State libc.Device Linear) ℕ
  environ_get l0 l1 = print libc (codes "wasi_snapshot_preview1__environ_get\n") [] >> pure 0

  unfoldable pub sched_yield : Cmd (State libc.Device Linear) ℕ
  sched_yield = print libc (codes "wasi_snapshot_preview1__sched_yield\n") [] >> pure 0

  unfoldable pub random_get : ℕ → ℕ → Cmd (State libc.Device Linear) ℕ
  random_get l0 l1 = print libc (codes "wasi_snapshot_preview1__random_get\n") [] >> pure 0

  unfoldable pub args_get : ℕ → ℕ → Cmd (State libc.Device Linear) ℕ
  args_get l0 l1 = print libc (codes "wasi_snapshot_preview1__args_get\n") [] >> pure 0

  unfoldable pub args_sizes_get : ℕ → ℕ → Cmd (State libc.Device Linear) ℕ
  args_sizes_get l0 l1 = print libc (codes "wasi_snapshot_preview1__args_sizes_get\n") [] >> pure 0
