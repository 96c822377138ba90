-- ===== src/Wasi/Stubs/Paths.antt =====
-- The stubs of wasi.c for paths.
use wasrisc.Base.{ℕ, [], codes}
use wasrisc.Host.{Libc}
use wasrisc.Machine.{Cmd, pure, ◌>>◌}
use wasrisc.Wasi.{errno_badf, State, print}

module _ (libc : Libc) {Linear : Type 0} where
  unfoldable pub path_filestat_get : ℕ → ℕ → ℕ → ℕ → ℕ → Cmd (State libc.Device Linear) ℕ
  path_filestat_get l0 l1 l2 l3 l4 =
      print libc (codes "wasi_snapshot_preview1__path_filestat_get\n") [] >> pure 0

  unfoldable pub path_unlink_file : ℕ → ℕ → ℕ → Cmd (State libc.Device Linear) ℕ
  path_unlink_file l0 l1 l2 =
      print libc (codes "wasi_snapshot_preview1__path_unlink_file\n") [] >> pure 0

  unfoldable pub path_readlink : ℕ → ℕ → ℕ → ℕ → ℕ → ℕ → Cmd (State libc.Device Linear) ℕ
  path_readlink l0 l1 l2 l3 l4 l5 =
      print libc (codes "wasi_snapshot_preview1__path_readlink\n") [] >> pure errno_badf

  unfoldable pub path_rename : ℕ → ℕ → ℕ → ℕ → ℕ → ℕ → Cmd (State libc.Device Linear) ℕ
  path_rename l0 l1 l2 l3 l4 l5 =
      print libc (codes "wasi_snapshot_preview1__path_rename\n") [] >> pure errno_badf

  unfoldable pub path_open : ℕ → ℕ → ℕ → ℕ → ℕ → ℕ → ℕ → ℕ → ℕ → Cmd (State libc.Device Linear) ℕ
  path_open l0 l1 l2 l3 l4 l5 l6 l7 l8 =
      print libc (codes "wasi_snapshot_preview1__path_open\n") [] >> pure errno_badf

  unfoldable pub path_remove_directory : ℕ → ℕ → ℕ → Cmd (State libc.Device Linear) ℕ
  path_remove_directory l0 l1 l2 =
      print libc (codes "wasi_snapshot_preview1__path_remove_directory\n") [] >> pure errno_badf

  unfoldable pub path_create_directory : ℕ → ℕ → ℕ → Cmd (State libc.Device Linear) ℕ
  path_create_directory l0 l1 l2 =
      print libc (codes "wasi_snapshot_preview1__path_create_directory\n") [] >> pure errno_badf
