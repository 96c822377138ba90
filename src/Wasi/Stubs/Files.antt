-- ===== src/Wasi/Stubs/Files.antt =====
-- The stubs of wasi.c for file descriptors.
use wasrisc.Base.{ℕ, [], ◌∷◌, codes}
use wasrisc.Host.{Libc}
use wasrisc.Machine.{Cmd, pure, ◌>>◌}
use wasrisc.Wasi.{errno_badf, State, print}

module _ (libc : Libc) {Linear : Type 0} where
  unfoldable pub fd_prestat_get : ℕ → ℕ → Cmd (State libc.Device Linear) ℕ
  fd_prestat_get wasi_fd result_pointer =
      print libc (codes "wasi_snapshot_preview1__fd_prestat_get(wasiFD=%d)\n") (wasi_fd ∷ [])
      >> pure errno_badf

  unfoldable pub fd_prestat_dir_name : ℕ → ℕ → ℕ → Cmd (State libc.Device Linear) ℕ
  fd_prestat_dir_name l0 l1 l2 =
      print libc (codes "wasi_snapshot_preview1__fd_prestat_dir_name\n") [] >> pure 0

  unfoldable pub fd_fdstat_get : ℕ → ℕ → Cmd (State libc.Device Linear) ℕ
  fd_fdstat_get wasi_fd result_pointer =
      print libc (codes "wasi_snapshot_preview1__fd_fdstat_get(wasiFD=%d)\n") (wasi_fd ∷ [])
      >> pure 0

  unfoldable pub fd_fdstat_set_flags : ℕ → ℕ → Cmd (State libc.Device Linear) ℕ
  fd_fdstat_set_flags l0 l1 =
      print libc (codes "wasi_snapshot_preview1__fd_fdstat_set_flags\n") [] >> pure errno_badf

  unfoldable pub fd_advise : ℕ → ℕ → ℕ → ℕ → Cmd (State libc.Device Linear) ℕ
  fd_advise l0 l1 l2 l3 = print libc (codes "wasi_snapshot_preview1__fd_advise\n") [] >> pure 0

  unfoldable pub fd_close : ℕ → Cmd (State libc.Device Linear) ℕ
  fd_close l0 = print libc (codes "wasi_snapshot_preview1__fd_close\n") [] >> pure 0

  unfoldable pub fd_read : ℕ → ℕ → ℕ → ℕ → Cmd (State libc.Device Linear) ℕ
  fd_read wasi_fd iovecs_pointer iovecs_count result_pointer =
      print libc (codes "wasi_snapshot_preview1__fd_read(wasiFD=%d)\n") (wasi_fd ∷ [])
      >> pure errno_badf

  unfoldable pub fd_seek : ℕ → ℕ → ℕ → ℕ → Cmd (State libc.Device Linear) ℕ
  fd_seek l0 l1 l2 l3 = print libc (codes "wasi_snapshot_preview1__fd_seek\n") [] >> pure 0

  unfoldable pub fd_pread : ℕ → ℕ → ℕ → ℕ → ℕ → Cmd (State libc.Device Linear) ℕ
  fd_pread wasi_fd iovecs_pointer iovecs_count offset result_pointer =
      print libc (codes "wasi_snapshot_preview1__fd_pread(wasiFD=%d)\n") (wasi_fd ∷ [])
      >> pure errno_badf

  unfoldable pub fd_filestat_get : ℕ → ℕ → Cmd (State libc.Device Linear) ℕ
  fd_filestat_get wasi_fd result_pointer =
      print libc (codes "wasi_snapshot_preview1__fd_filestat_get(wasiFD=%d)\n") (wasi_fd ∷ [])
      >> pure errno_badf

  unfoldable pub fd_sync : ℕ → Cmd (State libc.Device Linear) ℕ
  fd_sync wasi_fd =
      print libc (codes "wasi_snapshot_preview1__fd_sync(wasiFD=%d)\n") (wasi_fd ∷ [])
      >> pure errno_badf

  unfoldable pub fd_readdir : ℕ → ℕ → ℕ → ℕ → ℕ → Cmd (State libc.Device Linear) ℕ
  fd_readdir wasi_fd buffer_pointer buffer_len cookie result_pointer =
      print libc (codes "wasi_snapshot_preview1__fd_readdir(wasiFD=%d)\n") (wasi_fd ∷ [])
      >> pure errno_badf

  unfoldable pub fd_filestat_set_size : ℕ → ℕ → Cmd (State libc.Device Linear) ℕ
  fd_filestat_set_size wasi_fd size =
      print libc (codes "wasi_snapshot_preview1__fd_filestat_set_size(wasiFD=%d, size=%llu)\n")
        (wasi_fd ∷ size ∷ [])
      >> pure errno_badf
