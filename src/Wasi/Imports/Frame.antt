-- ===== src/Wasi/Imports/Frame.antt =====
-- The reported calls leave the guest's memory and the clock alone.
use wasrisc.Base.{ℕ, ◌+◌, ◌≡◌, refl, List, [], ◌∷◌, codes, length}
use mathlib.Core.Path.{subst}
use native.Mathlib.Nat.{zero-add}
use wasrisc.Host.{Libc}
use wasrisc.Machine.{Ensures, Ensures-bind, and_then, pure}
use wasrisc.Wasi.{State, Printed, print, errno_badf, errno_success}
use wasrisc.Wasi.Printing.{Printed-refl, print-Printed}
use wasrisc.Wasi.Imports.{
  Import, invoke, said, errno, fd_prestat_get, fd_prestat_dir_name, fd_fdstat_get,
  fd_fdstat_set_flags, path_filestat_get, environ_sizes_get, poll_oneoff, adapter_close_badfd,
  fd_advise, fd_close, fd_read, environ_get, fd_seek, sched_yield, path_unlink_file, random_get,
  args_get, args_sizes_get, fd_pread, path_readlink, path_rename, fd_filestat_get, path_open,
  path_remove_directory, fd_sync, path_create_directory, fd_readdir, fd_filestat_set_size,
}
use wasrisc.Wasi.Stubs.Files
use wasrisc.Wasi.Stubs.Paths
use wasrisc.Wasi.Stubs.Process

module _ (libc : Libc) {Linear : Type 0} where
  reported :
      (fmt args : List ℕ) (code n : ℕ) (s : State libc.Device Linear)
      → libc.Accepts (length (libc.formatted fmt args) + n) s.device
      → Ensures
          (and_then (print libc fmt args s) (λ _. pure code))
          (λ r t. (r ≡ code) × Printed libc (libc.formatted fmt args) n s t)
  reported fmt args code n s room =
      Ensures-bind (print-Printed libc fmt args n s room) λ _ t p. (code, t, refl, (refl, p))

  -- On a device with room for its message, each of these calls returns the code that `errno` has of
  -- it, prints what `said` has of it, and leaves the guest's memory and the clock as they were.
  pub invoke-Printed :
      (i : Import) (n : ℕ) (s : State libc.Device Linear)
      → libc.Accepts (length (said libc i) + n) s.device
      → Ensures (invoke libc i s) (λ r t. (r ≡ errno i) × Printed libc (said libc i) n s t)
  unfolding invoke said errno Files.fd_prestat_get Files.fd_prestat_dir_name Files.fd_fdstat_get
      Files.fd_fdstat_set_flags Paths.path_filestat_get Process.environ_sizes_get
      Process.poll_oneoff Process.adapter_close_badfd Files.fd_advise Files.fd_close Files.fd_read
      Process.environ_get Files.fd_seek Process.sched_yield Paths.path_unlink_file
      Process.random_get Process.args_get Process.args_sizes_get Files.fd_pread Paths.path_readlink
      Paths.path_rename Files.fd_filestat_get Paths.path_open Paths.path_remove_directory
      Files.fd_sync Paths.path_create_directory Files.fd_readdir Files.fd_filestat_set_size
  invoke-Printed (fd_prestat_get wasi_fd result_pointer) k s room =
      reported (codes "wasi_snapshot_preview1__fd_prestat_get(wasiFD=%d)\n") (wasi_fd ∷ [])
        errno_badf k s room
  invoke-Printed (fd_prestat_dir_name l0 l1 l2) k s room =
      reported (codes "wasi_snapshot_preview1__fd_prestat_dir_name\n") [] errno_success k s room
  invoke-Printed (fd_fdstat_get wasi_fd result_pointer) k s room =
      reported (codes "wasi_snapshot_preview1__fd_fdstat_get(wasiFD=%d)\n") (wasi_fd ∷ [])
        errno_success k s room
  invoke-Printed (fd_fdstat_set_flags l0 l1) k s room =
      reported (codes "wasi_snapshot_preview1__fd_fdstat_set_flags\n") [] errno_badf k s room
  invoke-Printed (path_filestat_get l0 l1 l2 l3 l4) k s room =
      reported (codes "wasi_snapshot_preview1__path_filestat_get\n") [] errno_success k s room
  invoke-Printed (environ_sizes_get l0 l1) k s room =
      reported (codes "wasi_snapshot_preview1__environ_sizes_get\n") [] errno_success k s room
  invoke-Printed (poll_oneoff in_pointer out_pointer subscription_count event_count) k s room = (
    errno_success,
    s,
    refl,
    (refl, Printed-refl libc k s (subst (λ l. libc.Accepts l s.device) (zero-add k) room)),
  )
  invoke-Printed (adapter_close_badfd l0) k s room =
      reported (codes "wasi_snapshot_preview1__adapter_close_badfd\n") [] errno_success k s room
  invoke-Printed (fd_advise l0 l1 l2 l3) k s room =
      reported (codes "wasi_snapshot_preview1__fd_advise\n") [] errno_success k s room
  invoke-Printed (fd_close l0) k s room =
      reported (codes "wasi_snapshot_preview1__fd_close\n") [] errno_success k s room
  invoke-Printed (fd_read wasi_fd iovecs_pointer iovecs_count result_pointer) k s room =
      reported (codes "wasi_snapshot_preview1__fd_read(wasiFD=%d)\n") (wasi_fd ∷ []) errno_badf k s
        room
  invoke-Printed (environ_get l0 l1) k s room =
      reported (codes "wasi_snapshot_preview1__environ_get\n") [] errno_success k s room
  invoke-Printed (fd_seek l0 l1 l2 l3) k s room =
      reported (codes "wasi_snapshot_preview1__fd_seek\n") [] errno_success k s room
  invoke-Printed sched_yield k s room =
      reported (codes "wasi_snapshot_preview1__sched_yield\n") [] errno_success k s room
  invoke-Printed (path_unlink_file l0 l1 l2) k s room =
      reported (codes "wasi_snapshot_preview1__path_unlink_file\n") [] errno_success k s room
  invoke-Printed (random_get l0 l1) k s room =
      reported (codes "wasi_snapshot_preview1__random_get\n") [] errno_success k s room
  invoke-Printed (args_get l0 l1) k s room =
      reported (codes "wasi_snapshot_preview1__args_get\n") [] errno_success k s room
  invoke-Printed (args_sizes_get l0 l1) k s room =
      reported (codes "wasi_snapshot_preview1__args_sizes_get\n") [] errno_success k s room
  invoke-Printed (fd_pread wasi_fd iovecs_pointer iovecs_count offset result_pointer) k s room =
      reported (codes "wasi_snapshot_preview1__fd_pread(wasiFD=%d)\n") (wasi_fd ∷ []) errno_badf k s
        room
  invoke-Printed (path_readlink l0 l1 l2 l3 l4 l5) k s room =
      reported (codes "wasi_snapshot_preview1__path_readlink\n") [] errno_badf k s room
  invoke-Printed (path_rename l0 l1 l2 l3 l4 l5) k s room =
      reported (codes "wasi_snapshot_preview1__path_rename\n") [] errno_badf k s room
  invoke-Printed (fd_filestat_get wasi_fd result_pointer) k s room =
      reported (codes "wasi_snapshot_preview1__fd_filestat_get(wasiFD=%d)\n") (wasi_fd ∷ [])
        errno_badf k s room
  invoke-Printed (path_open l0 l1 l2 l3 l4 l5 l6 l7 l8) k s room =
      reported (codes "wasi_snapshot_preview1__path_open\n") [] errno_badf k s room
  invoke-Printed (path_remove_directory l0 l1 l2) k s room =
      reported (codes "wasi_snapshot_preview1__path_remove_directory\n") [] errno_badf k s room
  invoke-Printed (fd_sync wasi_fd) k s room =
      reported (codes "wasi_snapshot_preview1__fd_sync(wasiFD=%d)\n") (wasi_fd ∷ []) errno_badf k s
        room
  invoke-Printed (path_create_directory l0 l1 l2) k s room =
      reported (codes "wasi_snapshot_preview1__path_create_directory\n") [] errno_badf k s room
  invoke-Printed (fd_readdir wasi_fd buffer_pointer buffer_len cookie result_pointer) k s room =
      reported (codes "wasi_snapshot_preview1__fd_readdir(wasiFD=%d)\n") (wasi_fd ∷ []) errno_badf k
        s room
  invoke-Printed (fd_filestat_set_size wasi_fd size) k s room =
      reported (codes "wasi_snapshot_preview1__fd_filestat_set_size(wasiFD=%d, size=%llu)\n")
        (wasi_fd ∷ size ∷ []) errno_badf k s room
