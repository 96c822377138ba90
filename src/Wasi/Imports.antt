-- ===== src/Wasi/Imports.antt =====
-- The calls of WASI that wasi.c only reports, as one type, with what each prints and returns.
pub mod Frame
use wasrisc.Base.{ℕ, List, [], ◌∷◌, codes}
use wasrisc.Host.{Libc}
use wasrisc.Machine.{Cmd}
use wasrisc.Wasi.{State, errno_success, errno_badf}
use wasrisc.Wasi.Stubs.Files
use wasrisc.Wasi.Stubs.Paths
use wasrisc.Wasi.Stubs.Process

pub data Import : Type 0 where
  fd_prestat_get : ℕ → ℕ → Import
  fd_prestat_dir_name : ℕ → ℕ → ℕ → Import
  fd_fdstat_get : ℕ → ℕ → Import
  fd_fdstat_set_flags : ℕ → ℕ → Import
  path_filestat_get : ℕ → ℕ → ℕ → ℕ → ℕ → Import
  environ_sizes_get : ℕ → ℕ → Import
  poll_oneoff : ℕ → ℕ → ℕ → ℕ → Import
  adapter_close_badfd : ℕ → Import
  fd_advise : ℕ → ℕ → ℕ → ℕ → Import
  fd_close : ℕ → Import
  fd_read : ℕ → ℕ → ℕ → ℕ → Import
  environ_get : ℕ → ℕ → Import
  fd_seek : ℕ → ℕ → ℕ → ℕ → Import
  sched_yield : Import
  path_unlink_file : ℕ → ℕ → ℕ → Import
  random_get : ℕ → ℕ → Import
  args_get : ℕ → ℕ → Import
  args_sizes_get : ℕ → ℕ → Import
  fd_pread : ℕ → ℕ → ℕ → ℕ → ℕ → Import
  path_readlink : ℕ → ℕ → ℕ → ℕ → ℕ → ℕ → Import
  path_rename : ℕ → ℕ → ℕ → ℕ → ℕ → ℕ → Import
  fd_filestat_get : ℕ → ℕ → Import
  path_open : ℕ → ℕ → ℕ → ℕ → ℕ → ℕ → ℕ → ℕ → ℕ → Import
  path_remove_directory : ℕ → ℕ → ℕ → Import
  fd_sync : ℕ → Import
  path_create_directory : ℕ → ℕ → ℕ → Import
  fd_readdir : ℕ → ℕ → ℕ → ℕ → ℕ → Import
  fd_filestat_set_size : ℕ → ℕ → Import

module _ (libc : Libc) {Linear : Type 0} where
  unfoldable pub invoke : Import → Cmd (State libc.Device Linear) ℕ
  invoke (fd_prestat_get wasi_fd result_pointer) = Files.fd_prestat_get libc wasi_fd result_pointer
  invoke (fd_prestat_dir_name l0 l1 l2) = Files.fd_prestat_dir_name libc l0 l1 l2
  invoke (fd_fdstat_get wasi_fd result_pointer) = Files.fd_fdstat_get libc wasi_fd result_pointer
  invoke (fd_fdstat_set_flags l0 l1) = Files.fd_fdstat_set_flags libc l0 l1
  invoke (path_filestat_get l0 l1 l2 l3 l4) = Paths.path_filestat_get libc l0 l1 l2 l3 l4
  invoke (environ_sizes_get l0 l1) = Process.environ_sizes_get libc l0 l1
  invoke (poll_oneoff in_pointer out_pointer subscription_count event_count) =
      Process.poll_oneoff libc in_pointer out_pointer subscription_count event_count
  invoke (adapter_close_badfd l0) = Process.adapter_close_badfd libc l0
  invoke (fd_advise l0 l1 l2 l3) = Files.fd_advise libc l0 l1 l2 l3
  invoke (fd_close l0) = Files.fd_close libc l0
  invoke (fd_read wasi_fd iovecs_pointer iovecs_count result_pointer) =
      Files.fd_read libc wasi_fd iovecs_pointer iovecs_count result_pointer
  invoke (environ_get l0 l1) = Process.environ_get libc l0 l1
  invoke (fd_seek l0 l1 l2 l3) = Files.fd_seek libc l0 l1 l2 l3
  invoke sched_yield = Process.sched_yield libc
  invoke (path_unlink_file l0 l1 l2) = Paths.path_unlink_file libc l0 l1 l2
  invoke (random_get l0 l1) = Process.random_get libc l0 l1
  invoke (args_get l0 l1) = Process.args_get libc l0 l1
  invoke (args_sizes_get l0 l1) = Process.args_sizes_get libc l0 l1
  invoke (fd_pread wasi_fd iovecs_pointer iovecs_count offset result_pointer) =
      Files.fd_pread libc wasi_fd iovecs_pointer iovecs_count offset result_pointer
  invoke (path_readlink l0 l1 l2 l3 l4 l5) = Paths.path_readlink libc l0 l1 l2 l3 l4 l5
  invoke (path_rename l0 l1 l2 l3 l4 l5) = Paths.path_rename libc l0 l1 l2 l3 l4 l5
  invoke (fd_filestat_get wasi_fd result_pointer) =
      Files.fd_filestat_get libc wasi_fd result_pointer
  invoke (path_open l0 l1 l2 l3 l4 l5 l6 l7 l8) = Paths.path_open libc l0 l1 l2 l3 l4 l5 l6 l7 l8
  invoke (path_remove_directory l0 l1 l2) = Paths.path_remove_directory libc l0 l1 l2
  invoke (fd_sync wasi_fd) = Files.fd_sync libc wasi_fd
  invoke (path_create_directory l0 l1 l2) = Paths.path_create_directory libc l0 l1 l2
  invoke (fd_readdir wasi_fd buffer_pointer buffer_len cookie result_pointer) =
      Files.fd_readdir libc wasi_fd buffer_pointer buffer_len cookie result_pointer
  invoke (fd_filestat_set_size wasi_fd size) = Files.fd_filestat_set_size libc wasi_fd size

module _ (libc : Libc) where
  -- What the call prints: its name, for some with the descriptor.
  unfoldable pub said : Import → List ℕ
  said (fd_prestat_get wasi_fd _) =
      libc.formatted (codes "wasi_snapshot_preview1__fd_prestat_get(wasiFD=%d)\n") (wasi_fd ∷ [])
  said (fd_prestat_dir_name _ _ _) =
      libc.formatted (codes "wasi_snapshot_preview1__fd_prestat_dir_name\n") []
  said (fd_fdstat_get wasi_fd _) =
      libc.formatted (codes "wasi_snapshot_preview1__fd_fdstat_get(wasiFD=%d)\n") (wasi_fd ∷ [])
  said (fd_fdstat_set_flags _ _) =
      libc.formatted (codes "wasi_snapshot_preview1__fd_fdstat_set_flags\n") []
  said (path_filestat_get _ _ _ _ _) =
      libc.formatted (codes "wasi_snapshot_preview1__path_filestat_get\n") []
  said (environ_sizes_get _ _) =
      libc.formatted (codes "wasi_snapshot_preview1__environ_sizes_get\n") []
  said (poll_oneoff _ _ _ _) = []
  said (adapter_close_badfd _) =
      libc.formatted (codes "wasi_snapshot_preview1__adapter_close_badfd\n") []
  said (fd_advise _ _ _ _) = libc.formatted (codes "wasi_snapshot_preview1__fd_advise\n") []
  said (fd_close _) = libc.formatted (codes "wasi_snapshot_preview1__fd_close\n") []
  said (fd_read wasi_fd _ _ _) =
      libc.formatted (codes "wasi_snapshot_preview1__fd_read(wasiFD=%d)\n") (wasi_fd ∷ [])
  said (environ_get _ _) = libc.formatted (codes "wasi_snapshot_preview1__environ_get\n") []
  said (fd_seek _ _ _ _) = libc.formatted (codes "wasi_snapshot_preview1__fd_seek\n") []
  said sched_yield = libc.formatted (codes "wasi_snapshot_preview1__sched_yield\n") []
  said (path_unlink_file _ _ _) =
      libc.formatted (codes "wasi_snapshot_preview1__path_unlink_file\n") []
  said (random_get _ _) = libc.formatted (codes "wasi_snapshot_preview1__random_get\n") []
  said (args_get _ _) = libc.formatted (codes "wasi_snapshot_preview1__args_get\n") []
  said (args_sizes_get _ _) = libc.formatted (codes "wasi_snapshot_preview1__args_sizes_get\n") []
  said (fd_pread wasi_fd _ _ _ _) =
      libc.formatted (codes "wasi_snapshot_preview1__fd_pread(wasiFD=%d)\n") (wasi_fd ∷ [])
  said (path_readlink _ _ _ _ _ _) =
      libc.formatted (codes "wasi_snapshot_preview1__path_readlink\n") []
  said (path_rename _ _ _ _ _ _) = libc.formatted (codes "wasi_snapshot_preview1__path_rename\n") []
  said (fd_filestat_get wasi_fd _) =
      libc.formatted (codes "wasi_snapshot_preview1__fd_filestat_get(wasiFD=%d)\n") (wasi_fd ∷ [])
  said (path_open _ _ _ _ _ _ _ _ _) =
      libc.formatted (codes "wasi_snapshot_preview1__path_open\n") []
  said (path_remove_directory _ _ _) =
      libc.formatted (codes "wasi_snapshot_preview1__path_remove_directory\n") []
  said (fd_sync wasi_fd) =
      libc.formatted (codes "wasi_snapshot_preview1__fd_sync(wasiFD=%d)\n") (wasi_fd ∷ [])
  said (path_create_directory _ _ _) =
      libc.formatted (codes "wasi_snapshot_preview1__path_create_directory\n") []
  said (fd_readdir wasi_fd _ _ _ _) =
      libc.formatted (codes "wasi_snapshot_preview1__fd_readdir(wasiFD=%d)\n") (wasi_fd ∷ [])
  said (fd_filestat_set_size wasi_fd size) =
      libc.formatted (codes "wasi_snapshot_preview1__fd_filestat_set_size(wasiFD=%d, size=%llu)\n")
        (wasi_fd ∷ size ∷ [])

-- What the call returns, whatever its arguments.
unfoldable pub errno : Import → ℕ
errno (fd_prestat_get _ _) = errno_badf
errno (fd_prestat_dir_name _ _ _) = errno_success
errno (fd_fdstat_get _ _) = errno_success
errno (fd_fdstat_set_flags _ _) = errno_badf
errno (path_filestat_get _ _ _ _ _) = errno_success
errno (environ_sizes_get _ _) = errno_success
errno (poll_oneoff _ _ _ _) = errno_success
errno (adapter_close_badfd _) = errno_success
errno (fd_advise _ _ _ _) = errno_success
errno (fd_close _) = errno_success
errno (fd_read _ _ _ _) = errno_badf
errno (environ_get _ _) = errno_success
errno (fd_seek _ _ _ _) = errno_success
errno sched_yield = errno_success
errno (path_unlink_file _ _ _) = errno_success
errno (random_get _ _) = errno_success
errno (args_get _ _) = errno_success
errno (args_sizes_get _ _) = errno_success
errno (fd_pread _ _ _ _ _) = errno_badf
errno (path_readlink _ _ _ _ _ _) = errno_badf
errno (path_rename _ _ _ _ _ _) = errno_badf
errno (fd_filestat_get _ _) = errno_badf
errno (path_open _ _ _ _ _ _ _ _ _) = errno_badf
errno (path_remove_directory _ _ _) = errno_badf
errno (fd_sync _) = errno_badf
errno (path_create_directory _ _ _) = errno_badf
errno (fd_readdir _ _ _ _ _) = errno_badf
errno (fd_filestat_set_size _ _) = errno_badf
