-- ===== src/Wasip2/Adapter.antt =====
-- The imports of wasip2.c that the wasip1 adapter makes.
use wasrisc.Base.{ℕ, List, codes}

-- The functions, named by interface and function.
pub data AdapterImport : Type 0 where
  environment_get_arguments : AdapterImport
  environment_get_environment : AdapterImport
  exit_exit : AdapterImport
  stdin_get_stdin : AdapterImport
  stdout_get_stdout : AdapterImport
  terminal_input_drop_terminal_input : AdapterImport
  terminal_output_drop_terminal_output : AdapterImport
  terminal_stderr_get_terminal_stderr : AdapterImport
  terminal_stdin_get_terminal_stdin : AdapterImport
  terminal_stdout_get_terminal_stdout : AdapterImport
  monotonic_clock_now : AdapterImport
  monotonic_clock_subscribe_duration : AdapterImport
  monotonic_clock_subscribe_instant : AdapterImport
  wall_clock_now : AdapterImport
  preopens_get_directories : AdapterImport
  types_descriptor_append_via_stream : AdapterImport
  types_descriptor_get_flags : AdapterImport
  types_descriptor_get_type : AdapterImport
  types_descriptor_metadata_hash_at : AdapterImport
  types_descriptor_read_via_stream : AdapterImport
  types_descriptor_stat_at : AdapterImport
  types_descriptor_stat : AdapterImport
  types_descriptor_unlink_file_at : AdapterImport
  types_descriptor_write_via_stream : AdapterImport
  types_drop_descriptor : AdapterImport
  types_drop_directory_entry_stream : AdapterImport
  types_filesystem_error_code : AdapterImport
  poll_drop_pollable : AdapterImport
  poll_poll : AdapterImport
  streams_input_stream_subscribe : AdapterImport
  streams_output_stream_blocking_flush : AdapterImport

-- The message of each, which is its name.
unfoldable pub adapter_message : AdapterImport → List ℕ
adapter_message environment_get_arguments =
    codes "wasisnapshotpreview1_wasiX3AcliX2FenvironmentX400X2E2X2E0__getX2Darguments()\n"
adapter_message environment_get_environment =
    codes "wasisnapshotpreview1_wasiX3AcliX2FenvironmentX400X2E2X2E0__getX2Denvironment()\n"
adapter_message exit_exit = codes "wasisnapshotpreview1_wasiX3AcliX2FexitX400X2E2X2E0__exit()\n"
adapter_message stdin_get_stdin =
    codes "wasisnapshotpreview1_wasiX3AcliX2FstdinX400X2E2X2E0__getX2Dstdin()\n"
adapter_message stdout_get_stdout =
    codes "wasisnapshotpreview1_wasiX3AcliX2FstdoutX400X2E2X2E0__getX2Dstdout()\n"
adapter_message terminal_input_drop_terminal_input =
    codes
      "wasisnapshotpreview1_wasiX3AcliX2FterminalX2DinputX400X2E2X2E0__X5BresourceX2DdropX5DterminalX2Dinput()\n"
adapter_message terminal_output_drop_terminal_output =
    codes
      "wasisnapshotpreview1_wasiX3AcliX2FterminalX2DoutputX400X2E2X2E0__X5BresourceX2DdropX5DterminalX2Doutput()\n"
adapter_message terminal_stderr_get_terminal_stderr =
    codes
      "wasisnapshotpreview1_wasiX3AcliX2FterminalX2DstderrX400X2E2X2E0__getX2DterminalX2Dstderr()\n"
adapter_message terminal_stdin_get_terminal_stdin =
    codes
      "wasisnapshotpreview1_wasiX3AcliX2FterminalX2DstdinX400X2E2X2E0__getX2DterminalX2Dstdin()\n"
adapter_message terminal_stdout_get_terminal_stdout =
    codes
      "wasisnapshotpreview1_wasiX3AcliX2FterminalX2DstdoutX400X2E2X2E0__getX2DterminalX2Dstdout()\n"
adapter_message monotonic_clock_now =
    codes "wasisnapshotpreview1_wasiX3AclocksX2FmonotonicX2DclockX400X2E2X2E0__now()\n"
adapter_message monotonic_clock_subscribe_duration =
    codes
      "wasisnapshotpreview1_wasiX3AclocksX2FmonotonicX2DclockX400X2E2X2E0__subscribeX2Dduration()\n"
adapter_message monotonic_clock_subscribe_instant =
    codes
      "wasisnapshotpreview1_wasiX3AclocksX2FmonotonicX2DclockX400X2E2X2E0__subscribeX2Dinstant()\n"
adapter_message wall_clock_now =
    codes "wasisnapshotpreview1_wasiX3AclocksX2FwallX2DclockX400X2E2X2E0__now()\n"
adapter_message preopens_get_directories =
    codes "wasisnapshotpreview1_wasiX3AfilesystemX2FpreopensX400X2E2X2E0__getX2Ddirectories()\n"
adapter_message types_descriptor_append_via_stream =
    codes
      "wasisnapshotpreview1_wasiX3AfilesystemX2FtypesX400X2E2X2E0__X5BmethodX5DdescriptorX2EappendX2DviaX2Dstream()\n"
adapter_message types_descriptor_get_flags =
    codes
      "wasisnapshotpreview1_wasiX3AfilesystemX2FtypesX400X2E2X2E0__X5BmethodX5DdescriptorX2EgetX2Dflags()\n"
adapter_message types_descriptor_get_type =
    codes
      "wasisnapshotpreview1_wasiX3AfilesystemX2FtypesX400X2E2X2E0__X5BmethodX5DdescriptorX2EgetX2Dtype()\n"
adapter_message types_descriptor_metadata_hash_at =
    codes
      "wasisnapshotpreview1_wasiX3AfilesystemX2FtypesX400X2E2X2E0__X5BmethodX5DdescriptorX2EmetadataX2DhashX2Dat()\n"
adapter_message types_descriptor_read_via_stream =
    codes
      "wasisnapshotpreview1_wasiX3AfilesystemX2FtypesX400X2E2X2E0__X5BmethodX5DdescriptorX2EreadX2DviaX2Dstream()\n"
adapter_message types_descriptor_stat_at =
    codes
      "wasisnapshotpreview1_wasiX3AfilesystemX2FtypesX400X2E2X2E0__X5BmethodX5DdescriptorX2EstatX2Dat()\n"
adapter_message types_descriptor_stat =
    codes
      "wasisnapshotpreview1_wasiX3AfilesystemX2FtypesX400X2E2X2E0__X5BmethodX5DdescriptorX2Estat()\n"
adapter_message types_descriptor_unlink_file_at =
    codes
      "wasisnapshotpreview1_wasiX3AfilesystemX2FtypesX400X2E2X2E0__X5BmethodX5DdescriptorX2EunlinkX2DfileX2Dat()\n"
adapter_message types_descriptor_write_via_stream =
    codes
      "wasisnapshotpreview1_wasiX3AfilesystemX2FtypesX400X2E2X2E0__X5BmethodX5DdescriptorX2EwriteX2DviaX2Dstream()\n"
adapter_message types_drop_descriptor =
    codes
      "wasisnapshotpreview1_wasiX3AfilesystemX2FtypesX400X2E2X2E0__X5BresourceX2DdropX5Ddescriptor()\n"
adapter_message types_drop_directory_entry_stream =
    codes
      "wasisnapshotpreview1_wasiX3AfilesystemX2FtypesX400X2E2X2E0__X5BresourceX2DdropX5DdirectoryX2DentryX2Dstream()\n"
adapter_message types_filesystem_error_code =
    codes
      "wasisnapshotpreview1_wasiX3AfilesystemX2FtypesX400X2E2X2E0__filesystemX2DerrorX2Dcode()\n"
adapter_message poll_drop_pollable =
    codes "wasisnapshotpreview1_wasiX3AioX2FpollX400X2E2X2E0__X5BresourceX2DdropX5Dpollable()\n"
adapter_message poll_poll = codes "wasisnapshotpreview1_wasiX3AioX2FpollX400X2E2X2E0__poll()\n"
adapter_message streams_input_stream_subscribe =
    codes
      "wasisnapshotpreview1_wasiX3AioX2FstreamsX400X2E2X2E0__X5BmethodX5DinputX2DstreamX2Esubscribe()\n"
adapter_message streams_output_stream_blocking_flush =
    codes
      "wasisnapshotpreview1_wasiX3AioX2FstreamsX400X2E2X2E0__X5BmethodX5DoutputX2DstreamX2EblockingX2Dflush()\n"
