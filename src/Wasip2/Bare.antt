-- ===== src/Wasip2/Bare.antt =====
-- The imports of wasip2.c that carry the name of their interface alone.
use wasrisc.Base.{ℕ, List, codes}

-- The functions, named by interface and function.
pub data BareImport : Type 0 where
  monotonic_clock_subscribe_duration : BareImport
  poll_drop_pollable : BareImport
  poll_poll : BareImport
  streams_input_stream_subscribe : BareImport
  streams_output_stream_subscribe : BareImport
  streams_drop_input_stream : BareImport
  streams_drop_output_stream : BareImport
  tcp_tcp_socket_finish_connect : BareImport
  tcp_drop_tcp_socket : BareImport
  udp_drop_incoming_datagram_stream : BareImport
  udp_drop_outgoing_datagram_stream : BareImport
  udp_drop_udp_socket : BareImport

-- The message of each, which is its name.
unfoldable pub bare_message : BareImport → List ℕ
bare_message monotonic_clock_subscribe_duration =
    codes "wasiX3AclocksX2FmonotonicX2DclockX400X2E2X2E0__subscribeX2Dduration()\n"
bare_message poll_drop_pollable =
    codes "wasiX3AioX2FpollX400X2E2X2E0__X5BresourceX2DdropX5Dpollable()\n"
bare_message poll_poll = codes "wasiX3AioX2FpollX400X2E2X2E0__poll()\n"
bare_message streams_input_stream_subscribe =
    codes "wasiX3AioX2FstreamsX400X2E2X2E0__X5BmethodX5DinputX2DstreamX2Esubscribe()\n"
bare_message streams_output_stream_subscribe =
    codes "wasiX3AioX2FstreamsX400X2E2X2E0__X5BmethodX5DoutputX2DstreamX2Esubscribe()\n"
bare_message streams_drop_input_stream =
    codes "wasiX3AioX2FstreamsX400X2E2X2E0__X5BresourceX2DdropX5DinputX2Dstream()\n"
bare_message streams_drop_output_stream =
    codes "wasiX3AioX2FstreamsX400X2E2X2E0__X5BresourceX2DdropX5DoutputX2Dstream()\n"
bare_message tcp_tcp_socket_finish_connect =
    codes "wasiX3AsocketsX2FtcpX400X2E2X2E0__X5BmethodX5DtcpX2DsocketX2EfinishX2Dconnect()\n"
bare_message tcp_drop_tcp_socket =
    codes "wasiX3AsocketsX2FtcpX400X2E2X2E0__X5BresourceX2DdropX5DtcpX2Dsocket()\n"
bare_message udp_drop_incoming_datagram_stream =
    codes "wasiX3AsocketsX2FudpX400X2E2X2E0__X5BresourceX2DdropX5DincomingX2DdatagramX2Dstream()\n"
bare_message udp_drop_outgoing_datagram_stream =
    codes "wasiX3AsocketsX2FudpX400X2E2X2E0__X5BresourceX2DdropX5DoutgoingX2DdatagramX2Dstream()\n"
bare_message udp_drop_udp_socket =
    codes "wasiX3AsocketsX2FudpX400X2E2X2E0__X5BresourceX2DdropX5DudpX2Dsocket()\n"
