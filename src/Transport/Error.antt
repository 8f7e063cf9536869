-- ===== src/Transport/Error.antt =====
-- crates/quicview-transport/src/error.rs. The error types of the crate `quinn` are parameters.
use quicview.Prelude.{String}
use quicview.Protocol.Error.{ProtocolError}

pub data TransportError (ConnectionError WriteError : Type 0) : Type 0 where
  connection_failed : String → TransportError ConnectionError WriteError
  stream_closed : TransportError ConnectionError WriteError
  stream_open_failed : String → TransportError ConnectionError WriteError
  tls : String → TransportError ConnectionError WriteError
  bind_failed : String → TransportError ConnectionError WriteError
  accept_failed : String → TransportError ConnectionError WriteError
  send_failed : String → TransportError ConnectionError WriteError
  recv_failed : String → TransportError ConnectionError WriteError
  timeout : TransportError ConnectionError WriteError
  protocol : ProtocolError → TransportError ConnectionError WriteError
  quinn : ConnectionError → TransportError ConnectionError WriteError
  write_error : WriteError → TransportError ConnectionError WriteError
