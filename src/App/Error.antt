-- ===== src/App/Error.antt =====
-- crates/quicview/src/error.rs: the error that holds those of every crate.
use quicview.Protocol.Error.{ProtocolError}
use quicview.Codec.Error.{CodecError}
use quicview.Capture.Error.{CaptureError}
use quicview.Render.Error.{DisplayError}
use quicview.Input.Error.{InputError}
use quicview.Session.Error.{SessionError}
use quicview.Transport.Error.{TransportError}

pub data QuicViewError (ConnectionError WriteError : Type 0) : Type 0 where
  protocol : ProtocolError → QuicViewError ConnectionError WriteError
  codec : CodecError → QuicViewError ConnectionError WriteError
  capture : CaptureError → QuicViewError ConnectionError WriteError
  display : DisplayError → QuicViewError ConnectionError WriteError
  input : InputError → QuicViewError ConnectionError WriteError
  session : SessionError → QuicViewError ConnectionError WriteError
  transport : TransportError ConnectionError WriteError → QuicViewError ConnectionError WriteError
