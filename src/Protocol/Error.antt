-- ===== src/Protocol/Error.antt =====
-- crates/quicview-protocol/src/error.rs.
use quicview.Prelude.{ℕ, String}

pub data ProtocolError : Type 0 where
  invalid_frame : String → ProtocolError
  unknown_frame_kind : ℕ → ProtocolError
  unknown_input_event : ℕ → ProtocolError
  payload_too_large : ℕ → ℕ → ProtocolError
  invalid_display_id : ℕ → ProtocolError
  decode_error : String → ProtocolError
