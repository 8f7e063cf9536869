-- ===== src/Codec/Error.antt =====
-- crates/quicview-codec/src/error.rs.
use quicview.Prelude.{ℕ, String}

pub data CodecError : Type 0 where
  encode_error : String → CodecError
  decode_error : String → CodecError
  unsupported_conversion : String → String → CodecError
  buffer_mismatch : ℕ → ℕ → CodecError
