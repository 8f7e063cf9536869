-- ===== src/Codec.antt =====
-- crates/quicview-codec: frame codecs, pixel conversion, the bitrate controller.
pub mod Error
pub mod Delta
pub mod Encoder
pub mod Convert
pub mod Bitrate
