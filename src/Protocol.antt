-- ===== src/Protocol.antt =====
-- crates/quicview-protocol: displays, frame headers, input events, control messages.
pub mod Error
pub mod Buf
pub mod Display
pub mod Frame
pub mod Input
pub mod Message
