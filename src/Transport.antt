-- ===== src/Transport.antt =====
-- crates/quicview-transport: the typed streams over a QUIC connection.
pub mod Error
pub mod Mux
pub mod Cert
pub mod Endpoint
