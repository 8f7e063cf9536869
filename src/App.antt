-- ===== src/App.antt =====
-- crates/quicview: what the application keeps besides the components.
pub mod Metrics
pub mod Shutdown
pub mod Config
pub mod Ffi
pub mod Error
