-- ===== src/Render.antt =====
-- crates/quicview-display: surfaces and frame renderers.
pub mod Error
pub mod Surface
pub mod Renderer
