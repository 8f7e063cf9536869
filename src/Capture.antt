-- ===== src/Capture.antt =====
-- crates/quicview-capture: capture sources, virtual displays, the display wall.
pub mod Error
pub mod Source
pub mod Gdi
pub mod Pipewire
pub mod ScreenCaptureKit
pub mod VirtualDisplay
pub mod Wall
