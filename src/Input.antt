-- ===== src/Input.antt =====
-- crates/quicview-input: injectors, the clipboard, the audio capture.
pub mod Error
pub mod Injector
pub mod Audio
pub mod SendInput
pub mod Evdev
pub mod CgEvent
pub mod Forwarder
