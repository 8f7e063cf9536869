-- ===== src/Capture/Error.antt =====
-- crates/quicview-capture/src/error.rs.
use quicview.Prelude.{ℕ, String}

pub data CaptureError : Type 0 where
  display_not_found : ℕ → CaptureError
  capture_failed : String → CaptureError
  virtual_display_failed : String → CaptureError
  permission_denied : String → CaptureError
  platform_not_supported : String → CaptureError
