-- ===== src/Render/Error.antt =====
-- crates/quicview-display/src/error.rs.
use quicview.Prelude.{ℕ, String}

pub data DisplayError : Type 0 where
  display_not_found : ℕ → DisplayError
  surface_creation : String → DisplayError
  render_failed : String → DisplayError
  unsupported_format : DisplayError
  platform_not_supported : DisplayError
