-- ===== src/Input/Error.antt =====
-- crates/quicview-input/src/error.rs.
use quicview.Prelude.{String}

pub data InputError : Type 0 where
  injection_failed : String → InputError
  channel_closed : InputError
  platform_not_supported : InputError
  permission_denied : String → InputError
