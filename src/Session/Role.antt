-- ===== src/Session/Role.antt =====
-- crates/quicview-session/src/role.rs.
use quicview.Prelude.{Bool, true, false, String}

pub data Role : Type 0 where
  host viewer extender : Role

unfoldable pub is_producer : Role → Bool
is_producer host = true
is_producer viewer = false
is_producer extender = true

unfoldable pub is_consumer : Role → Bool
is_consumer host = false
is_consumer viewer = true
is_consumer extender = true

unfoldable pub role_text : Role → String
role_text host = "host"
role_text viewer = "viewer"
role_text extender = "extender"
