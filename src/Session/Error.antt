-- ===== src/Session/Error.antt =====
-- crates/quicview-session/src/error.rs.
use quicview.Prelude.{String}

pub data SessionError : Type 0 where
  auth_failed : String → SessionError
  negotiation_failed : String → SessionError
  already_closed : SessionError
  invalid_role_transition : String → String → SessionError
  timeout : SessionError
