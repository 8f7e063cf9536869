-- ===== src/Session.antt =====
-- crates/quicview-session: roles, authentication, negotiation, power, discovery.
pub mod Error
pub mod Role
pub mod Auth
pub mod Negotiation
pub mod Power
pub mod Discovery
