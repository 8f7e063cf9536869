-- ===== src/Cli.antt =====
-- crates/quicview-cli/src/main.rs: the commands of the executable.
pub mod Control
pub mod Serve
pub mod Commands
pub mod Peers
pub mod Main
