-- ===== src/Tests.antt =====
-- Runs of the definitions on small inputs, and the theorems at concrete inputs.
pub mod Wire
pub mod Codecs
pub mod Sessions
pub mod Displays
pub mod Streams
pub mod Link
pub mod Hosts
pub mod Windows
pub mod Orders
pub mod Program
