-- ===== src/Examples.antt =====
-- What the programs under examples/common share.
pub mod Points
pub mod Upsert
pub mod Startup
pub mod Acknowledged
pub mod Text
pub mod Cli
pub mod Forms
pub mod Channels
pub mod Served
pub mod States
