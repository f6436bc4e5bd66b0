-- ===== src/Core.antt =====
-- crates/dnp3-core/src/lib.rs: errors, the byte reader, addresses, timestamps and CRC blocks.
pub mod Error
pub mod Fallible
pub mod Reader
pub mod Address
pub mod Timestamp48
pub mod Crc
