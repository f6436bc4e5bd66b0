-- ===== src/Transport.antt =====
-- crates/dnp3-transport/src/lib.rs: segmentation and reassembly.
pub mod Segment
pub mod Reassembler
