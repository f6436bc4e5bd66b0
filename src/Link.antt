-- ===== src/Link.antt =====
-- crates/dnp3-link/src/lib.rs: the control field and the frame of the link layer.
pub mod ControlField
pub mod LinkFrame
pub mod Framing
