-- ===== src/App.antt =====
-- crates/dnp3-app/src/lib.rs: application fragments, object headers and object bodies.
pub mod AppControl
pub mod FunctionCode
pub mod ObjectHeader
pub mod Points
pub mod AppObject
pub mod ApplicationFragment
