-- ===== src/Callbacks.antt =====
-- Parsing and structural validation of the `callbacks` array: crates/core/src/callbacks.rs.
pub mod Reason
pub mod Messages
pub mod Name
pub mod Url
pub mod Headers
pub mod Fields
pub mod Parse
