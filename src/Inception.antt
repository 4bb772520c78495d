-- ===== src/Inception.antt =====
-- The paths of the inception layer (crates/vrift-inception-layer/src).
pub mod Normalize
pub mod FixedString
pub mod Resolve
