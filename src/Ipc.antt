-- ===== src/Ipc.antt =====
-- The wire format of the daemon's protocol (crates/vrift-ipc/src/lib.rs).
pub mod Header
pub mod Frame
pub mod Messages
