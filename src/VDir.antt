-- ===== src/VDir.antt =====
-- The VDir: the hash table in shared memory that vDird writes and the inception layer reads
-- (crates/vrift-vdird/src/vdir.rs, crates/vrift-ipc/src/vdir_types.rs).
pub mod Types
pub mod Table
pub mod Store
pub mod Probe
pub mod Placed
pub mod Write
pub mod Snapshot
pub mod Resize
pub mod Upsert
pub mod Dirty
pub mod Reopen
pub mod Reader
pub mod Stats
