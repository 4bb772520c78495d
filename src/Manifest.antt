-- ===== src/Manifest.antt =====
-- The manifest: crates/vrift-manifest/src/lib.rs (paths, entries, `Manifest` in memory), with
-- lmdb.rs and tier.rs of the same crate in the child modules. A path is the list of its bytes.
pub mod Types
pub mod Paths
pub mod Lmdb
pub mod Memory
pub mod Tier
