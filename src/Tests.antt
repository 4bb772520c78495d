-- ===== src/Tests.antt =====
-- The theorems at concrete inputs, by component.
mod Lock
mod Ipc
mod Tracker
mod Sync
mod Cas
mod Manifest
mod VDir
mod Commands
mod Journal
mod Inception
mod Ingest
mod Pack
mod Producers
