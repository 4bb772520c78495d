-- ===== src/Lib.antt =====
-- Velo Rift: a virtual file system over a content store. An inception layer inside each process
-- intercepts file operations. It looks paths up in a hash table in shared memory (the VDir), which
-- the daemon vrift-vdird writes, tracks the files that are being written, and talks to the daemons
-- in frames. The manifest maps paths to contents.
--
-- The files:
--   VDir          The table: crates/vrift-vdird/src/vdir.rs over crates/vrift-ipc/src/vdir_types.rs.
--                 VDir/Types is the layout, VDir/Table the probing, VDir/Store the manager `VDir`
--                 with its header, slots and capacity, and one function per method. VDir/Reader is
--                 the lock-free reader `vdir_lookup` of
--                 crates/vrift-inception-layer/src/state/mod.rs. The other files hold proofs.
--   Lock          `LockManager` of crates/vrift-daemon/src/main.rs: a map from paths to the
--                 exclusive owner and the sharing processes (Lock/Handler: a round of the
--                 `FlockAcquire` handler).
--   Ipc           `IpcHeader` and `frame_sync` of crates/vrift-ipc/src/lib.rs. A stream is the list
--                 of the bytes to come. Ipc/Messages has the requests, responses and errors.
--   Commands      `CommandHandler` of crates/vrift-vdird/src/commands.rs: the requests of a client,
--                 over VDir, in which they write, and Manifest/Lmdb, in which they look on. The
--                 directory listing is Commands/ListDir, the reingest of a file Commands/Reingest,
--                 the full scan Commands/Scan, and `handle_request` Commands/Dispatch.
--   Journal       `ReingestJournal` of crates/vrift-vdird/src/journal.rs: the entries in memory and
--                 the file that each change writes.
--   Ingest        `IngestQueue` and `IngestHandler` (Ingest/Handler) of
--                 crates/vrift-vdird/src/ingest.rs: the queue of events that change the manifest.
--                 Ingest/Consumer cuts them into batches, Ingest/Batch handles a batch.
--   Pack          `PackWriter`, `PackReader` and `AccessProfile` of crates/vrift-pack/src/lib.rs.
--   Inception     The paths of the inception layer: crates/vrift-inception-layer/src/path.rs, with
--                 `raw_path_normalize` in Inception/Normalize, `PathResolver` in Inception/Resolve,
--                 and the buffers of state/mod.rs and macros.rs in Inception/FixedString.
--   Tracker       `DirtyTracker` of crates/vrift-inception-layer/src/state/mod.rs.
--   Manifest      `VnodeEntry` and paths of crates/vrift-manifest/src/lib.rs, and `LmdbManifest` of
--                 crates/vrift-manifest/src/lmdb.rs (Manifest/Lmdb), the map in memory
--                 (Manifest/Memory) and the classifier of tier.rs (Manifest/Tier).
--   Sync          `FdTable` and `RingBuffer` of crates/vrift-inception-layer/src/sync. In
--                 Sync/RingBuffer/Producers the steps of many threads interleave, where a run
--                 stops at the first overlap of a store and a `take` of one slot.
--   Cas           `BloomFilter` of crates/vrift-cas/src/lib.rs.
--   Prelude       Shared names and lemmas: lists, loops that return early, bits, association lists,
--                 text.
--   Tests         The theorems at concrete inputs.
--
-- Words of the machine are natural numbers, with `% 2 ^ w` where the source wraps. Strings are the
-- lists of their bytes. Loops over slots are counted loops. The loop that skips heartbeats runs on
-- fuel, one round more than the stream has bytes. The reader's loop runs the 1000 spins that the
-- source bounds it by.
--
-- Parameters, with what is assumed of them where it is used: CRC-32, rkyv's encoding of messages,
-- of the journal and of packfiles, BLAKE3, the maps of dashmap, the databases of heed, and the
-- answers of the operating system and of the content store.
--
-- Not modelled: races inside the dirty tracker and the table of descriptors (these run one call at a
-- time here), the waiting loop around the lock manager, the daemons' sockets and request loops, the
-- watching of files, the branches of the path resolver for macOS, the system call layer, and the
-- content store's file I/O. The reader of the VDir reads the fields of an entry one by one, the hash
-- of the content in one read, of a memory that is sequentially consistent. A file of the VDir whose
-- table begins elsewhere than behind the header, or is shorter than the capacity, is not modelled.
-- Reads of an open LMDB database are taken to succeed. The times of a file are the bit patterns of
-- 64-bit words.
pub mod Cas
pub mod Commands
pub mod Inception
pub mod Ingest
pub mod Ipc
pub mod Journal
pub mod Lock
pub mod Manifest
pub mod Pack
pub mod Prelude
pub mod Sync
pub mod Tests
pub mod Tracker
pub mod VDir
