-- ===== src/Wal.antt =====
-- db/alpha/replication: the write-ahead log. `Position` is model.go; the other modules are wal.go.
pub mod Position
pub mod Entry
pub mod Reader
pub mod FileSystem
pub mod Names
pub mod Log
pub mod Contents
pub mod Torn
pub mod Writes
pub mod Recovery
mod MemFs
mod Tests
