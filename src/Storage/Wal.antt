-- ===== src/Storage/Wal.antt =====
-- `WalManager` of storage/wal_manager.cc: the bytes of wal.log (`none`: there is no such file), and the
-- .db files by their names. The calls of the file system succeed.
pub mod Log
pub mod Read
pub mod Flush
pub mod Encoded
pub mod Staging
pub mod Renaming
pub mod Crash
