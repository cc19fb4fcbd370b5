-- ===== src/Storage.antt =====
-- storage/: the encoding of tuples, slotted pages, the buffer pool and heap files.
pub mod Tuple
pub mod Memory
pub mod Page
pub mod HeapFile
pub mod Wal
pub mod PageStore
pub mod BufferPool
