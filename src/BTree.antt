-- ===== src/BTree.antt =====
-- core/btree_index.{h,cc}: the in-memory index of a table, from keys to row numbers.
pub mod Node
pub mod Search
pub mod Entries
pub mod Layout
pub mod Split
pub mod Walk
pub mod Insert
pub mod Find
pub mod Scan
pub mod Index
pub mod Keys
pub mod Refine
pub mod Lookup
pub mod Prefix
