-- ===== src/Lib.antt =====
-- A verification library for NoBugDB, a C++17 SQL engine. Paths are from the repository's root.
--
-- The program. A statement enters through network/server.cc, is cut into tokens by
-- src/parser/lexer.cc and parsed into a tree, and src/core/database.cc dispatches it to the
-- executors. Tables (src/core/table.cc) keep their rows, each with the ids of the transactions that
-- created and deleted it, in heap files of 8 KiB pages (src/storage/). The transaction manager
-- decides which versions a reader sees; the lock manager keeps writers apart and finds deadlocks;
-- the operators of src/executor/ turn rows into results.
--
-- The files.
--   Prelude      numbers, lists, byte strings, association lists and their lemmas.
--   Errors       the exceptions of include/utils/exceptions.h as a result type.
--   Types        Value and DataType (include/types/): Types/Codec is TypeConverter::serialize_value
--                and deserialize_value, Types/Compare the comparison operators of value.cc.
--   Row          src/core/row.cc.
--   IndexKey     src/core/index_key.cc, the keys of the B-tree and their order.
--   BTree        src/core/btree_index.cc: BTree/Node and BTree/Search hold the functions over any
--                ordered keys, BTree/Index the methods over index keys. Entries is the sorted list
--                of entries that an index stands for, Layout the shape of a tree; Split, Walk,
--                Insert, Find and Scan prove the functions, Keys the order of the keys, Refine,
--                Lookup and Prefix the methods.
--   Partition    src/core/partition.cc: Bound, Hash, Router and Metadata are its data and
--                functions; Constraint, Disjoint, Unique and Prune prove them.
--   Shard        src/core/shard_map.cc and shard_router.cc; Reach joins them with the partitions.
--                Shard/Merge is src/network/result_merger.cc.
--   PlanCache    src/core/plan_cache.cc, with PlanCache/Uses and PlanCache/Bounds.
--   Storage      Storage/Tuple is src/storage/page_format.cc, Storage/Page is page.cc with one
--                function per method and the page as a byte buffer, Storage/HeapFile is
--                heap_file.cc. Page/Layout holds the invariant of a page, Page/Insert, Page/Update
--                and Page/Initialize what the methods do to it, HeapFile/Rows and HeapFile/Update
--                what the file does to its rows. Storage/PageStore and
--                Storage/BufferPool are page_store.cc in memory and buffer_pool.cc, which the heap
--                file does not use yet. Storage/Wal/Log is wal_manager.cc, Wal/Flush the
--                flush of src/core/database.cc, with the files that it stages among the .db files
--                of the directory, Wal/Staging and Wal/Renaming what its loops leave under every
--                name, Wal/Crash what a crash leaves.
--   Txn          Txn/Manager is src/core/transaction_manager.cc, a function per method; Lifecycle
--                has its steps, Visibility and Isolation what readers see, Freeze, Vacuum
--                and Delete the version methods of src/core/table.cc.
--   Lock         Lock/Manager is src/core/lock_manager.cc; Exclusion and Safety are about every
--                interleaving of its calls, Grant about a grant without waiting, Noted and
--                Release about what a release frees, Cycle about the deadlock search in a graph,
--                Deadlock about the refusals of `acquire` in terms of its queues.
--   Parser       Parser/Token and Parser/Lexer are include/parser/token.h and src/parser/lexer.cc,
--                TokenName is src/parser/token.cc.
--   Executor     LimitOffset, RowKey and SetOperation are the files of those names, Aggregate is
--                COUNT, MIN and MAX of aggregate_function.cc.
--   Tests        every result that has conditions, applied to a concrete input.
--
-- The model. A method under a mutex is one step on the state. `acquire` of the lock manager waits on
-- a condition variable: `acquire` here is the call up to its first wait and `attempt` one run of its
-- loop after a wake-up. Unordered maps and sets are lists with lookup, insertion and erasure. A
-- `uint64_t` is a number; the counter of transaction ids wraps at 2^64 and the steps exclude that.
-- An `int64_t` or a `double` is its 64-bit pattern; what `double` does (order, nearness, printing) and
-- `std::hash` are parameters (`Floats`, `Hashes`) without laws, and the theorems on values are about
-- rows without floats. A `uint16_t` of a page header is two bytes of the page. Below the heap
-- file the buffer pool is transparent: a pinned page is the page that was last written. A read outside a buffer, undefined
-- in C++, is the error `overrun`.
--
-- Fuel. The search of `has_cycle` has the number of graph entries plus two: every call below the
-- first enters a node with successors, and no node is entered twice. `tokenize` has the length of
-- the input plus one: every round consumes a character. Decimal printing has 20 digits, which 64
-- bits need at most. An insertion into the index has the height of the tree plus one, which the theorems
-- on it show to be enough. The replay of the log has the length of the file: every record takes
-- five bytes at least. The clock of the buffer pool has the bound of its loop, two rounds.
--
-- Not modelled: the parser proper and its syntax tree, the dispatcher, joins, sums and averages, windows
-- and expressions, the row directory of a table with its indexes and constraints, the page files,
-- persistence and backup, the files of the partition catalog and of the shard map, the planner,
-- views, triggers and routines, authorization, the network and the clients. Of the removal from an
-- index only the code is modelled. Failures of the file system are left out. The text of error messages is
-- left out everywhere. The tests of the pages and the heap file for null pointers are left out, as a
-- tuple is a list of bytes.
pub mod Prelude
pub mod Errors
pub mod Types
pub mod Row
pub mod IndexKey
pub mod BTree
pub mod Partition
pub mod Shard
pub mod PlanCache
pub mod Storage
pub mod Txn
pub mod Lock
pub mod Parser
pub mod Executor
pub mod Tests
