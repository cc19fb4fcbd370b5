-- ===== src/Txn.antt =====
-- core/transaction_manager.{h,cc}: transaction ids, statuses, snapshots and row visibility, with the
-- row versions of core/table.cc that they decide about.
pub mod Manager
pub mod Visibility
pub mod Lifecycle
pub mod Isolation
pub mod Freeze
pub mod Vacuum
pub mod Delete
