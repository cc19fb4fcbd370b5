-- ===== src/Executor.antt =====
-- executor/: the operators of the select pipeline that work on result rows.
pub mod Result
pub mod RowKey
pub mod LimitOffset
pub mod SetOperation
pub mod Aggregate
