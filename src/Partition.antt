-- ===== src/Partition.antt =====
-- core/partition.{h,cc}: the children of a partitioned table, the routing of a key to its child, and
-- the choice of the children that a query reads.
pub mod Bound
pub mod Hash
pub mod Router
pub mod Metadata
pub mod Disjoint
pub mod Constraint
pub mod Prune
pub mod Unique
