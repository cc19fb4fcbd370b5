-- ===== src/Shard.antt =====
-- core/shard_map.{h,cc} and core/shard_router.{h,cc}: the workers that hold the children of a
-- partitioned table.
pub mod Map
pub mod Router
pub mod Reach
pub mod Merge
