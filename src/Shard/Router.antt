-- ===== src/Shard/Router.antt =====
-- `ShardRouter` of core/shard_router.{h,cc}, over the router of a partitioned table.
use custom_sql_database.Prelude.{none, some, List, [], ◌∷◌, Bytes}
use custom_sql_database.Types.Value.{Value}
use custom_sql_database.Types.Compare.{Floats}
use custom_sql_database.Partition.Bound.{PartitionKind, PartitionDescriptor, PartitionPruneRequest}
use custom_sql_database.Partition.Router.{resolve_child, prune}
use custom_sql_database.Shard.Map.{
  ShardEndpoint, ShardMap, no_placement, unknown_shard_id, no_partition, no_children, ShardResult,
  found, failed, find_shard_id, find_endpoint, resolve_children,
}

unfoldable pub resolve_child_name : Bytes → ShardMap → ShardResult ShardEndpoint
unfolding find_shard_id find_endpoint
resolve_child_name child m = elim (find_shard_id child m) [
  | none ↦ failed (no_placement child)
  | some id ↦ elim (find_endpoint id m) [ none ↦ failed (unknown_shard_id id) | some e ↦ found e ]
]

module _ (fl : Floats) (kind : PartitionKind) (partitions : List PartitionDescriptor) where
  unfoldable pub resolve_key : Value → ShardMap → ShardResult ShardEndpoint
  unfolding resolve_child resolve_child_name
  resolve_key key m = elim (resolve_child fl kind partitions key) [
    | none ↦ failed no_partition
    | some child ↦ resolve_child_name child m
  ]

  unfoldable pub resolve_prune : PartitionPruneRequest → ShardMap → ShardResult (List ShardEndpoint)
  unfolding prune resolve_children
  resolve_prune request m =
      let children = prune fl kind partitions request in
      elim children [ [] ↦ failed no_children | c ∷ cs ↦ resolve_children (c ∷ cs) m ]
