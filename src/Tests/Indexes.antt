-- ===== src/Tests/Indexes.antt =====
-- The index, the partitions and the shards on small inputs.
use mathlib.Core.Option
use custom_sql_database.Prelude.{
  Among, ℕ, ◌≡◌, refl, All, pos, true, false, none, some, [], ◌∷◌, ◌++◌, arith, Bytes,
  if◌then◌else◌,
}
use custom_sql_database.Types.Value.{int_type, null, int}
use custom_sql_database.IndexKey.{IndexKey, key_less, key_eq}
use custom_sql_database.BTree.Node.{node, nil}
use custom_sql_database.BTree.Layout.{flatten, weave, IsTree}
use custom_sql_database.BTree.Index.{Root, insert, find_equal, find_range}
use custom_sql_database.BTree.Refine.{IsIndex, Refines, contents, insert-upsert}
use custom_sql_database.BTree.Lookup.{
  find_equal-insert, find_range-rows_where, rows_where, in_range,
}
use custom_sql_database.Partition.Bound.{range, PartitionDescriptor, PartitionPruneRequest, less}
use custom_sql_database.Partition.Router.{
  resolve_child, range_intersects_constraint, range_contains, ranges_overlap,
}
use custom_sql_database.Partition.Metadata.{PartitionedTableMetadata, add_partition}
use custom_sql_database.Partition.Disjoint.{
  IsPartitioned, AllPartitioned, add_partition-IsPartitioned,
}
use custom_sql_database.Partition.Constraint.{satisfies}
use custom_sql_database.Partition.Unique.{accepts, resolve_child-only}
use custom_sql_database.Shard.Map.{ShardMap, ShardEndpoint, found}
use custom_sql_database.Shard.Router.{resolve_key, resolve_prune}
use custom_sql_database.Shard.Reach.{resolve_prune-reaches}
use custom_sql_database.Types.Compare.{value_less, value_le, value_eq}
use custom_sql_database.Tests.Queries.{patterns}

abbrev one : IndexKey
one = int 1 ∷ []

abbrev two_key : IndexKey
two_key = int 2 ∷ []

-- Two keys with three rows.
abbrev small : Root
small = some (node true ((one, 7 ∷ 9 ∷ []) ∷ (two_key, 8 ∷ []) ∷ []) nil)

small-IsIndex : IsIndex patterns (int_type ∷ []) small
unfolding flatten weave IsTree key_less value_less
small-IsIndex = (
  (0, (refl, omega arith, tt)),
  record { keys = ((omega arith, tt), ((omega arith, tt), tt)); sorted = ((refl, tt), (tt, tt)) },
)

insert-upsert_example :
    Refines patterns int_type [] two_key 6 (contents small) (insert patterns two_key 6 small)
insert-upsert_example =
    insert-upsert patterns int_type [] two_key 6 small (omega arith, tt) small-IsIndex

find_equal-insert_example :
    Option.map (find_equal patterns one) (insert patterns one 6 small)
    ≡ some (
        if key_eq patterns one one
        then find_equal patterns one small ++ 6 ∷ []
        else find_equal patterns one small)
find_equal-insert_example =
    find_equal-insert patterns int_type [] one one 6 small (omega arith, tt) (omega arith, tt)
      small-IsIndex

find_range-rows_where_example :
    find_range patterns (some one) false none true small
    ≡ rows_where (in_range patterns int_type [] (some one) false none true) (contents small)
find_range-rows_where_example =
    find_range-rows_where patterns int_type [] (some one) false none true small (omega arith, tt) tt
      small-IsIndex

abbrev from_to : Bytes → ℕ → ℕ → PartitionDescriptor
from_to name low high = record {
  child_table_name = name;
  bound = record {
    range_bound = some (record { min_inclusive = int low; max_exclusive = int high });
    hash_bound = none;
  };
}

abbrev low : PartitionDescriptor
low = from_to (b'a' ∷ []) 0 10

abbrev high : PartitionDescriptor
high = from_to (b'b' ∷ []) 10 20

low-IsPartitioned : IsPartitioned patterns range (low ∷ [])
unfolding value_less
low-IsPartitioned = record { bounded = (refl, tt); apart = (tt, tt) }

abbrev parent : PartitionedTableMetadata
parent = record { kind = range; key_column = b'k' ∷ []; partitions = low ∷ [] }

add_partition-IsPartitioned_example : AllPartitioned patterns (add_partition patterns high parent).1
add_partition-IsPartitioned_example =
    add_partition-IsPartitioned patterns high parent low-IsPartitioned

both-IsPartitioned : IsPartitioned patterns range (low ∷ high ∷ [])
unfolding value_less ranges_overlap
both-IsPartitioned = record {
  bounded = (refl, (refl, tt));
  apart = ((record { names = refl; bounds = refl }, tt), (tt, tt));
}

twelve_in_high : accepts patterns range (int 12) high ≡ true
unfolding range_contains value_le value_less value_eq
twelve_in_high = refl

resolve_child-only_example :
    resolve_child patterns range (low ∷ high ∷ []) (int 12) ≡ some (b'b' ∷ [])
resolve_child-only_example =
    resolve_child-only patterns range int_type (low ∷ []) [] high (int 12) (omega arith)
      ((omega arith, omega arith), ((omega arith, omega arith), tt)) both-IsPartitioned
      twelve_in_high

abbrev at_port : ℕ → ℕ → ShardEndpoint
at_port id port = record { shard_id = pos id; host = b'h' ∷ []; port = port }

abbrev placed : ShardMap
placed = record {
  workers = (pos 1, at_port 1 80) ∷ (pos 2, at_port 2 81) ∷ [];
  placements = (b'a' ∷ [], pos 1) ∷ (b'b' ∷ [], pos 2) ∷ [];
}

-- k < 15
abbrev below : PartitionPruneRequest
below =
    record {
      op = less;
      lower = null;
      upper = int 15;
      lower_inclusive = true;
      upper_inclusive = false;
    }
    ∷ []

twelve_below : All (λ c. satisfies patterns (int 12) c ≡ true) below
unfolding satisfies value_less
twelve_below = (refl, tt)

twelve_at_two : resolve_key patterns range (low ∷ high ∷ []) (int 12) placed ≡ found (at_port 2 81)
unfolding resolve_key range_contains value_le value_less
twelve_at_two = refl

below_at_both :
    resolve_prune patterns range (low ∷ high ∷ []) below placed
    ≡ found (at_port 1 80 ∷ at_port 2 81 ∷ [])
unfolding resolve_prune range_intersects_constraint value_less
below_at_both = refl

resolve_prune-reaches_example : Among (at_port 2 81) (at_port 1 80 ∷ at_port 2 81 ∷ [])
resolve_prune-reaches_example =
    resolve_prune-reaches patterns range int_type (low ∷ high ∷ []) below (int 12) placed
      (at_port 2 81) (at_port 1 80 ∷ at_port 2 81 ∷ [])
      ((omega arith, omega arith), ((omega arith, omega arith), tt)) (omega arith) (omega arith, tt)
      twelve_below twelve_at_two below_at_both
