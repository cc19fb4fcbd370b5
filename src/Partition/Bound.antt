-- ===== src/Partition/Bound.antt =====
-- The data of core/partition.h.
use custom_sql_database.Prelude.{ℤ, Bool, Option, List, Bytes}
use custom_sql_database.Types.Value.{Value}

pub data PartitionKind : Type 0 where
  range hash : PartitionKind

pub record RangePartitionBound : Type 0 where
  pub min_inclusive : Value
  pub max_exclusive : Value

pub record HashPartitionBound : Type 0 where
  pub modulus : ℤ
  pub remainder : ℤ

pub record PartitionBound : Type 0 where
  pub range_bound : Option RangePartitionBound
  pub hash_bound : Option HashPartitionBound

pub record PartitionDescriptor : Type 0 where
  pub child_table_name : Bytes
  pub bound : PartitionBound

pub data Op : Type 0 where
  equal less less_equal greater greater_equal between : Op

pub record PartitionPruneConstraint : Type 0 where
  pub op : Op
  pub lower : Value
  pub upper : Value
  pub lower_inclusive : Bool
  pub upper_inclusive : Bool

-- `PartitionPruneRequest`: the constraints, which are conjoined.
abbrev pub PartitionPruneRequest : Type 0
PartitionPruneRequest = List PartitionPruneConstraint
