-- ===== src/Partition/Router.antt =====
-- `RangePartitionRouter` and `HashPartitionRouter` of core/partition.cc.
use custom_sql_database.Prelude.{
  ℕ, ◌%◌, pos, negsuc, int_beq, Bool, false, not, ◌&&◌, Option, none, some, List, [], ◌∷◌, Bytes,
  ◌==◌, if◌then◌else◌, all, map,
}
use custom_sql_database.Types.Value.{Value, is_null}
use custom_sql_database.Types.Compare.{Floats, value_less, value_le, value_greater}
use custom_sql_database.Partition.Bound.{
  PartitionKind, range, hash, RangePartitionBound, HashPartitionBound, PartitionDescriptor, equal,
  less, less_equal, greater, greater_equal, between, PartitionPruneConstraint,
  PartitionPruneRequest,
}
use custom_sql_database.Partition.Hash.{compute_partition_hash}

module _ (fl : Floats) where
  unfoldable pub ranges_overlap : RangePartitionBound → RangePartitionBound → Bool
  ranges_overlap a b =
      value_less fl a.min_inclusive b.max_exclusive && value_less fl b.min_inclusive a.max_exclusive

  unfoldable pub range_contains : RangePartitionBound → Value → Bool
  range_contains bound key =
      value_le fl bound.min_inclusive key && value_less fl key bound.max_exclusive

  abbrev less_intersects : RangePartitionBound → PartitionPruneConstraint → Bool
  less_intersects bound c =
      if not c.upper_inclusive
      then value_less fl bound.min_inclusive c.upper
      else value_le fl bound.min_inclusive c.upper

  abbrev greater_intersects : RangePartitionBound → PartitionPruneConstraint → Bool
  greater_intersects bound c =
      if c.lower_inclusive
      then value_greater fl bound.max_exclusive c.lower
      else value_greater fl bound.max_exclusive c.lower
        && not (value_le fl bound.max_exclusive c.lower)

  abbrev between_intersects : RangePartitionBound → PartitionPruneConstraint → Bool
  between_intersects bound c =
      if c.lower_inclusive && c.upper_inclusive
      then value_le fl bound.min_inclusive c.upper && value_less fl c.lower bound.max_exclusive
      else if c.lower_inclusive && not c.upper_inclusive
      then value_less fl bound.min_inclusive c.upper && value_less fl c.lower bound.max_exclusive
      else if not c.lower_inclusive && c.upper_inclusive
      then value_le fl bound.min_inclusive c.upper
        && (value_less fl c.lower bound.max_exclusive
            && not (value_le fl bound.max_exclusive c.lower))
      else value_less fl bound.min_inclusive c.upper && value_less fl c.lower bound.max_exclusive

  unfoldable pub range_intersects_constraint : RangePartitionBound → PartitionPruneConstraint → Bool
  unfolding range_contains
  range_intersects_constraint bound c = elim c.op [
    | equal ↦ range_contains bound c.lower
    | less ↦ less_intersects bound c
    | less_equal ↦ value_le fl bound.min_inclusive c.upper
    | greater ↦ greater_intersects bound c
    | greater_equal ↦ value_greater fl bound.max_exclusive c.lower
    | between ↦ between_intersects bound c
  ]

  -- part.bound.range && rangeContains(*part.bound.range, key)
  abbrev pub is_range_of : Value → PartitionDescriptor → Bool
  is_range_of key part = elim part.bound.range_bound [
    | none ↦ false
    | some bound ↦ range_contains bound key
  ]

  -- The loop of RangePartitionRouter::resolveChild.
  unfoldable pub first_range : Value → List PartitionDescriptor → Option Bytes
  first_range key [] = none
  first_range key (part ∷ partitions) =
      let rest = first_range key partitions in
      if is_range_of key part then some part.child_table_name else rest

  abbrev pub is_included : PartitionPruneRequest → PartitionDescriptor → Bool
  is_included request part = elim part.bound.range_bound [
    | none ↦ false
    | some bound ↦ all (range_intersects_constraint bound) request
  ]

  unfoldable pub prune_ranges : PartitionPruneRequest → List PartitionDescriptor → List Bytes
  prune_ranges request [] = []
  prune_ranges request (part ∷ partitions) =
      let rest = prune_ranges request partitions in
      if is_included request part then part.child_table_name ∷ rest else rest

-- A positive modulus, and hashed % modulus == remainder.
abbrev pub is_remainder : ℕ → HashPartitionBound → Bool
is_remainder hashed bound = elim bound.modulus [
  | pos m ↦ not (m == 0) && int_beq (pos (hashed % m)) bound.remainder
  | negsuc m ↦ false
]

abbrev pub is_hash_of : ℕ → PartitionDescriptor → Bool
is_hash_of hashed part = elim part.bound.hash_bound [
  | none ↦ false
  | some bound ↦ is_remainder hashed bound
]

-- The loop of HashPartitionRouter::resolveChild.
unfoldable pub first_hash : ℕ → List PartitionDescriptor → Option Bytes
first_hash hashed [] = none
first_hash hashed (part ∷ partitions) =
    let rest = first_hash hashed partitions in
    if is_hash_of hashed part then some part.child_table_name else rest

unfoldable pub resolve_hash : Value → List PartitionDescriptor → Option Bytes
unfolding compute_partition_hash
resolve_hash key partitions =
    if is_null key then none else first_hash (compute_partition_hash key) partitions

-- The first constraint that fixes the key.
unfoldable pub equal_key : PartitionPruneRequest → Option Value
equal_key [] = none
equal_key (c ∷ request) =
    let rest = equal_key request in elim c.op [ equal ↦ some c.lower | _ ↦ rest ]

unfoldable pub prune_hashes : PartitionPruneRequest → List PartitionDescriptor → List Bytes
unfolding equal_key resolve_hash
prune_hashes request partitions = elim (equal_key request) [
  | none ↦ map (λ part. part.child_table_name) partitions
  | some key ↦ elim (resolve_hash key partitions) [ none ↦ [] | some child ↦ child ∷ [] ]
]

-- `IPartitionRouter` by the kind that `createRouter` looks at.
module _ (fl : Floats) where
  unfoldable pub resolve_child : PartitionKind → List PartitionDescriptor → Value → Option Bytes
  unfolding first_range resolve_hash
  resolve_child range partitions key = if is_null key then none else first_range fl key partitions
  resolve_child hash partitions key = resolve_hash key partitions

  unfoldable pub prune :
      PartitionKind → List PartitionDescriptor → PartitionPruneRequest → List Bytes
  unfolding prune_ranges prune_hashes
  prune range partitions request = prune_ranges fl request partitions
  prune hash partitions request = prune_hashes request partitions
