-- ===== src/Partition/Prune.antt =====
-- The pruning of core/partition.cc keeps the child of every key that satisfies the constraints.
use custom_sql_database.Prelude.{
  ℕ, ◌≡◌, refl, Bool, true, some, List, [], ◌∷◌, arith, Bytes, bytes_beq_iff, bytes_eq, All, map,
  member, Bool-cases, Option-cases, inl, inr,
}
use custom_sql_database.Types.Value.{DataType, Value}
use custom_sql_database.Types.Compare.{Floats}
use custom_sql_database.Types.Order.{OfType, value_eq_iff_of, OfType-is_null}
use custom_sql_database.Partition.Bound.{
  PartitionKind, range, hash, PartitionDescriptor, Op, equal, PartitionPruneConstraint,
  PartitionPruneRequest,
}
use custom_sql_database.Partition.Hash.{compute_partition_hash}
use custom_sql_database.Partition.Router.{
  range_contains, is_range_of, first_range, is_included, prune_ranges, is_hash_of, first_hash,
  resolve_hash, equal_key, prune_hashes, resolve_child, prune,
}
use custom_sql_database.Partition.Constraint.{OfConstraint, OfBound, satisfies, all-intersects}

module _ (fl : Floats) where
  -- A child of the key is included.
  range_of-included :
      (t : DataType) (part : PartitionDescriptor) (request : PartitionPruneRequest) (key : Value)
      → OfBound t part
      → OfType t key
      → All (OfConstraint t) request
      → is_range_of fl key part ≡ true
      → All (λ c. satisfies fl key c ≡ true) request
      → is_included fl request part ≡ true
  range_of-included t part request key hb hk hc h s = elim (Option-cases part.bound.range_bound) [
    | inl e ↦ absurd (ground (arith, e, h))
    | inr (r, e) ↦
        let b : OfType t r.min_inclusive × OfType t r.max_exclusive = rw e at hb in
        let within : range_contains fl r key ≡ true = ground (arith, e, h) in
        rw e (all-intersects fl t r request key b.0 b.1 hk hc within s)
  ]

  member-prune_ranges :
      (t : DataType) (partitions : List PartitionDescriptor) (request : PartitionPruneRequest)
      (key : Value) (child : Bytes)
      → All (OfBound t) partitions
      → OfType t key
      → All (OfConstraint t) request
      → All (λ c. satisfies fl key c ≡ true) request
      → first_range fl key partitions ≡ some child
      → member child (prune_ranges fl request partitions) ≡ true
  unfolding first_range prune_ranges member
  member-prune_ranges t [] request key child hb hk hc s h = absurd (ground (arith, h))
  member-prune_ranges t (part ∷ partitions) request key child hb hk hc s h =
      elim (Bool-cases (is_range_of fl key part)) [
        | inl here ↦
            let same : part.child_table_name ≡ child = ground (arith, here, h) in
            ground (
              arith,
              range_of-included t part request key hb.0 hk hc here s,
              (bytes_beq_iff part.child_table_name child).1 same,
            )
        | inr there ↦
            let rest : first_range fl key partitions ≡ some child = ground (arith, there, h) in
            ground (arith, member-prune_ranges t partitions request key child hb.1 hk hc s rest)
      ]

  -- The constraint that fixes the key fixes it to this one.
  equal_key-satisfies :
      (t : DataType) (request : PartitionPruneRequest) (key v : Value)
      → OfType t key
      → All (OfConstraint t) request
      → All (λ c. satisfies fl key c ≡ true) request
      → equal_key request ≡ some v
      → key ≡ v
  unfolding equal_key satisfies
  equal_key-satisfies t [] key v hk hc s h = absurd (ground (arith, h))
  equal_key-satisfies t (c ∷ request) key v hk hc s h =
      go c.op c.lower c.upper c.lower_inclusive c.upper_inclusive hc.0 s.0
        (equal_key-satisfies t request key v hk hc.1 s.1) h
    where
      go :
          (op : Op) (lower upper : Value) (li ui : Bool)
          → (let d : PartitionPruneConstraint = record {
            op = op;
            lower = lower;
            upper = upper;
            lower_inclusive = li;
            upper_inclusive = ui;
          } in
              OfConstraint t d
              → satisfies fl key d ≡ true
              → (equal_key request ≡ some v → key ≡ v)
              → equal_key (d ∷ request) ≡ some v
              → key ≡ v)
      go equal lower upper li ui ho so later h =
          ground (arith, h, (value_eq_iff_of fl t key lower hk ho).0 so)
      go _ lower upper li ui ho so later h = later h

  member-names :
      (partitions : List PartitionDescriptor) (hashed : ℕ) (child : Bytes)
      → first_hash hashed partitions ≡ some child
      → member child (map (λ part. part.child_table_name) partitions) ≡ true
  unfolding first_hash member
  member-names [] hashed child h = absurd (ground (arith, h))
  member-names (part ∷ partitions) hashed child h = elim (Bool-cases (is_hash_of hashed part)) [
    | inl here ↦
        let same : part.child_table_name ≡ child = ground (arith, here, h) in
        ground (arith, (bytes_beq_iff part.child_table_name child).1 same)
    | inr there ↦
        let rest : first_hash hashed partitions ≡ some child = ground (arith, there, h) in
        ground (arith, member-names partitions hashed child rest)
  ]

  member-prune_hashes :
      (t : DataType) (partitions : List PartitionDescriptor) (request : PartitionPruneRequest)
      (key : Value) (child : Bytes)
      → OfType t key
      → All (OfConstraint t) request
      → All (λ c. satisfies fl key c ≡ true) request
      → resolve_hash key partitions ≡ some child
      → member child (prune_hashes request partitions) ≡ true
  unfolding prune_hashes resolve_hash member
  member-prune_hashes t partitions request key child hk hc s h =
      elim (Option-cases (equal_key request)) [
        | inl e ↦
            rw (e, prune_hashes)
              (member-names partitions (compute_partition_hash key) child
                (rw (OfType-is_null t key hk) at h))
        | inr (v, e) ↦
            let same : resolve_hash v partitions ≡ some child =
              rw (← equal_key-satisfies t request key v hk hc s e) h in
            rw (e, same, prune_hashes) (ground (arith, (bytes_beq_iff child child).1 refl))
      ]

  -- The child that holds a key is among the children that are read, when the key satisfies every
  -- constraint, and the key, the bounds and the constraints are of one type.
  pub member-prune :
      (kind : PartitionKind) (t : DataType) (partitions : List PartitionDescriptor)
      (request : PartitionPruneRequest) (key : Value) (child : Bytes)
      → All (OfBound t) partitions
      → OfType t key
      → All (OfConstraint t) request
      → All (λ c. satisfies fl key c ≡ true) request
      → resolve_child fl kind partitions key ≡ some child
      → member child (prune fl kind partitions request) ≡ true
  unfolding resolve_child prune
  member-prune range t partitions request key child hb hk hc s h =
      member-prune_ranges t partitions request key child hb hk hc s
        (rw (OfType-is_null t key hk) at h)
  member-prune hash t partitions request key child hb hk hc s h =
      member-prune_hashes t partitions request key child hk hc s h
