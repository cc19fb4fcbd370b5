-- ===== src/Partition/Metadata.antt =====
-- `PartitionedTableMetadata` of core/partition.cc. The strings of the errors are constructors.
use custom_sql_database.Prelude.{
  pos, int_beq, int_ltb, Bool, true, false, not, ◌||◌, Option, none, some, List, [], ◌∷◌, ◌++◌,
  Bytes, bytes_beq, if◌then◌else◌, any,
}
use custom_sql_database.Types.Compare.{Floats, value_less}
use custom_sql_database.Partition.Bound.{
  PartitionKind, range, hash, RangePartitionBound, HashPartitionBound, PartitionBound,
  PartitionDescriptor,
}
use custom_sql_database.Partition.Router.{ranges_overlap}

pub data PartitionError : Type 0 where
  range_bounds_required min_below_max : PartitionError
  overlaps : Bytes → PartitionError
  modulus_required modulus_positive remainder_in_range modulus_must_match : PartitionError
  remainder_used : Bytes → PartitionError
  empty_name already_exists : PartitionError

pub record PartitionedTableMetadata : Type 0 where
  pub kind : PartitionKind
  pub key_column : Bytes
  pub partitions : List PartitionDescriptor

unfoldable pub has_child_in : Bytes → List PartitionDescriptor → Bool
has_child_in name partitions = any (λ part. bytes_beq part.child_table_name name) partitions

abbrev pub has_child : Bytes → PartitionedTableMetadata → Bool
has_child name meta = has_child_in name meta.partitions

module _ (fl : Floats) where
  abbrev pub overlaps_with : RangePartitionBound → PartitionDescriptor → Bool
  overlaps_with bound existing = elim existing.bound.range_bound [
    | none ↦ false
    | some other ↦ ranges_overlap fl bound other
  ]

  -- The loops over the existing partitions; `none` is no error.
  unfoldable pub check_overlaps :
      RangePartitionBound → List PartitionDescriptor → Option PartitionError
  check_overlaps bound [] = none
  check_overlaps bound (existing ∷ partitions) =
      let rest = check_overlaps bound partitions in
      if overlaps_with bound existing then some (overlaps existing.child_table_name) else rest

  abbrev pub validate_range : PartitionBound → List PartitionDescriptor → Option PartitionError
  validate_range bound partitions = elim bound.range_bound [
    | none ↦ some range_bounds_required
    | some r ↦ elim bound.hash_bound [
      | some h ↦ some range_bounds_required
      | none ↦
          if not (value_less fl r.min_inclusive r.max_exclusive)
          then some min_below_max
          else check_overlaps r partitions
    ]
  ]

abbrev check_remainder : HashPartitionBound → PartitionDescriptor → Option PartitionError
check_remainder bound existing = elim existing.bound.hash_bound [
  | none ↦ none
  | some other ↦
      if not (int_beq other.modulus bound.modulus)
      then some modulus_must_match
      else if int_beq other.remainder bound.remainder
      then some (remainder_used existing.child_table_name)
      else none
]

unfoldable pub check_remainders :
    HashPartitionBound → List PartitionDescriptor → Option PartitionError
check_remainders bound [] = none
check_remainders bound (existing ∷ partitions) =
    let rest = check_remainders bound partitions in
    elim (check_remainder bound existing) [ some e ↦ some e | none ↦ rest ]

abbrev pub validate_hash : PartitionBound → List PartitionDescriptor → Option PartitionError
validate_hash bound partitions = elim bound.hash_bound [
  | none ↦ some modulus_required
  | some h ↦ elim bound.range_bound [
    | some r ↦ some modulus_required
    | none ↦
        if not (int_ltb (pos 0) h.modulus)
        then some modulus_positive
        else if int_ltb h.remainder (pos 0) || not (int_ltb h.remainder h.modulus)
        then some remainder_in_range
        else check_remainders h partitions
  ]
]

abbrev pub is_empty_name : Bytes → Bool
is_empty_name [] = true
is_empty_name (b ∷ bs) = false

module _ (fl : Floats) where
  unfoldable pub validate_new_bound :
      PartitionBound → PartitionedTableMetadata → Option PartitionError
  unfolding check_overlaps check_remainders
  validate_new_bound bound meta = elim meta.kind [
    | range ↦ validate_range fl bound meta.partitions
    | hash ↦ validate_hash bound meta.partitions
  ]

  -- The error, and the state behind the call.
  unfoldable pub add_partition :
      PartitionDescriptor
      → PartitionedTableMetadata
      → Option PartitionError × PartitionedTableMetadata
  unfolding validate_new_bound has_child_in
  add_partition descriptor meta =
      if is_empty_name descriptor.child_table_name
      then (some empty_name, meta)
      else if has_child descriptor.child_table_name meta
      then (some already_exists, meta)
      else elim (validate_new_bound descriptor.bound meta) [
        | some e ↦ (some e, meta)
        | none ↦ (
          none,
          record {
            kind = meta.kind;
            key_column = meta.key_column;
            partitions = meta.partitions ++ descriptor ∷ [];
          },
        )
      ]

-- The first descriptor of the name is erased.
unfoldable pub erase_child : Bytes → List PartitionDescriptor → List PartitionDescriptor
erase_child name [] = []
erase_child name (part ∷ partitions) =
    let rest = erase_child name partitions in
    if bytes_beq part.child_table_name name then partitions else part ∷ rest

-- Whether the name was known, and the state behind the call.
unfoldable pub remove_partition : Bytes → PartitionedTableMetadata → Bool × PartitionedTableMetadata
unfolding has_child_in erase_child
remove_partition name meta =
    if has_child name meta
    then (
      true,
      record {
        kind = meta.kind;
        key_column = meta.key_column;
        partitions = erase_child name meta.partitions;
      },
    )
    else (false, meta)
