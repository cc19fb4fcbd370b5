-- ===== src/Partition/Constraint.antt =====
-- The constraints of a prune request (core/partition.cc): what they say of a key, and that a range with
-- a key that satisfies them is not excluded.
use custom_sql_database.Prelude.{
  ◌≡◌, refl, ap, Bool, true, not, ◌&&◌, none, some, [], ◌∷◌, arith, bytes_eq, if◌then◌else◌, All,
  all,
}
use custom_sql_database.Types.Value.{DataType, Value}
use custom_sql_database.Types.Compare.{Floats, value_eq, value_less, value_le, value_greater}
use custom_sql_database.Types.Order.{
  OfType, value-IsOrder, le-less, less_le, le_trans, less-greater,
}
use custom_sql_database.Partition.Bound.{
  RangePartitionBound, PartitionDescriptor, Op, equal, less, less_equal, greater, greater_equal,
  between, PartitionPruneConstraint, PartitionPruneRequest,
}
use custom_sql_database.Partition.Router.{range_contains, range_intersects_constraint}

-- The values that a constraint compares with are of the type of the key.
abbrev pub OfConstraint : DataType → PartitionPruneConstraint → Type 0
OfConstraint t c = elim c.op [
  | equal ↦ OfType t c.lower
  | less ↦ OfType t c.upper
  | less_equal ↦ OfType t c.upper
  | greater ↦ OfType t c.lower
  | greater_equal ↦ OfType t c.lower
  | between ↦ OfType t c.lower × OfType t c.upper
]

-- The bounds of a range are of the type of the key.
abbrev pub OfBound : DataType → PartitionDescriptor → Type 0
OfBound t part = elim part.bound.range_bound [
  | none ↦ Unit
  | some r ↦ OfType t r.min_inclusive × OfType t r.max_exclusive
]

module _ (fl : Floats) where
  -- What the constraint says of the key.
  unfoldable pub satisfies : Value → PartitionPruneConstraint → Bool
  satisfies key c = elim c.op [
    | equal ↦ value_eq fl key c.lower
    | less ↦ value_less fl key c.upper
    | less_equal ↦ value_le fl key c.upper
    | greater ↦ value_less fl c.lower key
    | greater_equal ↦ value_le fl c.lower key
    | between ↦
        (if c.lower_inclusive then value_le fl c.lower key else value_less fl c.lower key)
        && (if c.upper_inclusive then value_le fl key c.upper else value_less fl key c.upper)
  ]

  greater-not_le : (a b : Value) → value_greater fl a b ≡ true → not (value_le fl a b) ≡ true
  unfolding value_greater
  greater-not_le a b h = h

  -- A constraint that a key of the range satisfies does not exclude the range.
  satisfies-intersects :
      (t : DataType) (r : RangePartitionBound) (c : PartitionPruneConstraint) (key : Value)
      → OfType t r.min_inclusive
      → OfType t r.max_exclusive
      → OfType t key
      → OfConstraint t c
      → range_contains fl r key ≡ true
      → satisfies key c ≡ true
      → range_intersects_constraint fl r c ≡ true
  unfolding satisfies range_contains range_intersects_constraint
  satisfies-intersects t r c key hmin hmax hk hc h s =
      go c.op c.lower c.upper c.lower_inclusive c.upper_inclusive hc s
    where
      go :
          (op : Op) (lower upper : Value) (li ui : Bool)
          → (let d : PartitionPruneConstraint = record {
            op = op;
            lower = lower;
            upper = upper;
            lower_inclusive = li;
            upper_inclusive = ui;
          } in
              OfConstraint t d → satisfies key d ≡ true → range_intersects_constraint fl r d ≡ true)
      go equal lower upper li ui hc s = ground (
        arith,
        h,
        (value-IsOrder fl t).eq_iff key lower hk hc,
        s,
        λ (e : key ≡ lower). ap (λ v. range_contains fl r v) e,
      )
      go less lower upper li ui hc s = ground (
        arith,
        h,
        s,
        le-less fl t r.min_inclusive key upper hmin hk hc,
        less_le fl t r.min_inclusive upper,
      )
      go less_equal lower upper li ui hc s =
          ground (arith, h, s, le_trans fl t r.min_inclusive key upper hmin hk hc)
      go greater lower upper li ui hc s = ground (
        arith,
        h,
        s,
        (value-IsOrder fl t).less_trans lower key r.max_exclusive hc hk hmax,
        less-greater fl t lower r.max_exclusive hc hmax,
        greater-not_le r.max_exclusive lower,
      )
      go greater_equal lower upper li ui hc s = ground (
        arith,
        h,
        s,
        le-less fl t lower key r.max_exclusive hc hk hmax,
        less-greater fl t lower r.max_exclusive hc hmax,
      )
      go between lower upper li ui hc s = ground (
        arith,
        h,
        s,
        le-less fl t lower key r.max_exclusive hc.0 hk hmax,
        (value-IsOrder fl t).less_trans lower key r.max_exclusive hc.0 hk hmax,
        less-greater fl t lower r.max_exclusive hc.0 hmax,
        greater-not_le r.max_exclusive lower,
        le_trans fl t r.min_inclusive key upper hmin hk hc.1,
        le-less fl t r.min_inclusive key upper hmin hk hc.1,
        less_le fl t r.min_inclusive upper,
      )

  pub all-intersects :
      (t : DataType) (r : RangePartitionBound) (request : PartitionPruneRequest) (key : Value)
      → OfType t r.min_inclusive
      → OfType t r.max_exclusive
      → OfType t key
      → All (OfConstraint t) request
      → range_contains fl r key ≡ true
      → All (λ c. satisfies key c ≡ true) request
      → all (range_intersects_constraint fl r) request ≡ true
  all-intersects t r [] key hmin hmax hk hc h s = refl
  all-intersects t r (c ∷ request) key hmin hmax hk hc h s = ground (
    arith,
    satisfies-intersects t r c key hmin hmax hk hc.0 h s.0,
    all-intersects t r request key hmin hmax hk hc.1 h s.1,
  )
