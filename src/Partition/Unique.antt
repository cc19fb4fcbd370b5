-- ===== src/Partition/Unique.antt =====
-- A key has one child at most: the routing of core/partition.cc finds the one that accepts the key.
use custom_sql_database.Prelude.{
  All-append_right, ℕ, ◌%◌, ◌≡◌, refl, sym, ap, ◌∙◌, ℤ, pos, int_beq, int_beq_iff, Bool, true,
  false, Option, some, List, [], ◌∷◌, ◌++◌, arith, Bytes, if◌then◌else◌, All, Bool-cases,
  Option-cases, inl, inr,
}
use custom_sql_database.Types.Value.{DataType, Value}
use custom_sql_database.Types.Compare.{Floats}
use custom_sql_database.Types.Order.{OfType, OfType-is_null, le-less}
use custom_sql_database.Partition.Bound.{
  PartitionKind, range, hash, RangePartitionBound, PartitionDescriptor,
}
use custom_sql_database.Partition.Hash.{compute_partition_hash}
use custom_sql_database.Partition.Router.{
  ranges_overlap, range_contains, is_range_of, first_range, is_hash_of, is_remainder, first_hash,
  resolve_hash, resolve_child,
}
use custom_sql_database.Partition.Disjoint.{AreApart, are_apart, IsPartitioned, Pairwise}
use custom_sql_database.Partition.Constraint.{OfBound}

module _ (fl : Floats) where
  -- The child takes the rows of the key.
  abbrev pub accepts : PartitionKind → Value → PartitionDescriptor → Bool
  accepts range key part = is_range_of fl key part
  accepts hash key part = is_hash_of (compute_partition_hash key) part

  overlap-meets :
      (t : DataType) (r s : RangePartitionBound) (key : Value)
      → OfType t r.min_inclusive × OfType t r.max_exclusive
      → OfType t s.min_inclusive × OfType t s.max_exclusive
      → OfType t key
      → range_contains fl r key ≡ true
      → range_contains fl s key ≡ true
      → ranges_overlap fl r s ≡ true
  unfolding ranges_overlap range_contains
  overlap-meets t r s key hr hs hk h k = ground (
    arith,
    h,
    k,
    le-less fl t r.min_inclusive key s.max_exclusive hr.0 hk hs.1,
    le-less fl t s.min_inclusive key r.max_exclusive hs.0 hk hr.1,
  )

  remainder-same :
      (m n r s : ℤ) (hashed : ℕ)
      → is_remainder hashed (record { modulus = m; remainder = r }) ≡ true
      → is_remainder hashed (record { modulus = n; remainder = s }) ≡ true
      → int_beq m n ≡ true
      → int_beq r s ≡ true
  remainder-same (pos m) (pos n) r s hashed h k e =
      let first : int_beq (pos (hashed % m)) r ≡ true = ground (arith, h) in
      let second : int_beq (pos (hashed % n)) s ≡ true = ground (arith, k) in
      let same : m ≡ n = ground (arith, e) in
      (int_beq_iff r s).1 (
        sym ((int_beq_iff _ r).0 first)
        ∙ ap (λ x. pos (hashed % x)) same
        ∙ (int_beq_iff _ s).0 second)
  remainder-same _ _ r s hashed h k e = ground arith

  apart-exclusive :
      (kind : PartitionKind) (t : DataType) (p q : PartitionDescriptor) (key : Value)
      → OfBound t p
      → OfBound t q
      → OfType t key
      → are_apart fl kind p.bound q.bound ≡ true
      → accepts kind key p ≡ true
      → accepts kind key q ≡ false
  apart-exclusive range t p q key hp hq hk h a = elim (Option-cases p.bound.range_bound) [
    | inl e ↦ absurd (ground (arith, e, a))
    | inr (r, e) ↦ elim (Option-cases q.bound.range_bound) [
      | inl e' ↦ rw e' refl
      | inr (s, e') ↦
          let within : range_contains fl r key ≡ true = ground (arith, e, a) in
          ground
            (arith, e, e', within, h, overlap-meets t r s key (rw e at hp) (rw e' at hq) hk within)
    ]
  ]
  apart-exclusive hash t p q key hp hq hk h a = elim (Option-cases p.bound.hash_bound) [
    | inl e ↦ absurd (ground (arith, e, a))
    | inr (r, e) ↦ elim (Option-cases q.bound.hash_bound) [
      | inl e' ↦ rw e' refl
      | inr (s, e') ↦
          let within : is_remainder (compute_partition_hash key) r ≡ true = rw e at a in
          elim (Bool-cases (is_remainder (compute_partition_hash key) s)) [
            | inr out ↦ rw e' out
            | inl both ↦ absurd (
                ground (
                  arith,
                  e,
                  e',
                  h,
                  remainder-same r.modulus s.modulus r.remainder s.remainder
                      (compute_partition_hash key) within both,
                ))
          ]
    ]
  ]

  abbrev first_child : PartitionKind → Value → List PartitionDescriptor → Option Bytes
  first_child range key partitions = first_range fl key partitions
  first_child hash key partitions = first_hash (compute_partition_hash key) partitions

  first_child-step :
      (kind : PartitionKind) (key : Value) (p : PartitionDescriptor) (ps : List PartitionDescriptor)
      → first_child kind key (p ∷ ps)
        ≡ (if accepts kind key p then some p.child_table_name else first_child kind key ps)
  unfolding first_range first_hash
  first_child-step range key p ps = refl
  first_child-step hash key p ps = refl

  first_child-only :
      (kind : PartitionKind) (t : DataType) (before after : List PartitionDescriptor)
      (part : PartitionDescriptor) (key : Value)
      → OfType t key
      → All (OfBound t) (before ++ part ∷ after)
      → Pairwise (AreApart fl kind) (before ++ part ∷ after)
      → accepts kind key part ≡ true
      → first_child kind key (before ++ part ∷ after) ≡ some part.child_table_name
  first_child-only kind t [] after part key hk hb ps a =
      ground (arith, first_child-step kind key part after, a)
  first_child-only kind t (p ∷ before) after part key hk hb ps a =
      let far : AreApart fl kind p part =
        (All-append_right (AreApart fl kind p) before (part ∷ after) ps.0).0 in
      let bound = (All-append_right (OfBound t) before (part ∷ after) hb.1).0 in
      ground (
        arith,
        first_child-step kind key p (before ++ part ∷ after),
        a,
        apart-exclusive kind t p part key hb.0 bound hk far.bounds,
        first_child-only kind t before after part key hk hb.1 ps.1 a,
      )

  -- Among well-formed partitions the router gives a key to the child whose range or remainder
  -- accepts it, wherever that child stands in the list, when the key and the range bounds are of
  -- one type and not NULL.
  pub resolve_child-only :
      (kind : PartitionKind) (t : DataType) (before after : List PartitionDescriptor)
      (part : PartitionDescriptor) (key : Value)
      → OfType t key
      → All (OfBound t) (before ++ part ∷ after)
      → IsPartitioned fl kind (before ++ part ∷ after)
      → accepts kind key part ≡ true
      → resolve_child fl kind (before ++ part ∷ after) key ≡ some part.child_table_name
  unfolding resolve_child resolve_hash
  resolve_child-only range t before after part key hk hb i a =
      rw (OfType-is_null t key hk) (first_child-only range t before after part key hk hb i.apart a)
  resolve_child-only hash t before after part key hk hb i a =
      rw (OfType-is_null t key hk) (first_child-only hash t before after part key hk hb i.apart a)
