-- ===== src/Partition/Disjoint.antt =====
-- The partitions of core/partition.cc do not meet: what `addPartition` and `removePartition` keep, and
-- that a key has one child at most.
use custom_sql_database.Prelude.{
  All-append, ◌≡◌, pos, int_beq, int_ltb, Bool, true, false, not, ◌&&◌, none, some, List, [], ◌∷◌,
  ◌++◌, arith, Bytes, bytes_beq, All, Bool-cases, Option-cases, inl, inr,
}
use custom_sql_database.Types.Compare.{Floats, value_less}
use custom_sql_database.Partition.Bound.{
  PartitionKind, range, hash, RangePartitionBound, HashPartitionBound, PartitionBound,
  PartitionDescriptor,
}
use custom_sql_database.Partition.Router.{ranges_overlap}
use custom_sql_database.Partition.Metadata.{
  PartitionedTableMetadata, is_empty_name, has_child_in, check_overlaps, validate_range,
  check_remainders, validate_hash, validate_new_bound, add_partition, erase_child, remove_partition,
}

-- Every two elements are related, the earlier one first.
abbrev pub Pairwise : {A : Type 0} → (A → A → Type 0) → List A → Type 0
Pairwise R [] = Unit
Pairwise R (x ∷ xs) = All (R x) xs × Pairwise R xs

Pairwise-snoc :
    {A : Type 0} (R : A → A → Type 0) (xs : List A) (y : A)
    → Pairwise R xs
    → All (λ x. R x y) xs
    → Pairwise R (xs ++ y ∷ [])
Pairwise-snoc R [] y h k = (tt, tt)
Pairwise-snoc R (x ∷ xs) y h k =
    (All-append (R x) xs (y ∷ []) h.0 (k.0, tt), Pairwise-snoc R xs y h.1 k.1)

module _ (fl : Floats) where
  -- The bound is one of the kind, and not empty.
  abbrev pub is_bound_of : PartitionKind → PartitionBound → Bool
  is_bound_of range bound = elim bound.range_bound [
    | none ↦ false
    | some r ↦ value_less fl r.min_inclusive r.max_exclusive
  ]
  is_bound_of hash bound = elim bound.hash_bound [
    | none ↦ false
    | some h ↦
        int_ltb (pos 0) h.modulus
        && (not (int_ltb h.remainder (pos 0)) && int_ltb h.remainder h.modulus)
  ]

  abbrev hashes_apart : HashPartitionBound → HashPartitionBound → Bool
  hashes_apart a b = int_beq a.modulus b.modulus && not (int_beq a.remainder b.remainder)

  -- No key is in both.
  abbrev pub are_apart : PartitionKind → PartitionBound → PartitionBound → Bool
  are_apart range a b = elim a.range_bound [
    | none ↦ false
    | some r ↦ elim b.range_bound [ none ↦ false | some s ↦ not (ranges_overlap fl r s) ]
  ]
  are_apart hash a b = elim a.hash_bound [
    | none ↦ false
    | some h ↦ elim b.hash_bound [ none ↦ false | some g ↦ hashes_apart h g ]
  ]

  pub record AreApart (kind : PartitionKind) (p q : PartitionDescriptor) : Type 0 where
    pub names : bytes_beq p.child_table_name q.child_table_name ≡ false
    pub bounds : are_apart kind p.bound q.bound ≡ true

  -- The children have bounds of the kind, which do not meet, and different names.
  pub record IsPartitioned (kind : PartitionKind) (partitions : List PartitionDescriptor)
      : Type 0 where
    pub bounded : All (λ p. is_bound_of kind p.bound ≡ true) partitions
    pub apart : Pairwise (AreApart kind) partitions

  check_overlaps-apart :
      (r : RangePartitionBound) (b : PartitionBound) (partitions : List PartitionDescriptor)
      → b.range_bound ≡ some r
      → All (λ p. is_bound_of range p.bound ≡ true) partitions
      → check_overlaps fl r partitions ≡ none
      → All (λ p. are_apart range p.bound b ≡ true) partitions
  unfolding check_overlaps ranges_overlap
  check_overlaps-apart r b [] here bs h = tt
  check_overlaps-apart r b (p ∷ partitions) here bs h = elim (Option-cases p.bound.range_bound) [
    | inl e ↦ absurd (ground (arith, bs.0, e))
    | inr (s, e) ↦ ground (arith, e, here, bs.0, h, check_overlaps-apart r b partitions here bs.1)
  ]

  check_remainders-apart :
      (g : HashPartitionBound) (b : PartitionBound) (partitions : List PartitionDescriptor)
      → b.hash_bound ≡ some g
      → All (λ p. is_bound_of hash p.bound ≡ true) partitions
      → check_remainders g partitions ≡ none
      → All (λ p. are_apart hash p.bound b ≡ true) partitions
  unfolding check_remainders
  check_remainders-apart g b [] here bs h = tt
  check_remainders-apart g b (p ∷ partitions) here bs h = elim (Option-cases p.bound.hash_bound) [
    | inl e ↦ absurd (ground (arith, bs.0, e))
    | inr (s, e) ↦ ground (arith, e, here, bs.0, h, check_remainders-apart g b partitions here bs.1)
  ]

  abbrev Fits : PartitionKind → PartitionBound → List PartitionDescriptor → Type 0
  Fits kind b partitions =
      (is_bound_of kind b ≡ true) × All (λ p. are_apart kind p.bound b ≡ true) partitions

  -- A bound that passes the tests meets none of the others.
  validate_range-Fits :
      (b : PartitionBound) (partitions : List PartitionDescriptor)
      → All (λ p. is_bound_of range p.bound ≡ true) partitions
      → validate_range fl b partitions ≡ none
      → Fits range b partitions
  validate_range-Fits b partitions bs h = elim (Option-cases b.range_bound) [
    | inl e ↦ absurd (ground (arith, e, h))
    | inr (r, e) ↦ elim (Option-cases b.hash_bound) [
      | inr (g, e') ↦ absurd (ground (arith, e, e', h))
      | inl e' ↦
          let valid : value_less fl r.min_inclusive r.max_exclusive ≡ true =
            ground (arith, e, e', h) in
          (rw e valid, check_overlaps-apart r b partitions e bs (ground (arith, e, e', valid, h)))
    ]
  ]

  validate_hash-Fits :
      (b : PartitionBound) (partitions : List PartitionDescriptor)
      → All (λ p. is_bound_of hash p.bound ≡ true) partitions
      → validate_hash b partitions ≡ none
      → Fits hash b partitions
  validate_hash-Fits b partitions bs h = elim (Option-cases b.hash_bound) [
    | inl e ↦ absurd (ground (arith, e, h))
    | inr (g, e) ↦ elim (Option-cases b.range_bound) [
      | inr (r, e') ↦ absurd (ground (arith, e, e', h))
      | inl e' ↦
          let valid : is_bound_of hash b ≡ true = ground (arith, e, e', h) in
          (
            valid,
            check_remainders-apart g b partitions e bs (ground (arith, e, e', rw e at valid, h)),
          )
    ]
  ]

  abbrev pub AllPartitioned : PartitionedTableMetadata → Type 0
  AllPartitioned meta = IsPartitioned meta.kind meta.partitions

  validate-Fits :
      (kind : PartitionKind) (b : PartitionBound) (column : Bytes)
      (partitions : List PartitionDescriptor)
      → All (λ p. is_bound_of kind p.bound ≡ true) partitions
      → validate_new_bound fl b
          (record { kind = kind; key_column = column; partitions = partitions })
        ≡ none
      → Fits kind b partitions
  unfolding validate_new_bound
  validate-Fits range b column partitions bs h = validate_range-Fits b partitions bs h
  validate-Fits hash b column partitions bs h = validate_hash-Fits b partitions bs h

  has_child_in-names :
      (name : Bytes) (partitions : List PartitionDescriptor)
      → has_child_in name partitions ≡ false
      → All (λ p. bytes_beq p.child_table_name name ≡ false) partitions
  unfolding has_child_in
  has_child_in-names name [] h = tt
  has_child_in-names name (p ∷ partitions) h =
      (ground (arith, h), has_child_in-names name partitions (ground (arith, h)))

  zip-AreApart :
      (kind : PartitionKind) (d : PartitionDescriptor) (partitions : List PartitionDescriptor)
      → All (λ p. bytes_beq p.child_table_name d.child_table_name ≡ false) partitions
      → All (λ p. are_apart kind p.bound d.bound ≡ true) partitions
      → All (λ p. AreApart kind p d) partitions
  zip-AreApart kind d [] ns bs = tt
  zip-AreApart kind d (p ∷ partitions) ns bs =
      (record { names = ns.0; bounds = bs.0 }, zip-AreApart kind d partitions ns.1 bs.1)

  IsPartitioned-snoc :
      (kind : PartitionKind) (partitions : List PartitionDescriptor) (d : PartitionDescriptor)
      → IsPartitioned kind partitions
      → is_bound_of kind d.bound ≡ true
      → All (λ p. AreApart kind p d) partitions
      → IsPartitioned kind (partitions ++ d ∷ [])
  IsPartitioned-snoc kind partitions d i b h = record {
    bounded =
        All-append (λ p. is_bound_of kind p.bound ≡ true) partitions (d ∷ []) i.bounded (b, tt);
    apart = Pairwise-snoc (AreApart kind) partitions d i.apart h;
  }

  -- `addPartition` keeps the partitions of a parent well formed, whether it accepts or refuses
  -- the new one: every child has a non-empty bound of the parent's kind, ranges do not overlap,
  -- hash bounds share one positive modulus and differ in their remainders, and the names differ.
  pub add_partition-IsPartitioned :
      (d : PartitionDescriptor) (meta : PartitionedTableMetadata)
      → AllPartitioned meta
      → AllPartitioned (add_partition fl d meta).1
  unfolding add_partition
  add_partition-IsPartitioned d meta i = elim (Bool-cases (is_empty_name d.child_table_name)) [
    | inl e ↦ rw e i
    | inr ne ↦ elim (Bool-cases (has_child_in d.child_table_name meta.partitions)) [
      | inl e ↦ rw (ne, e) i
      | inr nc ↦ elim (Option-cases (validate_new_bound fl d.bound meta)) [
        | inr (r, e) ↦ rw (ne, nc, e) i
        | inl e ↦
            let fits =
              validate-Fits meta.kind d.bound meta.key_column meta.partitions i.bounded e in
            rw (ne, nc, e)
              (IsPartitioned-snoc meta.kind meta.partitions d i fits.0 (
                zip-AreApart meta.kind d meta.partitions
                  (has_child_in-names d.child_table_name meta.partitions nc) fits.1))
      ]
    ]
  ]

  erase_child-All :
      (P : PartitionDescriptor → Type 0) (name : Bytes) (partitions : List PartitionDescriptor)
      → All P partitions
      → All P (erase_child name partitions)
  unfolding erase_child
  erase_child-All P name [] h = tt
  erase_child-All P name (p ∷ partitions) h =
      elim (Bool-cases (bytes_beq p.child_table_name name)) [
        | inl e ↦ rw e h.1
        | inr e ↦ rw e (h.0, erase_child-All P name partitions h.1)
      ]

  erase_child-Pairwise :
      (kind : PartitionKind) (name : Bytes) (partitions : List PartitionDescriptor)
      → Pairwise (AreApart kind) partitions
      → Pairwise (AreApart kind) (erase_child name partitions)
  unfolding erase_child
  erase_child-Pairwise kind name [] h = tt
  erase_child-Pairwise kind name (p ∷ partitions) h =
      elim (Bool-cases (bytes_beq p.child_table_name name)) [
        | inl e ↦ rw e h.1
        | inr e ↦ rw e (
          erase_child-All (AreApart kind p) name partitions h.0,
          erase_child-Pairwise kind name partitions h.1,
        )
      ]

  pub remove_partition-IsPartitioned :
      (name : Bytes) (meta : PartitionedTableMetadata)
      → AllPartitioned meta
      → AllPartitioned (remove_partition name meta).1
  unfolding remove_partition
  remove_partition-IsPartitioned name meta i =
      elim (Bool-cases (has_child_in name meta.partitions)) [
        | inl e ↦ rw e (record {
          bounded =
              erase_child-All (λ p. is_bound_of meta.kind p.bound ≡ true) name meta.partitions
                i.bounded;
          apart = erase_child-Pairwise meta.kind name meta.partitions i.apart;
        })
        | inr e ↦ rw e i
      ]
