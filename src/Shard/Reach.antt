-- ===== src/Shard/Reach.antt =====
-- A query is sent to the worker that holds the rows it asks for: core/partition.cc, core/shard_map.cc and
-- core/shard_router.cc together.
use custom_sql_database.Prelude.{
  Among, ◌≡◌, refl, ap, ◌∙◌, ℤ, int_eq, int_beq, int_beq_iff, true, false, some, List, [], ◌∷◌,
  arith, Bytes, bytes_eq, bytes_beq, bytes_beq_iff, All, ◌⊎◌, inl, inr, lookup, member,
  Option-cases, Bool-cases,
}
use custom_sql_database.Types.Value.{DataType, Value}
use custom_sql_database.Types.Compare.{Floats}
use custom_sql_database.Types.Order.{OfType}
use custom_sql_database.Partition.Bound.{PartitionKind, PartitionDescriptor, PartitionPruneRequest}
use custom_sql_database.Partition.Router.{resolve_child, prune}
use custom_sql_database.Partition.Constraint.{OfBound, OfConstraint, satisfies}
use custom_sql_database.Partition.Prune.{member-prune}
use custom_sql_database.Shard.Map.{
  ShardEndpoint, ShardMap, ShardResult, found, failed, no_children, ordered_insert,
  lookup-ordered_insert, values, find_shard_id, find_endpoint, collect_endpoints, resolve_children,
}
use custom_sql_database.Shard.Router.{resolve_child_name, resolve_key, resolve_prune}

Among-values :
    (id : ℤ) (e : ShardEndpoint) (m : List (ℤ × ShardEndpoint))
    → lookup id m ≡ some e
    → Among e (values m)
unfolding lookup
Among-values id e [] h = absurd (ground (arith, h))
Among-values id e ((j, d) ∷ m) h = elim (Bool-cases (int_beq j id)) [
  | inl same ↦ inl (ground (arith, same, h))
  | inr other ↦ inr (Among-values id e m (ground (arith, other, h)))
]

-- The entries of the map that the loop builds stay, since an id has one endpoint.
collect_endpoints-kept :
    (m : ShardMap) (children : List Bytes) (acc result : List (ℤ × ShardEndpoint)) (id : ℤ)
    (e : ShardEndpoint)
    → find_endpoint id m ≡ some e
    → lookup id acc ≡ some e
    → collect_endpoints m children acc ≡ found result
    → lookup id result ≡ some e
unfolding collect_endpoints
collect_endpoints-kept m [] acc result id e h k c = ground (arith, k, c)
collect_endpoints-kept m (child ∷ children) acc result id e h k c =
    elim (Option-cases (find_shard_id child m)) [
      | inl out ↦ absurd (ground (arith, out, c))
      | inr (j, at) ↦ elim (Option-cases (find_endpoint j m)) [
        | inl out ↦ absurd (ground (arith, at, out, c))
        | inr (d, there) ↦
            collect_endpoints-kept m children (ordered_insert j d acc) result id e h
              (keeps j d there (Bool-cases (int_beq j id))) (rw (collect_endpoints, at, there) at c)
      ]
    ]
  where
    keeps :
        (j : ℤ) (d : ShardEndpoint)
        → find_endpoint j m ≡ some d
        → (int_beq j id ≡ true) ⊎ (int_beq j id ≡ false)
        → lookup id (ordered_insert j d acc) ≡ some e
    keeps j d there (inl same) = ground (
      arith,
      same,
      h,
      there,
      lookup-ordered_insert j id d acc,
      ap (λ i. find_endpoint i m) ((int_beq_iff j id).0 same),
    )
    keeps j d there (inr other) = ground (arith, other, k, lookup-ordered_insert j id d acc)

collect_endpoints-has :
    (m : ShardMap) (children : List Bytes) (acc result : List (ℤ × ShardEndpoint)) (child : Bytes)
    (id : ℤ) (e : ShardEndpoint)
    → find_shard_id child m ≡ some id
    → find_endpoint id m ≡ some e
    → member child children ≡ true
    → collect_endpoints m children acc ≡ found result
    → lookup id result ≡ some e
unfolding collect_endpoints member
collect_endpoints-has m [] acc result child id e s h k c = absurd (ground (arith, k))
collect_endpoints-has m (d ∷ children) acc result child id e s h k c =
    elim (Option-cases (find_shard_id d m)) [
      | inl out ↦ absurd (ground (arith, out, c))
      | inr (j, at) ↦ elim (Option-cases (find_endpoint j m)) [
        | inl out ↦ absurd (ground (arith, at, out, c))
        | inr (f, there) ↦
            let c' = rw (collect_endpoints, at, there) at c in
            elim (Bool-cases (bytes_beq d child)) [
              | inr other ↦
                  collect_endpoints-has m children (ordered_insert j f acc) result child id e s h
                    (ground (arith, other, k)) c'
              | inl same ↦
                  let here = ap (λ n. find_shard_id n m) ((bytes_beq_iff d child).0 same) in
                  let id_same : j ≡ id = ground (arith, here, at, s) in
                  let e_same : f ≡ e =
                    ground (arith, ap (λ i. find_endpoint i m) id_same, there, h) in
                  collect_endpoints-kept m children (ordered_insert j f acc) result id e h
                    (ground (
                      arith,
                      lookup-ordered_insert j id f acc,
                      (int_beq_iff j id).1 id_same,
                      e_same,
                    ))
                    c'
            ]
      ]
    ]

resolve_children-has :
    (m : ShardMap) (children : List Bytes) (child : Bytes) (id : ℤ) (e : ShardEndpoint)
    (endpoints : List ShardEndpoint)
    → find_shard_id child m ≡ some id
    → find_endpoint id m ≡ some e
    → member child children ≡ true
    → resolve_children children m ≡ found endpoints
    → Among e endpoints
unfolding resolve_children
resolve_children-has m children child id e endpoints s h k p =
    go (collect_endpoints m children []) refl p
  where
    go :
        (r : ShardResult (List (ℤ × ShardEndpoint)))
        → collect_endpoints m children [] ≡ r
        → (elim r [ failed x ↦ failed x | found acc ↦ found (values acc) ]) ≡ found endpoints
        → Among e endpoints
    go (failed x) c q = absurd (ground (arith, q))
    go (found acc) c q =
        let same : values acc ≡ endpoints = ground (arith, q) in
        rw (← same)
          (Among-values id e acc (collect_endpoints-has m children [] acc child id e s h k c))

-- The placement and the worker behind a name that is resolved.
resolve_child_name-found :
    (child : Bytes) (m : ShardMap) (e : ShardEndpoint)
    → resolve_child_name child m ≡ found e
    → (id : ℤ) × (find_shard_id child m ≡ some id) × (find_endpoint id m ≡ some e)
unfolding resolve_child_name
resolve_child_name-found child m e h = elim (Option-cases (find_shard_id child m)) [
  | inl out ↦ absurd (ground (arith, out, h))
  | inr (id, at) ↦ elim (Option-cases (find_endpoint id m)) [
    | inl out ↦ absurd (ground (arith, at, out, h))
    | inr (f, there) ↦
        let same : f ≡ e = ground (arith, at, there, h) in (id, at, there ∙ ap some same)
  ]
]

resolve_prune-children :
    (children : List Bytes) (m : ShardMap) (endpoints : List ShardEndpoint)
    → (elim children [ [] ↦ failed no_children | c ∷ cs ↦ resolve_children (c ∷ cs) m ])
      ≡ found endpoints
    → resolve_children children m ≡ found endpoints
resolve_prune-children [] m endpoints p = absurd (ground (arith, p))
resolve_prune-children (c ∷ cs) m endpoints p = p

module _ (fl : Floats) (kind : PartitionKind) (t : DataType)
    (partitions : List PartitionDescriptor) where
  -- If a key satisfies every constraint of a query and is routed to a worker, and the query is
  -- routed to a list of workers, then that worker is in the list; the key, the range bounds and
  -- the constants of the constraints are of one type and not NULL.
  pub resolve_prune-reaches :
      (request : PartitionPruneRequest) (key : Value) (m : ShardMap) (e : ShardEndpoint)
      (endpoints : List ShardEndpoint)
      → All (OfBound t) partitions
      → OfType t key
      → All (OfConstraint t) request
      → All (λ c. satisfies fl key c ≡ true) request
      → resolve_key fl kind partitions key m ≡ found e
      → resolve_prune fl kind partitions request m ≡ found endpoints
      → Among e endpoints
  unfolding resolve_key resolve_prune
  resolve_prune-reaches request key m e endpoints hb hk hc s k p =
      elim (Option-cases (resolve_child fl kind partitions key)) [
        | inl out ↦ absurd (ground (arith, out, k))
        | inr (child, at) ↦
            let (id, placed, there) = resolve_child_name-found child m e (ground (arith, at, k)) in
            resolve_children-has m (prune fl kind partitions request) child id e endpoints placed
              there (member-prune fl kind t partitions request key child hb hk hc s at)
              (resolve_prune-children (prune fl kind partitions request) m endpoints p)
      ]
