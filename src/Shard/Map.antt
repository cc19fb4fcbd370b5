-- ===== src/Shard/Map.antt =====
-- `ShardMap` of core/shard_map.{h,cc}, without the reader of its file. The strings of the errors are
-- constructors. `std::map<int, …>` is an association list in the order of its keys.
use custom_sql_database.Prelude.{
  ℕ, ◌≡◌, ℤ, int_eq, int_beq_iff, int_ltb, Bool, true, false, Option, none, some, List, [], ◌∷◌,
  arith, Bytes, bytes_eq, ◌==◌, if◌then◌else◌, map, lookup, int_beq,
}

pub record ShardEndpoint : Type 0 where
  pub shard_id : ℤ
  pub host : Bytes
  pub port : ℕ

pub record ShardMap : Type 0 where
  pub workers : List (ℤ × ShardEndpoint)
  pub placements : List (Bytes × ℤ)

pub data ShardError : Type 0 where
  no_workers no_placements invalid_endpoint : ShardError
  duplicate_shard_id : ℤ → ShardError
  unknown_shard : Bytes → ℤ → ShardError
  unknown_shard_id : ℤ → ShardError
  no_placement : Bytes → ShardError
  no_partition no_children : ShardError

pub data ShardResult (A : Type 0) : Type 0 where
  found : A → ShardResult A
  failed : ShardError → ShardResult A

-- m[k] = v in the order of the keys.
unfoldable pub ordered_insert : {V : Type 0} → ℤ → V → List (ℤ × V) → List (ℤ × V)
ordered_insert k v [] = (k, v) ∷ []
ordered_insert k v ((j, w) ∷ m) =
    let later = (j, w) ∷ ordered_insert k v m in
    if int_beq j k then (k, v) ∷ m else if int_ltb k j then (k, v) ∷ (j, w) ∷ m else later

pub lookup-ordered_insert :
    {V : Type 0} (k i : ℤ) (v : V) (m : List (ℤ × V))
    → lookup i (ordered_insert k v m) ≡ (if int_beq k i then some v else lookup i m)
unfolding lookup ordered_insert
lookup-ordered_insert k i v [] = ground arith
lookup-ordered_insert k i v ((j, w) ∷ m) =
    ground (arith, lookup-ordered_insert k i v m, int_beq_iff j k, int_beq_iff j i, int_beq_iff k i)

abbrev pub values : {K V : Type 0} → List (K × V) → List V
values m = map (λ e. e.1) m

-- The loop of `validate` over the placements.
unfoldable pub check_placements : List (ℤ × ShardEndpoint) → List (Bytes × ℤ) → Option ShardError
unfolding lookup
check_placements workers [] = none
check_placements workers ((child, id) ∷ placements) =
    let rest = check_placements workers placements in
    elim (lookup id workers) [ none ↦ some (unknown_shard child id) | some e ↦ rest ]

unfoldable pub validate : ShardMap → Option ShardError
unfolding check_placements
validate m = elim m.workers [
  | [] ↦ some no_workers
  | w ∷ ws ↦ elim m.placements [
    | [] ↦ some no_placements
    | p ∷ ps ↦ check_placements m.workers m.placements
  ]
]

abbrev is_invalid : ShardEndpoint → Bool
is_invalid e = elim e.host [ [] ↦ true | b ∷ bs ↦ e.port == 0 ]

-- The loop of `build` over the workers.
unfoldable pub add_workers :
    List ShardEndpoint → List (ℤ × ShardEndpoint) → ShardResult (List (ℤ × ShardEndpoint))
unfolding lookup ordered_insert
add_workers [] acc = found acc
add_workers (e ∷ es) acc =
    let rest = add_workers es (ordered_insert e.shard_id e acc) in
    elim (lookup e.shard_id acc) [
      | some other ↦ failed (duplicate_shard_id e.shard_id)
      | none ↦ if is_invalid e then failed invalid_endpoint else rest
    ]

unfoldable pub build : List ShardEndpoint → List (Bytes × ℤ) → ShardResult ShardMap
unfolding add_workers validate
build workers placements = elim (add_workers workers []) [
  | failed e ↦ failed e
  | found ws ↦
      let m : ShardMap = record { workers = ws; placements = placements } in
      elim (validate m) [ none ↦ found m | some e ↦ failed e ]
]

abbrev pub list_workers : ShardMap → List ShardEndpoint
list_workers m = values m.workers

unfoldable pub find_endpoint : ℤ → ShardMap → Option ShardEndpoint
unfolding lookup
find_endpoint id m = lookup id m.workers

unfoldable pub find_shard_id : Bytes → ShardMap → Option ℤ
unfolding lookup
find_shard_id child m = lookup child m.placements

abbrev pub has_placement : Bytes → ShardMap → Bool
has_placement child m = elim (find_shard_id child m) [ none ↦ false | some id ↦ true ]

abbrev pub first_worker : ShardMap → Option ShardEndpoint
first_worker m = elim m.workers [ [] ↦ none | w ∷ ws ↦ some w.1 ]

-- The loop of `resolveChildren`, with its map of endpoints.
unfoldable pub collect_endpoints :
    ShardMap → List Bytes → List (ℤ × ShardEndpoint) → ShardResult (List (ℤ × ShardEndpoint))
unfolding find_shard_id find_endpoint ordered_insert
collect_endpoints m [] acc = found acc
collect_endpoints m (child ∷ children) acc = elim (find_shard_id child m) [
  | none ↦ failed (no_placement child)
  | some id ↦ elim (find_endpoint id m) [
    | none ↦ failed (unknown_shard_id id)
    | some e ↦ collect_endpoints m children (ordered_insert id e acc)
  ]
]

unfoldable pub resolve_children : List Bytes → ShardMap → ShardResult (List ShardEndpoint)
unfolding collect_endpoints
resolve_children children m = elim (collect_endpoints m children []) [
  | failed e ↦ failed e
  | found acc ↦ found (values acc)
]
