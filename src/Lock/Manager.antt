-- ===== src/Lock/Manager.antt =====
-- `LockManager` of core/lock_manager.{h,cc}. `acquire` waits on a condition variable: one run of its
-- loop is `attempt`, which ends in a grant, a deadlock or a wait, after which other threads run and
-- the loop is tried again.
use custom_sql_database.Prelude.{
  ℕ, zero, suc, Bool, true, false, not, ◌&&◌, ◌||◌, Option, none, some, List, [], ◌∷◌, ◌++◌, ◌==◌,
  Bytes, Eq, nat_eq, bytes_eq, if◌then◌else◌, lookup, insert, erase, member, set_insert, length,
  arith,
}

pub data LockMode : Type 0 where
  shared exclusive : LockMode

abbrev pub is_exclusive : LockMode → Bool
is_exclusive exclusive = true
is_exclusive shared = false

abbrev pub same_mode : LockMode → LockMode → Bool
same_mode shared shared = true
same_mode exclusive exclusive = true
same_mode _ _ = false

pub record LockRequest : Type 0 where
  pub txn_id : ℕ
  pub mode : LockMode
  pub granted : Bool

abbrev pub Queue : Type 0
Queue = List LockRequest

abbrev pub Graph : Type 0
Graph = List (ℕ × List ℕ)

pub record LockManager : Type 0 where
  pub tables : List (Bytes × Queue)
  pub txn_tables : List (ℕ × List Bytes)
  pub wait_for : Graph

abbrev pub init : LockManager
init = record { tables = []; txn_tables = []; wait_for = [] }

-- `m[k]` of a map of lists: a missing entry is empty.
abbrev pub or_empty {ℓ} : {A : Type ℓ} → Option (List A) → List A
or_empty none = []
or_empty (some xs) = xs

unfoldable pub queue_of : Bytes → LockManager → Queue
queue_of key m = or_empty (lookup key m.tables)

-- The first loop of `acquire`: the transaction already holds a lock that is strong enough.
unfoldable pub holds_enough : ℕ → LockMode → Queue → Bool
holds_enough txn mode [] = false
holds_enough txn mode (req ∷ queue) =
    (req.granted && req.txn_id == txn && (is_exclusive req.mode || not (is_exclusive mode)))
    || holds_enough txn mode queue

unfoldable pub can_grant : ℕ → LockMode → Queue → Bool
can_grant txn mode [] = true
can_grant txn mode (req ∷ queue) =
    let rest = can_grant txn mode queue in
    if not req.granted
    then rest
    else if req.txn_id == txn
    then (if not (is_exclusive mode) || is_exclusive req.mode then true else rest)
    else if is_exclusive mode || is_exclusive req.mode
    then false
    else rest

-- The first request of the transaction that is not granted is granted; the loop breaks there.
unfoldable pub grant : ℕ → LockMode → Queue → Queue
grant txn mode [] = []
grant txn mode (req ∷ queue) =
    let rest = grant txn mode queue in
    if req.txn_id == txn && not req.granted
    then record req { granted = true; mode = if is_exclusive mode then exclusive else req.mode }
      ∷ queue
    else req ∷ rest

unfoldable pub holders : Queue → List ℕ
holders [] = []
holders (req ∷ queue) =
    let rest = holders queue in if req.granted then set_insert req.txn_id rest else rest

unfoldable pub add_edge : ℕ → ℕ → Graph → Graph
add_edge from to graph = insert from (set_insert to (or_empty (lookup from graph))) graph

unfoldable pub add_edges : ℕ → List ℕ → Graph → Graph
add_edges txn [] graph = graph
add_edges txn (holder ∷ rest) graph =
    add_edges txn rest (if holder == txn then graph else add_edge txn holder graph)

unfoldable pub queue_edges : List ℕ → Queue → Graph → Graph
queue_edges held [] graph = graph
queue_edges held (req ∷ queue) graph =
    queue_edges held queue (if req.granted then graph else add_edges req.txn_id held graph)

unfoldable pub table_edges : List (Bytes × Queue) → Graph → Graph
table_edges [] graph = graph
table_edges ((_, queue) ∷ tables) graph =
    table_edges tables (queue_edges (holders queue) queue graph)

unfoldable pub rebuild_wait_edges : LockManager → LockManager
unfolding table_edges queue_edges add_edges add_edge holders
rebuild_wait_edges m = record m { wait_for = table_edges m.tables [] }

-- The sets of `has_cycle`, and its answer so far.
pub record Search : Type 0 where
  pub visiting : List ℕ
  pub visited : List ℕ
  pub found : Bool

-- The loop over the successors of a node; it stops at the first cycle.
unfoldable pub visit_all : (ℕ → Search → Search) → List ℕ → Search → Search
visit_all dfs [] s = s
visit_all dfs (next ∷ rest) s =
    let s' = dfs next s in elim s'.found [ true ↦ s' | false ↦ visit_all dfs rest s' ]

abbrev pub without : ℕ → List ℕ → List ℕ
without = custom_sql_database.Prelude.set_erase

abbrev pub leave : ℕ → Search → Search
leave node s = if s.found then s else record {
  visiting = without node s.visiting;
  visited = set_insert node s.visited;
  found = false;
}

-- The nested function of `has_cycle`. Each call adds a node to `visiting`, so the number of nodes
-- bounds the depth.
unfoldable pub dfs : ℕ → Graph → ℕ → Search → Search
dfs zero graph node s = s
dfs (suc fuel) graph node s =
    let entered : Search = record s { visiting = set_insert node s.visiting } in
    let inside = visit_all (dfs fuel graph) (or_empty (lookup node graph)) entered in
    if member node s.visiting
    then record s { found = true }
    else if member node s.visited
    then s
    else leave node inside

abbrev pub new_search : Search
new_search = record { visiting = []; visited = []; found = false }

unfoldable pub has_cycle : Graph → ℕ → Bool
unfolding dfs
has_cycle graph start = (dfs (suc (suc (length graph))) graph start new_search).found

pub data Outcome : Type 0 where
  granted waiting deadlock : Outcome

-- remove_if (txn_id == txn && !granted)
unfoldable pub drop_pending : ℕ → Queue → Queue
drop_pending txn [] = []
drop_pending txn (req ∷ queue) =
    let rest = drop_pending txn queue in
    if req.txn_id == txn && not req.granted then rest else req ∷ rest

abbrev pub set_queue : Bytes → Queue → LockManager → LockManager
set_queue key queue m = record m { tables = insert key queue m.tables }

-- txn_tables_[txn].insert(key)
abbrev pub note_table : ℕ → Bytes → LockManager → LockManager
note_table txn key m = record m {
  txn_tables = insert txn (set_insert key (or_empty (lookup txn m.txn_tables))) m.txn_tables;
}

-- One run of the loop of `acquire`.
unfoldable pub attempt : ℕ → Bytes → LockMode → LockManager → LockManager × Outcome
attempt txn key mode m =
    if can_grant txn mode (queue_of key m)
    then (
      rebuild_wait_edges (note_table txn key (set_queue key (grant txn mode (queue_of key m)) m)),
      granted,
    )
    else if has_cycle (rebuild_wait_edges m).wait_for txn
    then (rebuild_wait_edges (set_queue key (drop_pending txn (queue_of key m)) m), deadlock)
    else (rebuild_wait_edges m, waiting)

-- `acquire` up to its first wait.
unfoldable pub acquire : ℕ → Bytes → LockMode → LockManager → LockManager × Outcome
acquire txn key mode m =
    let request : LockRequest = record { txn_id = txn; mode = mode; granted = false } in
    if holds_enough txn mode (queue_of key m)
    then (note_table txn key m, granted)
    else attempt txn key mode (set_queue key (queue_of key m ++ request ∷ []) m)

-- remove_if (txn_id == txn)
unfoldable pub drop_all : ℕ → Queue → Queue
drop_all txn [] = []
drop_all txn (req ∷ queue) =
    let rest = drop_all txn queue in if req.txn_id == txn then rest else req ∷ rest

-- A table whose queue is empty is erased.
abbrev pub put_or_erase : Bytes → Queue → List (Bytes × Queue) → List (Bytes × Queue)
put_or_erase key [] tables = erase key tables
put_or_erase key (req ∷ queue) tables = insert key (req ∷ queue) tables

unfoldable pub release_table : ℕ → Bytes → List (Bytes × Queue) → List (Bytes × Queue)
unfolding drop_all
release_table txn key tables = elim (lookup key tables) [
  | none ↦ tables
  | some queue ↦ put_or_erase key (drop_all txn queue) tables
]

unfoldable pub release_tables : ℕ → List Bytes → List (Bytes × Queue) → List (Bytes × Queue)
unfolding release_table
release_tables txn [] tables = tables
release_tables txn (key ∷ keys) tables = release_tables txn keys (release_table txn key tables)

unfoldable pub release_all : ℕ → LockManager → LockManager
release_all txn m = rebuild_wait_edges (elim (lookup txn m.txn_tables) [
  | none ↦ m
  | some keys ↦ record m {
    tables = release_tables txn keys m.tables;
    txn_tables = erase txn m.txn_tables;
  }
])
