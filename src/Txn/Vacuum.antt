-- ===== src/Txn/Vacuum.antt =====
-- `vacuum_versions` of core/table.cc and `getVacuumHorizon` of core/transaction_manager.cc.
use custom_sql_database.Prelude.{
  ℕ, ◌≤◌, ◌<◌, ◌≡◌, ◌≢◌, refl, true, false, not, ◌&&◌, Option, none, some, List, [], ◌∷◌, arith,
  ◌==◌, ltb, nat_eq, lookup, insert, erase, lookup-insert, member, if◌then◌else◌, All,
}
use custom_sql_database.Row.{Row}
use custom_sql_database.Txn.Manager.{
  TransactionManager, TransactionSnapshot, committed, u64_modulus, capture_snapshot,
  register_snapshot, commit_transaction, min_xmax, get_vacuum_horizon, is_committed, is_aborted,
  is_visible,
}
use custom_sql_database.Txn.Freeze.{visible_values, keep, Own}
use custom_sql_database.Txn.Lifecycle.{IsValid, active-lt-next}
use custom_sql_database.Txn.Delete.{stamp}

-- The second test of the loop: a version whose deleter aborted is live again.
abbrev revive_row : TransactionManager → Row → Row
revive_row m row =
    if not (row.xmax == 0) && is_aborted m row.xmax then record row { xmax = 0 } else row

abbrev drop_dead : TransactionManager → ℕ → Row → Option Row
drop_dead m horizon row =
    if not (row.xmax == 0) && is_committed m row.xmax && ltb row.xmax horizon
    then none
    else some row

unfoldable pub vacuum_row : TransactionManager → ℕ → Row → Option Row
vacuum_row m horizon row =
    if is_aborted m row.xmin then none else drop_dead m horizon (revive_row m row)

vacuum_below : TransactionManager → ℕ → List Row → List Row
unfolding vacuum_row
vacuum_below m horizon [] = []
vacuum_below m horizon (row ∷ rows) = keep (vacuum_row m horizon row) (vacuum_below m horizon rows)

unfoldable pub vacuum_versions : TransactionManager → List Row → List Row
unfolding vacuum_below
vacuum_versions m rows = vacuum_below m (get_vacuum_horizon m) rows

min_xmax-le : (h : ℕ) (snaps : List (ℕ × TransactionSnapshot)) → min_xmax h snaps ≤ h
unfolding min_xmax
min_xmax-le h [] = omega arith
min_xmax-le h ((o, t) ∷ rest) = ground (arith, min_xmax-le h rest, min_xmax-le t.xmax rest)

min_xmax-lookup :
    (h owner : ℕ) (snaps : List (ℕ × TransactionSnapshot)) (s : TransactionSnapshot)
    → lookup owner snaps ≡ some s
    → min_xmax h snaps ≤ s.xmax
unfolding min_xmax lookup
min_xmax-lookup h owner [] s l = ground arith
min_xmax-lookup h owner ((o, t) ∷ rest) s l = ground (
  arith,
  min_xmax-le h rest,
  min_xmax-le t.xmax rest,
  min_xmax-lookup h owner rest s,
  min_xmax-lookup t.xmax owner rest s,
)

-- The vacuum horizon is at most the `xmax` of every registered snapshot.
pub horizon-le-xmax :
    (m : TransactionManager) (owner : ℕ) (s : TransactionSnapshot)
    → lookup owner m.active_snapshots ≡ some s
    → get_vacuum_horizon m ≤ s.xmax
unfolding get_vacuum_horizon lookup
horizon-le-xmax m owner s l = horizon_cases m.next_xid m.active_snapshots l
  where
    horizon_cases :
        (n : ℕ) (snaps : List (ℕ × TransactionSnapshot))
        → lookup owner snaps ≡ some s
        → get_vacuum_horizon (record m { next_xid = n; active_snapshots = snaps }) ≤ s.xmax
    horizon_cases n [] e = ground arith
    horizon_cases n (entry ∷ rest) e = min_xmax-lookup 18446744073709551615 owner (entry ∷ rest) s e

-- What must hold for a snapshot if deleted versions below the horizon are to go.
abbrev pub Passed : TransactionManager → TransactionSnapshot → Type 0
Passed m s =
    (xid : ℕ)
    → xid < get_vacuum_horizon m
    → is_committed m xid ≡ true
    → member xid s.active_xids ≡ false

vacuum_row-visible :
    (m : TransactionManager) (horizon reader : ℕ) (s : TransactionSnapshot) (row : Row)
    → horizon ≤ s.xmax
    → (row.xmax < horizon → is_committed m row.xmax ≡ true → member row.xmax s.active_xids ≡ false)
    → is_aborted m reader ≡ false
    → Own reader row
    → visible_values m reader (some s) (keep (vacuum_row m horizon row) [])
      ≡ visible_values m reader (some s) (row ∷ [])
unfolding visible_values is_visible vacuum_row is_committed is_aborted
vacuum_row-visible m horizon reader s row le passed alive own = ground arith

visible_values-keep :
    (m : TransactionManager) (reader : ℕ) (snapshot : Option TransactionSnapshot)
    (kept : Option Row) (row : Row) (rows rows' : List Row)
    → visible_values m reader snapshot (keep kept []) ≡ visible_values m reader snapshot (row ∷ [])
    → visible_values m reader snapshot rows ≡ visible_values m reader snapshot rows'
    → visible_values m reader snapshot (keep kept rows)
      ≡ visible_values m reader snapshot (row ∷ rows')
unfolding visible_values
visible_values-keep m reader snapshot none row rows rows' e t = ground arith
visible_values-keep m reader snapshot (some row') row rows rows' e t = ground arith

vacuum_below-visible :
    (m : TransactionManager) (horizon reader : ℕ) (s : TransactionSnapshot) (rows : List Row)
    → horizon ≤ s.xmax
    → ((xid : ℕ) → xid < horizon → is_committed m xid ≡ true → member xid s.active_xids ≡ false)
    → is_aborted m reader ≡ false
    → All (Own reader) rows
    → visible_values m reader (some s) (vacuum_below m horizon rows)
      ≡ visible_values m reader (some s) rows
unfolding vacuum_below
vacuum_below-visible m horizon reader s [] le passed alive own = refl
vacuum_below-visible m horizon reader s (row ∷ rows) le passed alive own =
    visible_values-keep m reader (some s) (vacuum_row m horizon row) row
      (vacuum_below m horizon rows) rows
      (vacuum_row-visible m horizon reader s row le (passed row.xmax) alive own.0)
      (vacuum_below-visible m horizon reader s rows le passed alive own.1)

-- Vacuuming changes no values that a registered snapshot shows to a reader that has not aborted,
-- provided that the snapshot lists as active no id that has committed since and is below the
-- horizon; a reader's own versions are deleted by nobody else.
pub vacuum_keeps_open_snapshots :
    (m : TransactionManager) (reader owner : ℕ) (s : TransactionSnapshot) (rows : List Row)
    → lookup owner m.active_snapshots ≡ some s
    → Passed m s
    → is_aborted m reader ≡ false
    → All (Own reader) rows
    → visible_values m reader (some s) (vacuum_versions m rows)
      ≡ visible_values m reader (some s) rows
unfolding vacuum_versions
vacuum_keeps_open_snapshots m reader owner s rows l passed alive own =
    vacuum_below-visible m (get_vacuum_horizon m) reader s rows (horizon-le-xmax m owner s l) passed
      alive own

-- The manager in which `owner` has registered a snapshot and then `xid` has committed.
abbrev pub commit_behind : ℕ → ℕ → TransactionManager → TransactionManager
commit_behind owner xid m = commit_transaction xid (register_snapshot owner (capture_snapshot m) m)

commit_behind-committed :
    (m : TransactionManager) (owner xid : ℕ) → is_committed (commit_behind owner xid m) xid ≡ true
unfolding commit_transaction register_snapshot is_committed
commit_behind-committed m owner xid = ground (arith, lookup-insert xid xid committed m.statuses)

commit_behind-horizon :
    (m : TransactionManager) (owner xid : ℕ)
    → m.active_snapshots ≡ []
    → owner ≢ xid
    → xid < m.next_xid
    → m.next_xid < u64_modulus
    → xid < get_vacuum_horizon (commit_behind owner xid m)
unfolding commit_transaction register_snapshot capture_snapshot get_vacuum_horizon min_xmax insert
    erase
commit_behind-horizon m owner xid alone other below small = ground arith

drop_stamped :
    (m : TransactionManager) (xid : ℕ) (row : Row)
    → row.xmin ≡ 0
    → xid ≢ 0
    → is_committed m xid ≡ true
    → xid < get_vacuum_horizon m
    → vacuum_versions m (stamp 0 xid (row ∷ [])) ≡ []
unfolding vacuum_versions vacuum_row stamp is_committed is_aborted
drop_stamped m xid row loaded z done below = ground arith

show_stamped :
    (m : TransactionManager) (xid reader : ℕ) (s : TransactionSnapshot) (row : Row)
    → row.xmin ≡ 0
    → xid ≢ 0
    → reader ≢ xid
    → member xid s.active_xids ≡ true
    → visible_values m reader (some s) (stamp 0 xid (row ∷ [])) ≡ row.values ∷ []
unfolding visible_values is_visible stamp
show_stamped m xid reader s row loaded z other active = ground arith

-- In a valid manager without registered snapshots and with ids left, let a transaction other than
-- `xid` register a snapshot while `xid` runs, and let `xid` then commit: a loaded row that `xid`
-- deletes is still shown by that snapshot to every other reader, and the vacuum drops it.
pub vacuum_drops_visible :
    (m : TransactionManager) (xid owner reader : ℕ) (row : Row)
    → IsValid m
    → m.next_xid < u64_modulus
    → m.active_snapshots ≡ []
    → member xid m.active_xids ≡ true
    → xid ≢ 0
    → owner ≢ xid
    → reader ≢ xid
    → row.xmin ≡ 0
    → let rows = stamp 0 xid (row ∷ []) in
      let after = commit_behind owner xid m in
      (visible_values after reader (some (capture_snapshot m)) rows ≡ row.values ∷ [])
      × (vacuum_versions after rows ≡ [])
unfolding capture_snapshot
vacuum_drops_visible m xid owner reader row v small alone active z owner_ne reader_ne loaded = (
  show_stamped (commit_behind owner xid m) xid reader (capture_snapshot m) row loaded z reader_ne
      active,
  drop_stamped (commit_behind owner xid m) xid row loaded z (commit_behind-committed m owner xid)
      (commit_behind-horizon m owner xid alone owner_ne (active-lt-next xid v active) small),
)
