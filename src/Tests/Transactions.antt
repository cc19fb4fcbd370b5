-- ===== src/Tests/Transactions.antt =====
-- Transactions of core/transaction_manager.cc on small histories.
use custom_sql_database.Prelude.{
  ◌≡◌, refl, inr, not, ◌&&◌, ◌||◌, some, List, [], ◌∷◌, ◌==◌, arith, lookup, member, set_insert,
}
use custom_sql_database.Types.Value.{int}
use custom_sql_database.Row.{Row}
use custom_sql_database.Txn.Manager.{
  TransactionManager, TransactionSnapshot, in_progress, committed, init, begin_transaction,
  capture_snapshot, commit_transaction, is_committed, is_aborted, can_freeze_committed,
  get_vacuum_horizon, is_visible,
}
use custom_sql_database.Txn.Visibility.{sees, is_visible-sees}
use custom_sql_database.Txn.Lifecycle.{begins, commits, here, next, IsValid, Reach-IsValid}
use custom_sql_database.Txn.Isolation.{repeatable_reads}
use custom_sql_database.Txn.Freeze.{
  visible_values, freeze_committed_versions, freeze_keeps_snapshots,
}
use custom_sql_database.Errors.{ok}
use custom_sql_database.Txn.Delete.{
  stamp, without_at, delete_row_versioned, delete_row_versioned-hides,
}
use custom_sql_database.Txn.Vacuum.{
  vacuum_versions, commit_behind, vacuum_keeps_open_snapshots, vacuum_drops_visible,
}

-- Transaction 1 has committed, 2 runs under a snapshot taken after that, 3 runs.
abbrev late : TransactionManager
late = record {
  next_xid = 4;
  statuses = (1, committed) ∷ (2, in_progress) ∷ (3, in_progress) ∷ [];
  active_xids = 2 ∷ 3 ∷ [];
  active_snapshots = (2, record { xmax = 3; active_xids = 2 ∷ [] }) ∷ [];
}

abbrev late_snapshot : TransactionSnapshot
late_snapshot = record { xmax = 3; active_xids = 2 ∷ [] }

abbrev rows : List Row
rows =
    record { values = int 7 ∷ []; xmin = 1; xmax = 0 }
    ∷ record { values = int 8 ∷ []; xmin = 0; xmax = 1 }
    ∷ record { values = int 9 ∷ []; xmin = 2; xmax = 2 }
    ∷ []

is_visible-sees_example :
    is_visible late 1 3 2 (some late_snapshot)
    ≡ (sees late 2 (some late_snapshot) 1 && (3 == 0 || not (sees late 2 (some late_snapshot) 3)))
is_visible-sees_example =
    is_visible-sees late 1 3 2 (some late_snapshot) (λ e. absurd (ground (arith, e)))

Reach-IsValid_example : IsValid (commit_transaction 1 (begin_transaction init).0)
unfolding begin_transaction member set_insert
Reach-IsValid_example =
    Reach-IsValid
      (next (next here (begins init (omega arith))) (commits (begin_transaction init).0 1 refl))

repeatable_reads_example :
    is_visible
      (commit_transaction 1 (begin_transaction init).0)
      1
      0
      2
      (some (capture_snapshot (begin_transaction init).0))
    ≡ is_visible
        (begin_transaction init).0
        1
        0
        2
        (some (capture_snapshot (begin_transaction init).0))
unfolding begin_transaction member set_insert
repeatable_reads_example =
    repeatable_reads 1 0 2 (next here (commits (begin_transaction init).0 1 refl))

freeze_keeps_snapshots_example :
    visible_values late 2 (some late_snapshot) (freeze_committed_versions 1 rows)
    ≡ visible_values late 2 (some late_snapshot) rows
unfolding is_committed can_freeze_committed lookup member
freeze_keeps_snapshots_example =
    freeze_keeps_snapshots late 1 2 2 late_snapshot rows refl refl refl
      (λ e. absurd (ground (arith, e)))
      (λ e. absurd (ground (arith, e)), (λ e. absurd (ground (arith, e)), (λ e. inr refl, tt)))

vacuum_keeps_open_snapshots_example :
    visible_values late 2 (some late_snapshot) (vacuum_versions late rows)
    ≡ visible_values late 2 (some late_snapshot) rows
unfolding is_committed is_aborted lookup member get_vacuum_horizon
vacuum_keeps_open_snapshots_example =
    vacuum_keeps_open_snapshots late 2 2 late_snapshot rows refl (λ xid below done. ground arith)
      refl (λ e. absurd (ground (arith, e)), (λ e. absurd (ground (arith, e)), (λ e. inr refl, tt)))

-- Transactions 1 and 2 run.
abbrev pair : TransactionManager
pair = (begin_transaction (begin_transaction init).0).0

pair-IsValid : IsValid pair
unfolding begin_transaction
pair-IsValid =
    Reach-IsValid (
      next (next here (begins init (omega arith)))
        (begins (begin_transaction init).0 (omega arith)))

abbrev loaded_row : Row
loaded_row = record { values = int 8 ∷ []; xmin = 0; xmax = 0 }

vacuum_drops_visible_example :
    (visible_values
        (commit_behind 2 1 pair)
        2
        (some (capture_snapshot pair))
        (stamp 0 1 (loaded_row ∷ []))
      ≡ (int 8 ∷ []) ∷ [])
    × (vacuum_versions (commit_behind 2 1 pair) (stamp 0 1 (loaded_row ∷ [])) ≡ [])
unfolding begin_transaction member set_insert
vacuum_drops_visible_example =
    vacuum_drops_visible pair 1 2 2 loaded_row pair-IsValid (omega arith) refl refl
      (λ e. absurd (ground (arith, e))) (λ e. absurd (ground (arith, e)))
      (λ e. absurd (ground (arith, e))) refl

-- Transaction 3 deletes the first row; transaction 2 still sees it.
delete_row_versioned-hides_example :
    (rows' : List Row) × (delete_row_versioned 0 3 rows ≡ ok rows')
    × (visible_values late 2 (some late_snapshot) rows'
        ≡ visible_values late 2 (some late_snapshot) rows)
    × (visible_values late 3 (some late_snapshot) rows'
        ≡ visible_values late 3 (some late_snapshot) (without_at 0 rows))
unfolding is_committed lookup
delete_row_versioned-hides_example =
    delete_row_versioned-hides late 3 2 (some late_snapshot) rows 0
      (record { values = int 7 ∷ []; xmin = 1; xmax = 0 }) refl refl refl
      (λ e. absurd (ground (arith, e)))
