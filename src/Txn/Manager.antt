-- ===== src/Txn/Manager.antt =====
-- `TransactionManager` of core/transaction_manager.{h,cc}. A method that takes the mutex runs as one
-- step; a method that writes returns the new manager.
use custom_sql_database.Prelude.{
  ℕ, ◌+◌, ◌%◌, ◌^◌, Bool, true, false, not, ◌||◌, Option, none, some, List, [], ◌∷◌, ltb, leb, ◌==◌,
  if◌then◌else◌, nat_eq, lookup, insert, erase, member, set_insert, set_erase,
}

-- `uint64_t` counts modulo this.
abbrev pub u64_modulus : ℕ
u64_modulus = 2 ^ 64

pub data TransactionStatus : Type 0 where
  in_progress committed aborted : TransactionStatus

pub record TransactionSnapshot : Type 0 where
  pub xmax : ℕ
  pub active_xids : List ℕ

pub record TransactionManager : Type 0 where
  pub next_xid : ℕ
  pub statuses : List (ℕ × TransactionStatus)
  pub active_xids : List ℕ
  pub active_snapshots : List (ℕ × TransactionSnapshot)

abbrev pub init : TransactionManager
init = record { next_xid = 1; statuses = []; active_xids = []; active_snapshots = [] }

-- The new manager and the id handed out.
unfoldable pub begin_transaction : TransactionManager → TransactionManager × ℕ
begin_transaction m =
    let xid = m.next_xid in
    (
      record m {
        next_xid = (m.next_xid + 1) % u64_modulus;
        statuses = insert xid in_progress m.statuses;
        active_xids = set_insert xid m.active_xids;
      },
      xid,
    )

unfoldable pub capture_snapshot : TransactionManager → TransactionSnapshot
capture_snapshot m = record { xmax = m.next_xid; active_xids = m.active_xids }

unfoldable pub register_snapshot : ℕ → TransactionSnapshot → TransactionManager → TransactionManager
register_snapshot xid snapshot m = record m {
  active_snapshots = insert xid snapshot m.active_snapshots;
}

finish : TransactionStatus → ℕ → TransactionManager → TransactionManager
finish status xid m = record m {
  statuses = insert xid status m.statuses;
  active_xids = set_erase xid m.active_xids;
  active_snapshots = erase xid m.active_snapshots;
}

unfoldable pub commit_transaction : ℕ → TransactionManager → TransactionManager
unfolding finish
commit_transaction = finish committed

unfoldable pub abort_transaction : ℕ → TransactionManager → TransactionManager
unfolding finish
abort_transaction = finish aborted

abbrev status_is_committed : Option TransactionStatus → Bool
status_is_committed (some committed) = true
status_is_committed _ = false

abbrev status_is_aborted : Option TransactionStatus → Bool
status_is_aborted (some aborted) = true
status_is_aborted _ = false

unfoldable pub is_committed : TransactionManager → ℕ → Bool
is_committed m xid = if xid == 0 then true else status_is_committed (lookup xid m.statuses)

unfoldable pub is_aborted : TransactionManager → ℕ → Bool
is_aborted m xid = if xid == 0 then false else status_is_aborted (lookup xid m.statuses)

-- The loop of `getVacuumHorizon`, from the largest `uint64_t`.
unfoldable pub min_xmax : ℕ → List (ℕ × TransactionSnapshot) → ℕ
min_xmax horizon [] = horizon
min_xmax horizon ((_, snapshot) ∷ rest) =
    min_xmax (if ltb snapshot.xmax horizon then snapshot.xmax else horizon) rest

abbrev horizon_of : ℕ → List (ℕ × TransactionSnapshot) → ℕ
horizon_of next [] = next
horizon_of next (entry ∷ rest) = min_xmax 18446744073709551615 (entry ∷ rest)

unfoldable pub get_vacuum_horizon : TransactionManager → ℕ
unfolding min_xmax
get_vacuum_horizon m = horizon_of m.next_xid m.active_snapshots

-- The snapshot was taken before the transaction `xid` could be seen.
abbrev pub unseen : ℕ → TransactionSnapshot → Bool
unseen xid snapshot = leb snapshot.xmax xid || member xid snapshot.active_xids

unfoldable pub none_unseen : ℕ → List (ℕ × TransactionSnapshot) → Bool
none_unseen xid [] = true
none_unseen xid ((_, snapshot) ∷ rest) = if unseen xid snapshot then false else none_unseen xid rest

unfoldable pub can_freeze_committed : TransactionManager → ℕ → Bool
unfolding none_unseen
can_freeze_committed m xid = if xid == 0 then false else none_unseen xid m.active_snapshots

-- The part of `isVisible` for a row created by the loader (xmin 0).
visible_loaded : TransactionManager → ℕ → ℕ → Option TransactionSnapshot → Bool
visible_loaded m xmax reader snapshot =
    if xmax == 0 then true else if xmax == reader then false else elim snapshot [
      | none ↦ not (is_committed m xmax)
      | some s ↦ if unseen xmax s then true else not (is_committed m xmax)
    ]

-- The part of `isVisible` for a row of another transaction, by snapshot.
visible_created : TransactionManager → ℕ → ℕ → ℕ → Option TransactionSnapshot → Bool
visible_created m xmin xmax reader none =
    if not (is_committed m xmin)
    then false
    else if xmax == 0
    then true
    else if xmax == reader
    then false
    else not (is_committed m xmax)
visible_created m xmin xmax reader (some s) =
    if unseen xmin s
    then false
    else if not (is_committed m xmin)
    then false
    else if xmax == 0
    then true
    else if xmax == reader
    then false
    else if unseen xmax s
    then true
    else not (is_committed m xmax)

unfoldable pub is_visible : TransactionManager → ℕ → ℕ → ℕ → Option TransactionSnapshot → Bool
unfolding visible_loaded visible_created
is_visible m xmin xmax reader snapshot =
    if xmin == 0
    then visible_loaded m xmax reader snapshot
    else if xmin == reader
    then not (xmax == reader)
    else visible_created m xmin xmax reader snapshot
