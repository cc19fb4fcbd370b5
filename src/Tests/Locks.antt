-- ===== src/Tests/Locks.antt =====
-- Locks of core/lock_manager.cc on small histories.
use custom_sql_database.Prelude.{
  ℕ, false, true, ◌≡◌, refl, [], ◌∷◌, Bytes, arith, lookup, insert, erase, member, set_insert,
}
use custom_sql_database.Lock.Manager.{
  add_edge, add_edges, queue_edges, table_edges, holders, release_all, LockMode, exclusive, granted,
  shared, LockManager, init, queue_of, holds_enough, can_grant, grant, rebuild_wait_edges, attempt,
  acquire, visit_all, dfs, has_cycle,
}
use custom_sql_database.Lock.Release.{release_all-frees}
use custom_sql_database.Lock.Grant.{acquire-granted}
use custom_sql_database.Lock.Exclusion.{holds, pending_mode}
use custom_sql_database.Lock.Safety.{acquires, start, next, mutual_exclusion}
use custom_sql_database.Lock.Deadlock.{Refused, attempt-Refused}

abbrev key : Bytes
key = b't' ∷ []

abbrev one_holds : LockManager
one_holds = (acquire 1 key shared init).0

abbrev two_hold : LockManager
two_hold = (acquire 2 key shared one_holds).0

mutual_exclusion_example : (shared ≡ shared) × (shared ≡ shared)
unfolding acquire attempt queue_of lookup insert holds_enough can_grant grant rebuild_wait_edges
    holds pending_mode
mutual_exclusion_example =
    mutual_exclusion {m = two_hold} key 1 2 shared shared
      (next (next start (acquires init 1 key shared refl)) (acquires one_holds 2 key shared refl))
      (λ e. absurd (ground (arith, e))) refl refl

-- Transactions 1 and 2 each hold a table, 1 waits for that of 2, and 2 asks for that of 1.
abbrev crossed : LockManager
crossed = record {
  tables =
      (
        b'a' ∷ [],
        record { txn_id = 1; mode = exclusive; granted = true }
            ∷ record { txn_id = 2; mode = shared; granted = false }
            ∷ [],
      )
      ∷ (
        b'b' ∷ [],
        record { txn_id = 2; mode = exclusive; granted = true }
            ∷ record { txn_id = 1; mode = shared; granted = false }
            ∷ [],
      )
      ∷ [];
  txn_tables = [];
  wait_for = [];
}

attempt-Refused_example :
    Refused 2 (b'a' ∷ []) shared crossed (attempt 2 (b'a' ∷ []) shared crossed).0
unfolding attempt queue_of lookup insert can_grant rebuild_wait_edges has_cycle dfs visit_all member
    set_insert add_edge add_edges queue_edges table_edges holders erase
attempt-Refused_example = attempt-Refused 2 (b'a' ∷ []) shared crossed refl

only_shared : (u : ℕ) (n : LockMode) → holds u n (queue_of key one_holds) ≡ true → n ≡ shared
unfolding acquire attempt queue_of lookup insert holds_enough can_grant grant rebuild_wait_edges
    holds
only_shared u shared h = refl
only_shared u exclusive h = absurd (ground (arith, h))

-- A second reader is let in while the first one holds the lock.
acquire-granted_example :
    ((acquire 2 key shared one_holds).1 ≡ granted)
    × (holds_enough 2 shared (queue_of key (acquire 2 key shared one_holds).0) ≡ true)
unfolding acquire attempt queue_of lookup insert holds_enough can_grant grant rebuild_wait_edges
    holds
acquire-granted_example =
    acquire-granted 2 key shared one_holds (λ u n ne h. (refl, only_shared u n h))

release_all-frees_example :
    (holds 1 shared (queue_of key (release_all 1 two_hold)) ≡ false)
    × (holds 2 shared (queue_of key (release_all 1 two_hold))
        ≡ holds 2 shared (queue_of key two_hold))
unfolding acquire attempt queue_of lookup insert holds_enough can_grant grant rebuild_wait_edges
    holds pending_mode
release_all-frees_example =
    release_all-frees {m = two_hold} 1 2 shared key
      (next (next start (acquires init 1 key shared refl)) (acquires one_holds 2 key shared refl))
      (λ e. absurd (ground (arith, e)))
