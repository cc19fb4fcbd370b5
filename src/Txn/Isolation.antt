-- ===== src/Txn/Isolation.antt =====
-- Snapshot isolation: what the snapshot of core/transaction_manager.cc shows does not change.
use custom_sql_database.Prelude.{
  ℕ, ◌≤◌, ◌≡◌, refl, true, false, some, arith, nat_eq, lookup, member, lookup-insert,
  member-set_insert, member-set_erase,
}
use custom_sql_database.Txn.Manager.{
  TransactionManager, TransactionSnapshot, in_progress, committed, aborted, begin_transaction,
  register_snapshot, commit_transaction, abort_transaction, capture_snapshot, unseen, is_committed,
  is_visible,
}
use custom_sql_database.Txn.Lifecycle.{Step, begins, registers, commits, aborts, Reach, here, next}

-- `n` is a later state of the manager `m` from which the snapshot `s` was captured.
record Since (s : TransactionSnapshot) (m n : TransactionManager) : Type 0 where
  later : s.xmax ≤ n.next_xid
  unfinished : (xid : ℕ) → member xid n.active_xids ≡ true → unseen xid s ≡ true
  settled : (xid : ℕ) → unseen xid s ≡ false → lookup xid n.statuses ≡ lookup xid m.statuses

Since-capture : (m : TransactionManager) → Since (capture_snapshot m) m m
unfolding capture_snapshot
Since-capture m = record {
  later = omega arith;
  unfinished = λ xid h. ground arith;
  settled = λ xid h. refl;
}

Since-Step :
    {s : TransactionSnapshot} {m n o : TransactionManager} → Step n o → Since s m n → Since s m o
unfolding begin_transaction register_snapshot commit_transaction abort_transaction
Since-Step (begins n h) c = record {
  later = omega (arith, c.later);
  unfinished = λ xid a.
      ground (arith, c.later, c.unfinished xid, member-set_insert n.next_xid xid n.active_xids);
  settled = λ xid u.
      ground (arith, c.later, c.settled xid, lookup-insert n.next_xid xid in_progress n.statuses);
}
Since-Step (registers n x t a) c = record {
  later = c.later;
  unfinished = c.unfinished;
  settled = c.settled;
}
Since-Step (commits n x a) c = record {
  later = c.later;
  unfinished = λ xid b. ground (arith, c.unfinished xid, member-set_erase x xid n.active_xids);
  settled = λ xid u.
      ground (arith, c.unfinished x, c.settled xid, lookup-insert x xid committed n.statuses);
}
Since-Step (aborts n x a) c = record {
  later = c.later;
  unfinished = λ xid b. ground (arith, c.unfinished xid, member-set_erase x xid n.active_xids);
  settled = λ xid u.
      ground (arith, c.unfinished x, c.settled xid, lookup-insert x xid aborted n.statuses);
}

Since-Reach : {m n : TransactionManager} → Reach m n → Since (capture_snapshot m) m n
Since-Reach {m} here = Since-capture m
Since-Reach (next r s) = Since-Step s (Since-Reach r)

is_visible-Since :
    {s : TransactionSnapshot} {m n : TransactionManager} (xmin xmax reader : ℕ)
    → Since s m n
    → is_visible n xmin xmax reader (some s) ≡ is_visible m xmin xmax reader (some s)
unfolding is_visible is_committed
is_visible-Since xmin xmax reader c = ground (arith, c.settled xmin, c.settled xmax)

-- Under a captured snapshot every row version keeps its visibility, for every reader, whatever
-- transactions begin, register snapshots, commit or abort afterwards.
pub repeatable_reads :
    {m n : TransactionManager} (xmin xmax reader : ℕ)
    → Reach m n
    → is_visible n xmin xmax reader (some (capture_snapshot m))
      ≡ is_visible m xmin xmax reader (some (capture_snapshot m))
repeatable_reads xmin xmax reader r = is_visible-Since xmin xmax reader (Since-Reach r)
