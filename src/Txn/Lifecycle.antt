-- ===== src/Txn/Lifecycle.antt =====
-- The life of a transaction in core/transaction_manager.cc: the steps that the database takes, and
-- what every reachable manager satisfies. core/database.cc commits and aborts active ids only
-- (`execute_commit`, `execute_rollback`), and registers the snapshot of an active id.
use custom_sql_database.Prelude.{
  ℕ, ◌+◌, ◌≤◌, ◌<◌, ◌≡◌, refl, Bool, true, false, Option, none, some, arith, nat_eq, lookup, member,
  lookup-insert, member-set_insert, member-set_erase,
}
use custom_sql_database.Txn.Manager.{
  TransactionManager, TransactionSnapshot, TransactionStatus, in_progress, committed, aborted, init,
  u64_modulus, begin_transaction, register_snapshot, commit_transaction, abort_transaction,
}

-- One call of the database. The ids do not run out: a `uint64_t` counter does not wrap in practice.
pub data Step : TransactionManager → TransactionManager → Type 0 where
  begins : (m : TransactionManager) → m.next_xid + 1 < u64_modulus → Step m (begin_transaction m).0
  registers :
      (m : TransactionManager) (xid : ℕ) (s : TransactionSnapshot)
      → member xid m.active_xids ≡ true
      → Step m (register_snapshot xid s m)
  commits :
      (m : TransactionManager) (xid : ℕ)
      → member xid m.active_xids ≡ true
      → Step m (commit_transaction xid m)
  aborts :
      (m : TransactionManager) (xid : ℕ)
      → member xid m.active_xids ≡ true
      → Step m (abort_transaction xid m)

pub data Reach (m : TransactionManager) : TransactionManager → Type 0 where
  here : Reach m m
  next : {n o : TransactionManager} → Reach m n → Step n o → Reach m o

abbrev pub is_running : Option TransactionStatus → Bool
is_running (some in_progress) = true
is_running _ = false

pub record IsValid (m : TransactionManager) : Type 0 where
  pub positive : 1 ≤ m.next_xid
  pub fresh : (xid : ℕ) → m.next_xid ≤ xid → lookup xid m.statuses ≡ none
  pub running : (xid : ℕ) → member xid m.active_xids ≡ is_running (lookup xid m.statuses)

IsValid-init : IsValid init
unfolding lookup member
IsValid-init = record { positive = omega arith; fresh = λ xid h. refl; running = λ xid. refl }

-- An active id is below the counter.
pub active-lt-next :
    {m : TransactionManager} (xid : ℕ)
    → IsValid m
    → member xid m.active_xids ≡ true
    → xid < m.next_xid
active-lt-next {m} xid v h = ground (arith, v.running xid, v.fresh xid)

begin-IsValid :
    {m : TransactionManager}
    → m.next_xid + 1 < u64_modulus
    → IsValid m
    → IsValid (begin_transaction m).0
unfolding begin_transaction
begin-IsValid {m} h v = record {
  positive = omega arith;
  fresh = λ xid l. ground (arith, v.fresh xid, lookup-insert m.next_xid xid in_progress m.statuses);
  running = λ xid. ground (
    arith,
    v.running xid,
    lookup-insert m.next_xid xid in_progress m.statuses,
    member-set_insert m.next_xid xid m.active_xids,
  );
}

commit-IsValid :
    {m : TransactionManager} (x : ℕ)
    → member x m.active_xids ≡ true
    → IsValid m
    → IsValid (commit_transaction x m)
unfolding commit_transaction
commit-IsValid {m} x a v = record {
  positive = v.positive;
  fresh = λ xid l.
      ground (arith, v.fresh xid, active-lt-next x v a, lookup-insert x xid committed m.statuses);
  running = λ xid. ground (
    arith,
    v.running xid,
    lookup-insert x xid committed m.statuses,
    member-set_erase x xid m.active_xids,
  );
}

abort-IsValid :
    {m : TransactionManager} (x : ℕ)
    → member x m.active_xids ≡ true
    → IsValid m
    → IsValid (abort_transaction x m)
unfolding abort_transaction
abort-IsValid {m} x a v = record {
  positive = v.positive;
  fresh = λ xid l.
      ground (arith, v.fresh xid, active-lt-next x v a, lookup-insert x xid aborted m.statuses);
  running = λ xid. ground (
    arith,
    v.running xid,
    lookup-insert x xid aborted m.statuses,
    member-set_erase x xid m.active_xids,
  );
}

pub Step-IsValid : {m n : TransactionManager} → Step m n → IsValid m → IsValid n
unfolding register_snapshot
Step-IsValid (begins m h) v = begin-IsValid h v
Step-IsValid (registers m xid s a) v = record {
  positive = v.positive;
  fresh = v.fresh;
  running = v.running;
}
Step-IsValid (commits m x a) v = commit-IsValid x a v
Step-IsValid (aborts m x a) v = abort-IsValid x a v

-- In every manager reachable from the start, as long as ids do not run out and only active ids
-- end or register, an id is active exactly while its status is in progress, and ids from the
-- counter on have no status.
pub Reach-IsValid : {m : TransactionManager} → Reach init m → IsValid m
Reach-IsValid here = IsValid-init
Reach-IsValid (next r s) = Step-IsValid s (Reach-IsValid r)

pub Reach-keeps-IsValid : {m n : TransactionManager} → Reach m n → IsValid m → IsValid n
Reach-keeps-IsValid here v = v
Reach-keeps-IsValid (next r s) v = Step-IsValid s (Reach-keeps-IsValid r v)
