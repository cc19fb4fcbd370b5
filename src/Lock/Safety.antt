-- ===== src/Lock/Safety.antt =====
-- The calls of concurrent transactions on the lock manager of core/lock_manager.cc, as steps.
use custom_sql_database.Prelude.{
  ℕ, ◌≡◌, ◌≢◌, inl, inr, refl, sym, ◌∙◌, true, false, none, some, List, [], ◌∷◌, ◌++◌, arith, Bytes,
  nat_eq, bytes_eq, bytes_beq, bytes_beq_iff, if◌then◌else◌, lookup, insert, lookup-insert,
  lookup-erase, Bool-cases, Option-cases,
}
use custom_sql_database.Lock.Manager.{
  LockMode, shared, LockRequest, Queue, LockManager, init, or_empty, queue_of, holds_enough,
  can_grant, grant, rebuild_wait_edges, drop_pending, attempt, acquire, has_cycle, release_table,
  release_tables, release_all, put_or_erase, drop_all,
}
use custom_sql_database.Lock.Exclusion.{
  holds, IsCompatible-mono, IsSafe, pending_mode, grant-IsCompatible, holds-drop_pending,
  holds-drop_all, holds-append_pending, pending-append, queue_of-insert, set_queue-IsSafe,
}

-- A session runs one statement at a time: a transaction has at most one request that waits.
pub data Step : LockManager → LockManager → Type 0 where
  acquires :
      (m : LockManager) (txn : ℕ) (key : Bytes) (mode : LockMode)
      → pending_mode txn (queue_of key m) ≡ none
      → Step m (acquire txn key mode m).0
  retries :
      (m : LockManager) (txn : ℕ) (key : Bytes) (mode : LockMode)
      → pending_mode txn (queue_of key m) ≡ some mode
      → Step m (attempt txn key mode m).0
  releases : (m : LockManager) (txn : ℕ) → Step m (release_all txn m)

pub data Reach : LockManager → Type 0 where
  start : Reach init
  next : {m n : LockManager} → Reach m → Step m n → Reach n

-- The graph and the table sets play no part in who holds what.
same_tables-IsSafe : {m n : LockManager} → n.tables ≡ m.tables → IsSafe m → IsSafe n
unfolding queue_of
same_tables-IsSafe e s = record { compatible = λ key. rw e (s.compatible key) }

rebuild-IsSafe : (m : LockManager) → IsSafe m → IsSafe (rebuild_wait_edges m)
unfolding rebuild_wait_edges
rebuild-IsSafe m s = same_tables-IsSafe refl s

attempt-IsSafe :
    (m : LockManager) (txn : ℕ) (key : Bytes) (mode : LockMode)
    → IsSafe m
    → pending_mode txn (queue_of key m) ≡ some mode
    → IsSafe (attempt txn key mode m).0
unfolding attempt
attempt-IsSafe m txn key mode s p = elim (Bool-cases (can_grant txn mode (queue_of key m))) [
  | inl yes' ↦ rw yes' (
      rebuild-IsSafe _ (
        same_tables-IsSafe refl (
          set_queue-IsSafe m key (grant txn mode (queue_of key m)) s
            (grant-IsCompatible txn mode (queue_of key m) (s.compatible key) p yes'))))
  | inr no' ↦ elim (Bool-cases (has_cycle (rebuild_wait_edges m).wait_for txn)) [
    | inl cycle ↦
        rw (no', cycle)
          (rebuild-IsSafe _ (
            set_queue-IsSafe m key (drop_pending txn (queue_of key m)) s (
              IsCompatible-mono (λ u n h. holds-drop_pending txn u n (queue_of key m) h)
                (s.compatible key))))
    | inr wait ↦ rw (no', wait) (rebuild-IsSafe m s)
  ]
]

abbrev pub request : ℕ → LockMode → LockRequest
request txn mode = record { txn_id = txn; mode = mode; granted = false }

acquire-IsSafe :
    (m : LockManager) (txn : ℕ) (key : Bytes) (mode : LockMode)
    → IsSafe m
    → pending_mode txn (queue_of key m) ≡ none
    → IsSafe (acquire txn key mode m).0
unfolding acquire
acquire-IsSafe m txn key mode s p = elim (Bool-cases (holds_enough txn mode (queue_of key m))) [
  | inl held ↦ rw held (same_tables-IsSafe refl s)
  | inr new ↦
      let queue = queue_of key m ++ request txn mode ∷ [] in
      let m' : LockManager = record m { tables = insert key queue m.tables } in
      let here : queue_of key m' ≡ queue =
        ground (arith, queue_of-insert key key queue m, bytes_beq_iff key key) in
      rw new (
        attempt-IsSafe m' txn key mode
          (set_queue-IsSafe m key queue s (
            IsCompatible-mono
              (λ u n h. sym (holds-append_pending u txn n mode (queue_of key m)) ∙ h)
              (s.compatible key)))
          (rw here (pending-append txn mode (queue_of key m) p)))
]

-- The queue that a map of tables gives for a key.
abbrev pub queue_in : Bytes → List (Bytes × Queue) → Queue
queue_in key tables = or_empty (lookup key tables)

pub queue_in-put_or_erase :
    (key j : Bytes) (queue : Queue) (tables : List (Bytes × Queue))
    → queue_in j (put_or_erase key queue tables)
      ≡ (if bytes_beq key j then queue else queue_in j tables)
queue_in-put_or_erase key j [] tables = ground (arith, lookup-erase key j tables)
queue_in-put_or_erase key j (req ∷ queue) tables =
    ground (arith, lookup-insert key j (req ∷ queue) tables)

holds-release_table :
    (txn u : ℕ) (n : LockMode) (key j : Bytes) (tables : List (Bytes × Queue))
    → holds u n (queue_in j (release_table txn key tables)) ≡ true
    → holds u n (queue_in j tables) ≡ true
unfolding release_table
holds-release_table txn u n key j tables h = elim (Option-cases (lookup key tables)) [
  | inl missing ↦ rw (missing, release_table) at h
  | inr (queue, found) ↦
      let moved : holds u n (queue_in j (put_or_erase key (drop_all txn queue) tables)) ≡ true =
        rw (found, release_table) at h in
      elim (Bool-cases (bytes_beq key j)) [
        | inl e ↦
            let same : key ≡ j = (bytes_beq_iff key j).0 e in
            rw (← same, found)
              (holds-drop_all txn u n queue (rw (queue_in-put_or_erase, e) at moved))
        | inr e ↦ rw (queue_in-put_or_erase, e) at moved
      ]
]

pub holds-release_tables :
    (txn u : ℕ) (n : LockMode) (keys : List Bytes) (j : Bytes) (tables : List (Bytes × Queue))
    → holds u n (queue_in j (release_tables txn keys tables)) ≡ true
    → holds u n (queue_in j tables) ≡ true
unfolding release_tables
holds-release_tables txn u n [] j tables h = h
holds-release_tables txn u n (key ∷ keys) j tables h =
    holds-release_table txn u n key j tables
      (holds-release_tables txn u n keys j (release_table txn key tables) h)

release_all-IsSafe : (m : LockManager) (txn : ℕ) → IsSafe m → IsSafe (release_all txn m)
unfolding release_all queue_of
release_all-IsSafe m txn s = elim (Option-cases (lookup txn m.txn_tables)) [
  | inl none' ↦ rw none' (rebuild-IsSafe m s)
  | inr (keys, e) ↦ rw e (
      rebuild-IsSafe _ (record {
        compatible = λ j.
            IsCompatible-mono (λ u n h. holds-release_tables txn u n keys j m.tables h)
              (s.compatible j);
      }))
]

Step-IsSafe : {m n : LockManager} → Step m n → IsSafe m → IsSafe n
Step-IsSafe (acquires m txn key mode p) s = acquire-IsSafe m txn key mode s p
Step-IsSafe (retries m txn key mode p) s = attempt-IsSafe m txn key mode s p
Step-IsSafe (releases m txn) s = release_all-IsSafe m txn s

init-IsSafe : IsSafe init
unfolding queue_of lookup holds
init-IsSafe = record {
  compatible = λ key. record { both_shared = λ t u m n ne ht hu. absurd (ground arith) };
}

Reach-IsSafe : {m : LockManager} → Reach m → IsSafe m
Reach-IsSafe start = init-IsSafe
Reach-IsSafe (next r s) = Step-IsSafe s (Reach-IsSafe r)

-- Over every interleaving of acquires, retries and releases, two different transactions that hold
-- a lock on one key both hold it shared; a transaction has at most one waiting request on a key.
pub mutual_exclusion :
    {m : LockManager} (key : Bytes) (t u : ℕ) (a b : LockMode)
    → Reach m
    → t ≢ u
    → holds t a (queue_of key m) ≡ true
    → holds u b (queue_of key m) ≡ true
    → (a ≡ shared) × (b ≡ shared)
mutual_exclusion key t u a b r ne ht hu =
    ((Reach-IsSafe r).compatible key).both_shared t u a b ne ht hu
