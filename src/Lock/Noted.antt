-- ===== src/Lock/Noted.antt =====
-- The sets of keys that the lock manager of core/lock_manager.cc notes for each transaction cover
-- what it holds: kept by `acquire`.
use custom_sql_database.Prelude.{
  ℕ, ◌≡◌, inl, inr, refl, ap, sym, ◌∙◌, Bool, true, ◌&&◌, none, some, [], ◌∷◌, ◌++◌, ◌==◌, ==_iff,
  arith, Bytes, nat_eq, bytes_eq, bytes_beq, bytes_beq_iff, if◌then◌else◌, lookup, insert, member,
  set_insert, lookup-insert, member-set_insert, Bool-cases,
}
use custom_sql_database.Lock.Manager.{
  LockMode, Queue, LockManager, or_empty, queue_of, holds_enough, can_grant, grant,
  rebuild_wait_edges, drop_pending, attempt, acquire, has_cycle, note_table, set_queue,
}
use custom_sql_database.Lock.Exclusion.{
  holds, pending_mode, queue_of-insert, holds-grant, holds-drop_pending, holds-append_pending,
  pending-append,
}
use custom_sql_database.Lock.Safety.{request}

-- The key is in the set of the transaction.
abbrev pub is_noted : ℕ → Bytes → LockManager → Bool
is_noted u key m = member key (or_empty (lookup u m.txn_tables))

-- Every key that a transaction holds a lock on is noted.
pub record IsNoted (m : LockManager) : Type 0 where
  pub noted :
      (u : ℕ) (n : LockMode) (key : Bytes)
      → holds u n (queue_of key m) ≡ true
      → is_noted u key m ≡ true

is_noted-note :
    (u txn : ℕ) (key j : Bytes) (m : LockManager)
    → is_noted u j (note_table txn key m)
      ≡ (if txn == u && bytes_beq key j then true else is_noted u j m)
is_noted-note u txn key j m =
    let keys = or_empty (lookup txn m.txn_tables) in
    elim (Bool-cases (txn == u)) [
      | inl e ↦
          let same : txn ≡ u = (==_iff txn u).0 e in
          rw (lookup-insert txn u (set_insert key keys) m.txn_tables, e)
            (member-set_insert key j keys
              ∙ ap
                  (λ k.
                    if bytes_beq key j then true else member j (or_empty (lookup k m.txn_tables)))
                  same)
      | inr e ↦ rw (lookup-insert txn u (set_insert key keys) m.txn_tables, e) refl
    ]

same-IsNoted :
    {m n : LockManager} → n.tables ≡ m.tables → n.txn_tables ≡ m.txn_tables → IsNoted m → IsNoted n
unfolding queue_of
same-IsNoted e f s = record { noted = λ u n key. rw (e, f) (s.noted u n key) }

pub rebuild-IsNoted : (m : LockManager) → IsNoted m → IsNoted (rebuild_wait_edges m)
unfolding rebuild_wait_edges
rebuild-IsNoted m s = same-IsNoted refl refl s

note-IsNoted :
    (m : LockManager) (txn : ℕ) (key : Bytes) → IsNoted m → IsNoted (note_table txn key m)
unfolding queue_of
note-IsNoted m txn key s = record {
  noted = λ u n j h. ground (arith, is_noted-note u txn key j m, s.noted u n j h);
}

-- A queue that gives nobody a lock who had none.
set_queue-IsNoted :
    (m : LockManager) (key : Bytes) (queue : Queue)
    → ((u : ℕ) (n : LockMode) → holds u n queue ≡ true → holds u n (queue_of key m) ≡ true)
    → IsNoted m
    → IsNoted (set_queue key queue m)
unfolding queue_of
set_queue-IsNoted m key queue old s = record {
  noted = λ u n j h. elim (Bool-cases (bytes_beq key j)) [
    | inl e ↦
        let same : key ≡ j = (bytes_beq_iff key j).0 e in
        s.noted u n j (rw (← same) (old u n (rw (lookup-insert key j queue m.tables, e) at h)))
    | inr e ↦ s.noted u n j (rw (lookup-insert key j queue m.tables, e) at h)
  ];
}

grant-IsNoted :
    (m : LockManager) (txn : ℕ) (key : Bytes) (mode : LockMode)
    → pending_mode txn (queue_of key m) ≡ some mode
    → IsNoted m
    → IsNoted (note_table txn key (set_queue key (grant txn mode (queue_of key m)) m))
unfolding queue_of
grant-IsNoted m txn key mode p s = record {
  noted = λ u n j h. elim (Bool-cases (bytes_beq key j)) [
    | inl e ↦
        let same : key ≡ j = (bytes_beq_iff key j).0 e in
        let here : holds u n (grant txn mode (queue_of key m)) ≡ true =
          rw (lookup-insert key j (grant txn mode (queue_of key m)) m.tables, e) at h in
        elim (holds-grant txn mode u n (queue_of key m) p here) [
          | inl old ↦ ground (arith, is_noted-note u txn key j m, s.noted u n j (rw (← same) old))
          | inr (own, _) ↦ ground (arith, is_noted-note u txn key j m, ==_iff txn u, own, e)
        ]
    | inr e ↦ ground (
      arith,
      is_noted-note u txn key j m,
      s.noted u n j (rw (lookup-insert key j (grant txn mode (queue_of key m)) m.tables, e) at h),
    )
  ];
}

pub attempt-IsNoted :
    (m : LockManager) (txn : ℕ) (key : Bytes) (mode : LockMode)
    → pending_mode txn (queue_of key m) ≡ some mode
    → IsNoted m
    → IsNoted (attempt txn key mode m).0
unfolding attempt
attempt-IsNoted m txn key mode p s = elim (Bool-cases (can_grant txn mode (queue_of key m))) [
  | inl yes' ↦ rw yes' (rebuild-IsNoted _ (grant-IsNoted m txn key mode p s))
  | inr no' ↦ elim (Bool-cases (has_cycle (rebuild_wait_edges m).wait_for txn)) [
    | inl cycle ↦
        rw (no', cycle)
          (rebuild-IsNoted _ (
            set_queue-IsNoted m key (drop_pending txn (queue_of key m))
              (λ u n h. holds-drop_pending txn u n (queue_of key m) h) s))
    | inr wait ↦ rw (no', wait) (rebuild-IsNoted m s)
  ]
]

pub acquire-IsNoted :
    (m : LockManager) (txn : ℕ) (key : Bytes) (mode : LockMode)
    → pending_mode txn (queue_of key m) ≡ none
    → IsNoted m
    → IsNoted (acquire txn key mode m).0
unfolding acquire
acquire-IsNoted m txn key mode p s = elim (Bool-cases (holds_enough txn mode (queue_of key m))) [
  | inl held ↦ rw held (note-IsNoted m txn key s)
  | inr new ↦
      let queue = queue_of key m ++ request txn mode ∷ [] in
      let m' : LockManager = record m { tables = insert key queue m.tables } in
      let here : queue_of key m' ≡ queue =
        ground (arith, queue_of-insert key key queue m, bytes_beq_iff key key) in
      rw new (
        attempt-IsNoted m' txn key mode (rw here (pending-append txn mode (queue_of key m) p)) (
          set_queue-IsNoted m key queue
            (λ u n h. sym (holds-append_pending u txn n mode (queue_of key m)) ∙ h) s))
]
