-- ===== src/Lock/Deadlock.antt =====
-- The deadlocks that `acquire` of core/lock_manager.cc reports, in terms of the requests in its
-- queues: the edges that `rebuild_wait_edges_locked` draws and the search of `has_cycle` together.
use custom_sql_database.Prelude.{
  ℕ, ◌≡◌, ◌⊎◌, inl, inr, refl, sym, ap, ◌∙◌, Bool, true, false, not, ◌&&◌, ◌||◌, List, [], ◌∷◌,
  ◌==◌, arith, Bytes, bytes_eq, bytes_beq_iff, nat_eq, lookup, member, set_insert, lookup-insert,
  member-set_insert, Bool-cases, ==_iff,
}
use custom_sql_database.Lock.Manager.{
  LockMode, Queue, Graph, LockManager, queue_of, can_grant, holders, add_edge, add_edges,
  queue_edges, table_edges, rebuild_wait_edges, has_cycle, drop_pending, set_queue, attempt,
  deadlock,
}
use custom_sql_database.Lock.Cycle.{successors, Walk, edge, then', Deadlock, has_cycle-Deadlock}

-- The transaction has a request in the queue that is granted.
unfoldable pub is_holder : ℕ → Queue → Bool
is_holder txn [] = false
is_holder txn (req ∷ queue) = (req.granted && req.txn_id == txn) || is_holder txn queue

-- The transaction has a request in the queue that is not granted.
unfoldable pub is_pending : ℕ → Queue → Bool
is_pending txn [] = false
is_pending txn (req ∷ queue) = (not req.granted && req.txn_id == txn) || is_pending txn queue

-- The first transaction waits in a queue in which the second one holds the lock.
unfoldable pub waits_for : ℕ → ℕ → List (Bytes × Queue) → Bool
unfolding is_holder is_pending
waits_for a b [] = false
waits_for a b ((_, queue) ∷ tables) =
    (not (a == b) && is_pending a queue && is_holder b queue) || waits_for a b tables

member-add_edge :
    (x y a b : ℕ) (graph : Graph)
    → member b (successors (add_edge x y graph) a)
      ≡ ((x == a && y == b) || member b (successors graph a))
unfolding add_edge member
member-add_edge x y a b graph = ground (
  arith,
  lookup-insert x a (set_insert y (successors graph x)) graph,
  member-set_insert y b (successors graph x),
  ==_iff x a,
)

member-add_edges :
    (x : ℕ) (held : List ℕ) (a b : ℕ) (graph : Graph)
    → member b (successors (add_edges x held graph) a)
      ≡ ((x == a && not (x == b) && member b held) || member b (successors graph a))
unfolding add_edges member
member-add_edges x [] a b graph = ground arith
member-add_edges x (h ∷ held) a b graph = elim (Bool-cases (h == x)) [
  | inl own ↦
      rw own
        (ground (arith, own, member-add_edges x held a b graph, ==_iff h x, ==_iff h b, ==_iff x b))
  | inr other ↦ rw other (
      ground (
        arith,
        other,
        member-add_edges x held a b (add_edge x h graph),
        member-add_edge x h a b graph,
        ==_iff h x,
        ==_iff h b,
        ==_iff x b,
      ))
]

member-holders : (b : ℕ) (queue : Queue) → member b (holders queue) ≡ is_holder b queue
unfolding holders is_holder member
member-holders b [] = refl
member-holders b (req ∷ queue) =
    ground (arith, member-holders b queue, member-set_insert req.txn_id b (holders queue))

member-queue_edges :
    (held : List ℕ) (queue : Queue) (a b : ℕ) (graph : Graph)
    → member b (successors (queue_edges held queue graph) a)
      ≡ ((not (a == b) && is_pending a queue && member b held) || member b (successors graph a))
unfolding queue_edges is_pending
member-queue_edges held [] a b graph = ground arith
member-queue_edges held (req ∷ queue) a b graph = elim (Bool-cases req.granted) [
  | inl done ↦ rw done (ground (arith, done, member-queue_edges held queue a b graph))
  | inr pending ↦ rw pending (
      ground (
        arith,
        pending,
        member-queue_edges held queue a b (add_edges req.txn_id held graph),
        member-add_edges req.txn_id held a b graph,
        ==_iff req.txn_id a,
      ))
]

member-table_edges :
    (tables : List (Bytes × Queue)) (a b : ℕ) (graph : Graph)
    → member b (successors (table_edges tables graph) a)
      ≡ (waits_for a b tables || member b (successors graph a))
unfolding table_edges waits_for
member-table_edges [] a b graph = ground arith
member-table_edges ((_, queue) ∷ tables) a b graph = ground (
  arith,
  member-table_edges tables a b (queue_edges (holders queue) queue graph),
  member-queue_edges (holders queue) queue a b graph,
  member-holders b queue,
)

-- The edges are the waits.
member-rebuild_wait_edges :
    (m : LockManager) (a b : ℕ)
    → member b (successors (rebuild_wait_edges m).wait_for a) ≡ waits_for a b m.tables
unfolding rebuild_wait_edges lookup member
member-rebuild_wait_edges m a b = ground (arith, member-table_edges m.tables a b [])

-- Waits that follow each other, one or more.
pub data Chain (tables : List (Bytes × Queue)) : ℕ → ℕ → Type 0 where
  link : {a b : ℕ} → waits_for a b tables ≡ true → Chain tables a b
  longer : {a b c : ℕ} → Chain tables a b → waits_for b c tables ≡ true → Chain tables a c

Walk-Chain :
    (m : LockManager) {a b : ℕ} → Walk (rebuild_wait_edges m).wait_for a b → Chain m.tables a b
Walk-Chain m (edge {a} {b} e) = link (sym (member-rebuild_wait_edges m a b) ∙ e)
Walk-Chain m (then' {a} {b} {c} w e) =
    longer (Walk-Chain m w) (sym (member-rebuild_wait_edges m b c) ∙ e)

-- The transaction is on a ring of waits, or waits for one that is.
abbrev pub Deadlocked : List (Bytes × Queue) → ℕ → Type 0
Deadlocked tables txn = (v : ℕ) × ((txn ≡ v) ⊎ Chain tables txn v) × Chain tables v v

has_cycle-Deadlocked :
    (m : LockManager) (txn : ℕ)
    → has_cycle (rebuild_wait_edges m).wait_for txn ≡ true
    → Deadlocked m.tables txn
unfolding Deadlock
has_cycle-Deadlocked m txn h =
    let (v, waits, ring) = has_cycle-Deadlock (rebuild_wait_edges m).wait_for txn h in
    (v, elim waits [ inl e ↦ inl e | inr w ↦ inr (Walk-Chain m w) ], Walk-Chain m ring)

drop_pending-is_pending :
    (txn : ℕ) (queue : Queue) → is_pending txn (drop_pending txn queue) ≡ false
unfolding drop_pending is_pending
drop_pending-is_pending txn [] = refl
drop_pending-is_pending txn (req ∷ queue) = ground (arith, drop_pending-is_pending txn queue)

drop_pending-is_holder :
    (txn u : ℕ) (queue : Queue) → is_holder u (drop_pending txn queue) ≡ is_holder u queue
unfolding drop_pending is_holder
drop_pending-is_holder txn u [] = refl
drop_pending-is_holder txn u (req ∷ queue) = ground (arith, drop_pending-is_holder txn u queue)

queue_of-set_queue :
    (key : Bytes) (queue : Queue) (m : LockManager)
    → queue_of key (rebuild_wait_edges (set_queue key queue m)) ≡ queue
unfolding queue_of rebuild_wait_edges
queue_of-set_queue key queue m =
    ground (arith, lookup-insert key key queue m.tables, bytes_beq_iff key key)

-- What a refusal means.
pub record Refused (txn : ℕ) (key : Bytes) (mode : LockMode) (m m' : LockManager) : Type 0 where
  pub blocked : can_grant txn mode (queue_of key m) ≡ false
  pub deadlocked : Deadlocked m.tables txn
  pub gone : is_pending txn (queue_of key m') ≡ false
  pub kept : (u : ℕ) → is_holder u (queue_of key m') ≡ is_holder u (queue_of key m)

-- When a run of the loop of `acquire` is refused as a deadlock, the request could not be granted,
-- and the transaction is on a ring of waits or waits, perhaps through others, for one that is,
-- where each transaction has a waiting request in a queue in which the next one holds a lock;
-- behind it the transaction no longer waits for the key, and the holders of the key are what they
-- were.
pub attempt-Refused :
    (txn : ℕ) (key : Bytes) (mode : LockMode) (m : LockManager)
    → (attempt txn key mode m).1 ≡ deadlock
    → Refused txn key mode m (attempt txn key mode m).0
unfolding attempt
attempt-Refused txn key mode m h = elim (Bool-cases (can_grant txn mode (queue_of key m))) [
  | inl free ↦ absurd (ground (arith, h, free))
  | inr blocked ↦ elim (Bool-cases (has_cycle (rebuild_wait_edges m).wait_for txn)) [
    | inr none ↦ absurd (ground (arith, h, blocked, none))
    | inl found ↦
        let left = drop_pending txn (queue_of key m) in
        rw (blocked, found)
          (record {
            blocked = blocked;
            deadlocked = has_cycle-Deadlocked m txn found;
            gone =
                ap (is_pending txn) (queue_of-set_queue key left m)
                ∙ drop_pending-is_pending txn (queue_of key m);
            kept = λ u.
                ap (is_holder u) (queue_of-set_queue key left m)
                ∙ drop_pending-is_holder txn u (queue_of key m);
          })
  ]
]
