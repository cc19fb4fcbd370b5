-- ===== src/Lock/Grant.antt =====
-- When `acquire` of core/lock_manager.cc grants without waiting.
use custom_sql_database.Prelude.{
  ℕ, ◌≡◌, ◌≢◌, inl, inr, refl, sym, ◌∙◌, true, List, [], ◌∷◌, ◌++◌, ◌==◌, ==_iff, arith, Bytes,
  bytes_eq, bytes_beq_iff, lookup, insert, lookup-insert, Bool-cases,
}
use custom_sql_database.Lock.Manager.{
  LockMode, shared, exclusive, same_mode, LockRequest, Queue, LockManager, queue_of, or_empty,
  holds_enough, can_grant, grant, rebuild_wait_edges, attempt, acquire, granted,
}
use custom_sql_database.Lock.Exclusion.{holds, holds-append_pending}
use custom_sql_database.Lock.Safety.{request}

-- Every other holder is compatible with the mode.
abbrev pub Compatible : ℕ → LockMode → Queue → Type 0
Compatible txn mode queue =
    (u : ℕ) (n : LockMode) → txn ≢ u → holds u n queue ≡ true → (mode ≡ shared) × (n ≡ shared)

same_mode_refl : (mode : LockMode) → same_mode mode mode ≡ true
same_mode_refl shared = refl
same_mode_refl exclusive = refl

holds-own :
    (req : LockRequest) (queue : Queue)
    → req.granted ≡ true
    → holds req.txn_id req.mode (req ∷ queue) ≡ true
unfolding holds
holds-own req queue h = ground (arith, h, ==_iff req.txn_id req.txn_id, same_mode_refl req.mode)

Compatible-tail :
    (txn : ℕ) (mode : LockMode) (req : LockRequest) (queue : Queue)
    → Compatible txn mode (req ∷ queue)
    → Compatible txn mode queue
unfolding holds
Compatible-tail txn mode req queue c u n ne h = c u n ne (ground (arith, h))

can_grant-Compatible :
    (txn : ℕ) (mode : LockMode) (queue : Queue)
    → Compatible txn mode queue
    → can_grant txn mode queue ≡ true
unfolding can_grant
can_grant-Compatible txn mode [] c = refl
can_grant-Compatible txn mode (req ∷ queue) c =
    let rest = can_grant-Compatible txn mode queue (Compatible-tail txn mode req queue c) in
    elim (Bool-cases req.granted) [
      | inr pending ↦ ground (arith, rest, pending)
      | inl held ↦ elim (Bool-cases (req.txn_id == txn)) [
        | inl own ↦ ground (arith, rest, held, own)
        | inr other ↦
            let (shared_mode, shared_req) =
              c req.txn_id req.mode (λ e. absurd (ground (arith, e, other, ==_iff req.txn_id txn)))
                (holds-own req queue held) in
            rw (held, other, shared_mode, shared_req) rest
      ]
    ]

grant-holds_enough :
    (txn : ℕ) (mode : LockMode) (queue : Queue)
    → holds_enough txn mode (grant txn mode (queue ++ request txn mode ∷ [])) ≡ true
unfolding holds_enough grant
grant-holds_enough txn shared [] = ground (arith, ==_iff txn txn)
grant-holds_enough txn exclusive [] = ground (arith, ==_iff txn txn)
grant-holds_enough txn shared (req ∷ queue) = ground (arith, grant-holds_enough txn shared queue)
grant-holds_enough txn exclusive (req ∷ queue) =
    ground (arith, grant-holds_enough txn exclusive queue)

queue_of-note :
    (key : Bytes) (queue : Queue) (tables : List (Bytes × Queue))
    → or_empty (lookup key (insert key queue tables)) ≡ queue
queue_of-note key queue tables =
    rw (lookup-insert key key queue tables, (bytes_beq_iff key key).1 refl) refl

-- `acquire` grants without waiting where every other transaction that holds the lock is
-- compatible with the mode, and then the transaction holds a lock that is strong enough.
pub acquire-granted :
    (txn : ℕ) (key : Bytes) (mode : LockMode) (m : LockManager)
    → Compatible txn mode (queue_of key m)
    → ((acquire txn key mode m).1 ≡ granted)
      × (holds_enough txn mode (queue_of key (acquire txn key mode m).0) ≡ true)
unfolding acquire attempt queue_of rebuild_wait_edges
acquire-granted txn key mode m c = elim (Bool-cases (holds_enough txn mode (queue_of key m))) [
  | inl enough ↦ rw enough (refl, enough)
  | inr short ↦
      let queue = or_empty (lookup key m.tables) in
      let grown = queue ++ request txn mode ∷ [] in
      let free =
        can_grant-Compatible txn mode grown
          (λ u n ne h. c u n ne (sym (holds-append_pending u txn n mode queue) ∙ h)) in
      rw (short, queue_of-note key grown m.tables, free)
        (
          refl,
          rw (queue_of-note key (grant txn mode grown) (insert key grown m.tables))
              (grant-holds_enough txn mode queue),
        )
]
