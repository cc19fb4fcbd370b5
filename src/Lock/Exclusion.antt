-- ===== src/Lock/Exclusion.antt =====
-- Mutual exclusion of the locks that core/lock_manager.cc grants, over every interleaving of the
-- calls of concurrent transactions.
use custom_sql_database.Prelude.{
  ℕ, ◌≡◌, ◌≢◌, ◌⊎◌, inl, inr, refl, sym, ◌∙◌, Bool, true, false, not, ◌&&◌, ◌||◌, Option, none,
  some, [], ◌∷◌, ◌++◌, ◌==◌, arith, Bytes, nat_eq, bytes_eq, bytes_beq, if◌then◌else◌, insert,
  lookup-insert, Bool-cases,
}
use custom_sql_database.Lock.Manager.{
  LockMode, shared, exclusive, is_exclusive, same_mode, LockRequest, Queue, LockManager, queue_of,
  can_grant, grant, drop_pending, drop_all,
}

-- The transaction holds a granted lock of the mode.
unfoldable pub holds : ℕ → LockMode → Queue → Bool
holds txn mode [] = false
holds txn mode (req ∷ queue) =
    (req.granted && req.txn_id == txn && same_mode req.mode mode) || holds txn mode queue

-- Two transactions that hold a lock both hold it shared.
pub record IsCompatible (queue : Queue) : Type 0 where
  pub both_shared :
      (t u : ℕ) (m n : LockMode)
      → t ≢ u
      → holds t m queue ≡ true
      → holds u n queue ≡ true
      → (m ≡ shared) × (n ≡ shared)

-- What `can_grant` found: every other holder is compatible with the mode, or the transaction
-- holds a strong enough lock already.
CompatibleWith : ℕ → LockMode → Queue → Type 0
CompatibleWith txn mode queue =
    (u : ℕ) (n : LockMode) → txn ≢ u → holds u n queue ≡ true → (mode ≡ shared) × (n ≡ shared)

StrongEnough : ℕ → LockMode → Queue → Type 0
StrongEnough txn mode queue =
    (m : LockMode) × (holds txn m queue ≡ true) × ((mode ≡ shared) ⊎ (m ≡ exclusive))

mode_cases :
    (mode m : LockMode)
    → (not (is_exclusive mode) || is_exclusive m) ≡ true
    → (mode ≡ shared) ⊎ (m ≡ exclusive)
mode_cases shared m h = inl refl
mode_cases exclusive exclusive h = inr refl
mode_cases exclusive shared h = absurd (ground arith)

can_grant_step :
    (txn : ℕ) (mode : LockMode) (req : LockRequest) (queue : Queue)
    → can_grant txn mode (req ∷ queue) ≡ true
    → (can_grant txn mode queue ≡ true
        → CompatibleWith txn mode queue ⊎ StrongEnough txn mode queue)
    → CompatibleWith txn mode (req ∷ queue) ⊎ StrongEnough txn mode (req ∷ queue)
unfolding can_grant holds CompatibleWith StrongEnough
can_grant_step txn mode req queue h ih = elim (Bool-cases req.granted) [
  | inr g ↦ elim (ih (ground arith)) [
    | inl c ↦ inl (λ u n ne e. c u n ne (ground arith))
    | inr (m, e, s) ↦ inr (m, ground arith, s)
  ]
  | inl g ↦ elim (Bool-cases (req.txn_id == txn)) [
    | inl own ↦ elim (Bool-cases (not (is_exclusive mode) || is_exclusive req.mode)) [
      | inl strong ↦ inr (req.mode, ground arith, mode_cases mode req.mode strong)
      | inr weak ↦ elim (ih (ground arith)) [
        | inl c ↦ inl (λ u n ne e. c u n ne (ground arith))
        | inr (m, e, s) ↦ inr (m, ground arith, s)
      ]
    ]
    | inr other ↦ elim (ih (ground arith)) [
      | inl c ↦ inl (λ u n ne e. ground (arith, c u n ne))
      | inr (m, e, s) ↦ inr (m, ground arith, s)
    ]
  ]
]

can_grant-cases :
    (txn : ℕ) (mode : LockMode) (queue : Queue)
    → can_grant txn mode queue ≡ true
    → CompatibleWith txn mode queue ⊎ StrongEnough txn mode queue
unfolding can_grant holds CompatibleWith StrongEnough
can_grant-cases txn mode [] h = inl (λ u n ne f. cc)
can_grant-cases txn mode (req ∷ queue) h =
    can_grant_step txn mode req queue h (λ r. can_grant-cases txn mode queue r)

-- A lock may be granted when `can_grant` says so.
granted_compatible :
    (txn : ℕ) (mode : LockMode) (queue : Queue)
    → IsCompatible queue
    → can_grant txn mode queue ≡ true
    → CompatibleWith txn mode queue
unfolding CompatibleWith StrongEnough
granted_compatible txn mode queue c h = elim (can_grant-cases txn mode queue h) [
  | inl w ↦ w
  | inr (m, held, s) ↦ λ u n ne e.
      let (m_shared, n_shared) = c.both_shared txn u m n ne held e in
      elim s [ inl p ↦ (p, n_shared) | inr x ↦ absurd (cc (x, m_shared)) ]
]

-- The mode of the first request of the transaction that is not granted.
unfoldable pub pending_mode : ℕ → Queue → Option LockMode
pending_mode txn [] = none
pending_mode txn (req ∷ queue) =
    if req.txn_id == txn && not req.granted then some req.mode else pending_mode txn queue

holds_granted :
    (txn : ℕ) (mode : LockMode) (u : ℕ) (n : LockMode) (req : LockRequest) (queue : Queue)
    → (req.txn_id == txn && not req.granted) ≡ true
    → pending_mode txn (req ∷ queue) ≡ some mode
    → holds u n (grant txn mode (req ∷ queue)) ≡ true
    → (holds u n (req ∷ queue) ≡ true) ⊎ ((txn ≡ u) × (n ≡ mode))
unfolding holds grant pending_mode
holds_granted txn mode u n req queue here p h = elim (Bool-cases (holds u n queue)) [
  | inl old ↦ inl (ground arith)
  | inr new ↦ inr (ground arith, ground arith)
]

pub holds-grant :
    (txn : ℕ) (mode : LockMode) (u : ℕ) (n : LockMode) (queue : Queue)
    → pending_mode txn queue ≡ some mode
    → holds u n (grant txn mode queue) ≡ true
    → (holds u n queue ≡ true) ⊎ ((txn ≡ u) × (n ≡ mode))
unfolding holds grant pending_mode
holds-grant txn mode u n [] p h = cc
holds-grant txn mode u n (req ∷ queue) p h =
    elim (Bool-cases (req.txn_id == txn && not req.granted)) [
      | inl here ↦ holds_granted txn mode u n req queue here p h
      | inr later ↦ elim (Bool-cases (holds u n (grant txn mode queue))) [
        | inl rest ↦ elim (holds-grant txn mode u n queue (ground arith) rest) [
          | inl old ↦ inl (ground arith)
          | inr new ↦ inr new
        ]
        | inr none' ↦ inl (ground arith)
      ]
    ]

pub IsCompatible-mono :
    {queue queue' : Queue}
    → ((u : ℕ) (n : LockMode) → holds u n queue' ≡ true → holds u n queue ≡ true)
    → IsCompatible queue
    → IsCompatible queue'
IsCompatible-mono keeps c = record {
  both_shared = λ t u m n ne ht hu. c.both_shared t u m n ne (keeps t m ht) (keeps u n hu);
}

pub grant-IsCompatible :
    (txn : ℕ) (mode : LockMode) (queue : Queue)
    → IsCompatible queue
    → pending_mode txn queue ≡ some mode
    → can_grant txn mode queue ≡ true
    → IsCompatible (grant txn mode queue)
unfolding CompatibleWith
grant-IsCompatible txn mode queue c p g = record {
  both_shared = λ t u m n ne ht hu. elim (holds-grant txn mode t m queue p ht) [
    | inl old_t ↦ elim (holds-grant txn mode u n queue p hu) [
      | inl old_u ↦ c.both_shared t u m n ne old_t old_u
      | inr (is_u, is_n) ↦
          let (mode_s, m_s) =
            granted_compatible txn mode queue c g t m (λ e. ne (sym e ∙ is_u)) old_t in
          (m_s, is_n ∙ mode_s)
    ]
    | inr (is_t, is_m) ↦ elim (holds-grant txn mode u n queue p hu) [
      | inl old_u ↦
          let (mode_s, n_s) =
            granted_compatible txn mode queue c g u n (λ e. ne (sym is_t ∙ e)) old_u in
          (is_m ∙ mode_s, n_s)
      | inr (is_u, is_n) ↦ absurd (ne (sym is_t ∙ is_u))
    ]
  ];
}

pub holds-drop_pending :
    (txn u : ℕ) (n : LockMode) (queue : Queue)
    → holds u n (drop_pending txn queue) ≡ true
    → holds u n queue ≡ true
unfolding holds drop_pending
holds-drop_pending txn u n [] h = h
holds-drop_pending txn u n (req ∷ queue) h = ground (arith, holds-drop_pending txn u n queue)

pub holds-drop_all :
    (txn u : ℕ) (n : LockMode) (queue : Queue)
    → holds u n (drop_all txn queue) ≡ true
    → holds u n queue ≡ true
unfolding holds drop_all
holds-drop_all txn u n [] h = h
holds-drop_all txn u n (req ∷ queue) h = ground (arith, holds-drop_all txn u n queue)

-- A request that waits holds nothing.
pub holds-append_pending :
    (u txn : ℕ) (n mode : LockMode) (queue : Queue)
    → holds u n (queue ++ (record { txn_id = txn; mode = mode; granted = false }) ∷ [])
      ≡ holds u n queue
unfolding holds
holds-append_pending u txn n mode [] = refl
holds-append_pending u txn n mode (req ∷ queue) =
    ground (arith, holds-append_pending u txn n mode queue)

pub pending-append :
    (txn : ℕ) (mode : LockMode) (queue : Queue)
    → pending_mode txn queue ≡ none
    → pending_mode txn (queue ++ (record { txn_id = txn; mode = mode; granted = false }) ∷ [])
      ≡ some mode
unfolding pending_mode
pending-append txn mode [] h = ground arith
pending-append txn mode (req ∷ queue) h = ground (arith, pending-append txn mode queue)

-- No queue has two holders one of which holds it exclusively.
pub record IsSafe (m : LockManager) : Type 0 where
  pub compatible : (key : Bytes) → IsCompatible (queue_of key m)

pub queue_of-insert :
    (key j : Bytes) (queue : Queue) (m : LockManager)
    → queue_of j (record m { tables = insert key queue m.tables })
      ≡ (if bytes_beq key j then queue else queue_of j m)
unfolding queue_of
queue_of-insert key j queue m = ground (arith, lookup-insert key j queue m.tables)

pub set_queue-IsSafe :
    (m : LockManager) (key : Bytes) (queue : Queue)
    → IsSafe m
    → IsCompatible queue
    → IsSafe (record m { tables = insert key queue m.tables })
set_queue-IsSafe m key queue s c = record {
  compatible = λ j. elim (Bool-cases (bytes_beq key j)) [
    | inl e ↦ rw (queue_of-insert, e) c
    | inr e ↦ rw (queue_of-insert, e) (s.compatible j)
  ];
}
