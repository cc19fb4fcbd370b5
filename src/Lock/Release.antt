-- ===== src/Lock/Release.antt =====
-- `release_all` of core/lock_manager.cc frees the locks of the transaction and no others.
use custom_sql_database.Prelude.{
  ℕ, ◌≡◌, ◌≢◌, inl, inr, refl, ap, sym, ◌∙◌, true, false, some, List, [], ◌∷◌, ◌==◌, ==_iff, arith,
  Bytes, nat_eq, bytes_eq, bytes_beq, bytes_beq_iff, lookup, member, lookup-erase, Bool-cases,
  Option-cases,
}
use custom_sql_database.Lock.Manager.{
  LockMode, Queue, LockManager, or_empty, queue_of, rebuild_wait_edges, drop_all, release_table,
  release_tables, release_all,
}
use custom_sql_database.Lock.Exclusion.{holds}
use custom_sql_database.Lock.Safety.{
  Step, acquires, retries, releases, Reach, start, next, queue_in, queue_in-put_or_erase,
  holds-release_tables,
}
use custom_sql_database.Lock.Noted.{IsNoted, rebuild-IsNoted, acquire-IsNoted, attempt-IsNoted}

holds-drop_all_self :
    (txn : ℕ) (n : LockMode) (queue : Queue) → holds txn n (drop_all txn queue) ≡ false
unfolding holds drop_all
holds-drop_all_self txn n [] = refl
holds-drop_all_self txn n (req ∷ queue) = ground (arith, holds-drop_all_self txn n queue)

release_table-gone :
    (txn : ℕ) (n : LockMode) (key : Bytes) (tables : List (Bytes × Queue))
    → holds txn n (queue_in key (release_table txn key tables)) ≡ false
unfolding release_table holds
release_table-gone txn n key tables = elim (Option-cases (lookup key tables)) [
  | inl missing ↦ rw (missing, release_table, holds) (rw missing refl)
  | inr (queue, found) ↦
      rw (found, release_table, queue_in-put_or_erase, (bytes_beq_iff key key).1 refl)
        (holds-drop_all_self txn n queue)
]

release_tables-gone :
    (txn : ℕ) (n : LockMode) (keys : List Bytes) (j : Bytes) (tables : List (Bytes × Queue))
    → member j keys ≡ true
    → holds txn n (queue_in j (release_tables txn keys tables)) ≡ false
unfolding release_tables member
release_tables-gone txn n [] j tables h = absurd (ground (arith, h))
release_tables-gone txn n (key ∷ keys) j tables h = elim (Bool-cases (member j keys)) [
  | inl later ↦ release_tables-gone txn n keys j (release_table txn key tables) later
  | inr now ↦
      let same : key ≡ j = ground (arith, h, now, bytes_beq_iff key j) in
      let gone : holds txn n (queue_in j (release_table txn key tables)) ≡ false =
        rw (← same) (release_table-gone txn n key tables) in
      ground (arith, holds-release_tables txn txn n keys j (release_table txn key tables), gone)
]

-- What is left of the locks after a release: those of the other transactions.
released-holds :
    (m : LockManager) (txn : ℕ) (keys : List Bytes) (u : ℕ) (n : LockMode) (j : Bytes)
    → IsNoted m
    → lookup txn m.txn_tables ≡ some keys
    → holds u n (queue_in j (release_tables txn keys m.tables)) ≡ true
    → (txn ≢ u) × (holds u n (queue_of j m) ≡ true)
unfolding queue_of
released-holds m txn keys u n j s found h =
    let old = holds-release_tables txn u n keys j m.tables h in
    (
      λ own.
          let listed : member j keys ≡ true = rw (← own, found) at (s.noted u n j old) in
          absurd (ground (arith, h, own, release_tables-gone txn n keys j m.tables listed)),
      old,
    )

release_all-IsNoted : (m : LockManager) (txn : ℕ) → IsNoted m → IsNoted (release_all txn m)
unfolding release_all queue_of
release_all-IsNoted m txn s = elim (Option-cases (lookup txn m.txn_tables)) [
  | inl nothing ↦ rw nothing (rebuild-IsNoted m s)
  | inr (keys, found) ↦ rw found (
      rebuild-IsNoted _ (record {
        noted = λ u n j h.
            let (other, old) = released-holds m txn keys u n j s found h in
            let differs : (txn == u) ≡ false = ground (arith, other, ==_iff txn u) in
            rw (lookup-erase txn u m.txn_tables, differs) (s.noted u n j old);
      }))
]

Step-IsNoted : {m n : LockManager} → Step m n → IsNoted m → IsNoted n
Step-IsNoted (acquires m txn key mode p) s = acquire-IsNoted m txn key mode p s
Step-IsNoted (retries m txn key mode p) s = attempt-IsNoted m txn key mode p s
Step-IsNoted (releases m txn) s = release_all-IsNoted m txn s

Reach-IsNoted : {m : LockManager} → Reach m → IsNoted m
unfolding queue_of lookup holds
Reach-IsNoted start = record { noted = λ u n key h. absurd (ground (arith, h)) }
Reach-IsNoted (next r s) = Step-IsNoted s (Reach-IsNoted r)

holds-drop_all_ne :
    (txn u : ℕ) (n : LockMode) (queue : Queue)
    → txn ≢ u
    → holds u n (drop_all txn queue) ≡ holds u n queue
unfolding holds drop_all
holds-drop_all_ne txn u n [] ne = refl
holds-drop_all_ne txn u n (req ∷ queue) ne = ground (arith, ne, holds-drop_all_ne txn u n queue ne)

holds-release_table_ne :
    (txn u : ℕ) (n : LockMode) (key j : Bytes) (tables : List (Bytes × Queue))
    → txn ≢ u
    → holds u n (queue_in j (release_table txn key tables)) ≡ holds u n (queue_in j tables)
unfolding release_table
holds-release_table_ne txn u n key j tables ne = elim (Option-cases (lookup key tables)) [
  | inl missing ↦ rw (missing, release_table) refl
  | inr (queue, found) ↦ elim (Bool-cases (bytes_beq key j)) [
    | inl e ↦
        let same : key ≡ j = (bytes_beq_iff key j).0 e in
        rw (found, release_table, queue_in-put_or_erase, e)
          (holds-drop_all_ne txn u n queue ne
            ∙ ap (λ o. holds u n (or_empty o)) (sym found ∙ ap (λ k. lookup k tables) same))
    | inr e ↦ rw (found, release_table, queue_in-put_or_erase, e) refl
  ]
]

holds-release_tables_ne :
    (txn u : ℕ) (n : LockMode) (keys : List Bytes) (j : Bytes) (tables : List (Bytes × Queue))
    → txn ≢ u
    → holds u n (queue_in j (release_tables txn keys tables)) ≡ holds u n (queue_in j tables)
unfolding release_tables
holds-release_tables_ne txn u n [] j tables ne = refl
holds-release_tables_ne txn u n (key ∷ keys) j tables ne =
    holds-release_tables_ne txn u n keys j (release_table txn key tables) ne
    ∙ holds-release_table_ne txn u n key j tables ne

-- In every lock manager that calls can reach, `release_all` takes every lock from the
-- transaction, and every other transaction holds on every key exactly what it held.
pub release_all-frees :
    {m : LockManager} (txn u : ℕ) (n : LockMode) (key : Bytes)
    → Reach m
    → txn ≢ u
    → (holds txn n (queue_of key (release_all txn m)) ≡ false)
      × (holds u n (queue_of key (release_all txn m)) ≡ holds u n (queue_of key m))
unfolding release_all queue_of rebuild_wait_edges member
release_all-frees {m} txn u n key r ne =
    let s = Reach-IsNoted r in
    elim (Option-cases (lookup txn m.txn_tables)) [
      | inl nothing ↦ rw nothing (
        elim (Bool-cases (holds txn n (queue_of key m))) [
          | inl held ↦ absurd (ground (arith, rw nothing at (s.noted txn n key held)))
          | inr free ↦ free
        ],
        refl,
      )
      | inr (keys, found) ↦ rw found (
        elim (Bool-cases (holds txn n (queue_in key (release_tables txn keys m.tables)))) [
          | inl held ↦ absurd ((released-holds m txn keys txn n key s found held).0 refl)
          | inr free ↦ free
        ],
        holds-release_tables_ne txn u n keys key m.tables ne,
      )
    ]
