-- ===== src/PlanCache/Bounds.antt =====
-- The cache of core/plan_cache.cc holds no more than its capacity, and its list and its entries agree.
use custom_sql_database.Prelude.{
  ◌≤◌, ◌<◌, ◌≡◌, refl, ap, none, some, arith, Bytes, bytes_eq, bytes_beq_iff, leb, length, lookup,
  insert, member, lookup-erase, lookup-insert, member-set_erase, Bool-cases, Option-cases, inl, inr,
}
use custom_sql_database.PlanCache.{PlanCache, back, get, forget, evict, push, put}
use custom_sql_database.PlanCache.Uses.{
  is_some, IsUnique, length-erase, length-erase_some, set_erase-IsUnique, back-member,
  pop_back-member, pop_back-IsUnique, back-none, first_key,
}

pub record IsCache {S : Type 0} (c : PlanCache S) : Type 0 where
  pub positive : 1 ≤ c.capacity
  pub bounded : length c.entries ≤ c.capacity
  pub unique : IsUnique c.lru_order
  pub linked : (sql : Bytes) → member sql c.lru_order ≡ is_some (lookup sql c.entries)

module _ {S : Type 0} where
  -- Fewer entries than the capacity.
  abbrev HasRoom : PlanCache S → Type 0
  HasRoom c = length c.entries < c.capacity

  forget-IsCache : (sql : Bytes) (c : PlanCache S) → IsCache c → IsCache (forget sql c)
  unfolding forget
  forget-IsCache sql c i = elim (Option-cases (lookup sql c.entries)) [
    | inl e ↦ rw (forget, e) i
    | inr (stmt, e) ↦
        rw (forget, e)
          (record {
            positive = i.positive;
            bounded = omega (arith, i.bounded, length-erase sql c.entries);
            unique = set_erase-IsUnique sql c.lru_order i.unique;
            linked = λ k. ground (
              arith,
              member-set_erase sql k c.lru_order,
              lookup-erase sql k c.entries,
              i.linked k,
            );
          })
  ]

  forget-forgets :
      (sql : Bytes) (c : PlanCache S) → IsCache c → lookup sql (forget sql c).entries ≡ none
  unfolding forget
  forget-forgets sql c i = elim (Option-cases (lookup sql c.entries)) [
    | inl e ↦ rw (forget, e) e
    | inr (stmt, e) ↦
        rw (forget, e)
          (ground (arith, lookup-erase sql sql c.entries, (bytes_beq_iff sql sql).1 refl))
  ]

  evict-IsCache : (c : PlanCache S) → IsCache c → IsCache (evict c) × HasRoom (evict c)
  unfolding evict
  evict-IsCache c i = elim (Bool-cases (leb c.capacity (length c.entries))) [
    | inr room ↦ rw room (i, ground (arith, room))
    | inl full ↦ elim (Option-cases (back c.lru_order)) [
      | inl e ↦
          let (k, here) = first_key c.entries (ground (arith, full, i.positive)) in
          absurd (ground (arith, here, i.linked k, back-none c.lru_order k e))
      | inr (old, e) ↦
          rw (full, e)
            (let less =
                length-erase_some old c.entries
                  (ground (arith, i.linked old, back-member c.lru_order old e)) in
              (
                record {
                  positive = i.positive;
                  bounded = omega (arith, i.bounded, less);
                  unique = pop_back-IsUnique c.lru_order i.unique;
                  linked = λ k. ground (
                    arith,
                    pop_back-member c.lru_order old k i.unique e,
                    lookup-erase old k c.entries,
                    i.linked k,
                  );
                },
                omega (arith, i.bounded, less),
              ))
    ]
  ]

  evict-forgotten :
      (sql : Bytes) (c : PlanCache S)
      → lookup sql c.entries ≡ none
      → lookup sql (evict c).entries ≡ none
  unfolding evict
  evict-forgotten sql c h = elim (Bool-cases (leb c.capacity (length c.entries))) [
    | inr room ↦ rw (evict, room) h
    | inl full ↦ elim (Option-cases (back c.lru_order)) [
      | inl e ↦ rw (evict, full, e) h
      | inr (old, e) ↦ rw (evict, full, e) (ground (arith, h, lookup-erase old sql c.entries))
    ]
  ]

  push-IsCache :
      (sql : Bytes) (stmt : S) (c : PlanCache S)
      → IsCache c
      → HasRoom c
      → lookup sql c.entries ≡ none
      → IsCache (push sql stmt c)
  unfolding push insert member
  push-IsCache sql stmt c i room new = record {
    positive = i.positive;
    bounded = omega (arith, room, length-erase sql c.entries);
    unique = (ground (arith, i.linked sql, new), i.unique);
    linked = λ k. ground (arith, i.linked k, lookup-insert sql k stmt c.entries);
  }

  get-found :
      (sql : Bytes) (stmt : S) (c : PlanCache S)
      → lookup sql c.entries ≡ some stmt
      → (get sql c).0 ≡ some stmt
  unfolding get
  get-found sql stmt c h = rw (get, h) refl

  get-push : (sql : Bytes) (stmt : S) (c : PlanCache S) → (get sql (push sql stmt c)).0 ≡ some stmt
  unfolding push
  get-push sql stmt c =
      get-found sql stmt (push sql stmt c)
        (ground (arith, lookup-insert sql sql stmt c.entries, (bytes_beq_iff sql sql).1 refl))

  -- `put` keeps a well-formed plan cache well formed: it holds no more entries than its capacity,
  -- which is positive, and the list of last uses has the query of every entry exactly once and no
  -- other; the next `get` of the query gives the stored statement.
  pub put-IsCache :
      (sql : Bytes) (stmt : S) (c : PlanCache S)
      → IsCache c
      → IsCache (put sql stmt c) × ((get sql (put sql stmt c)).0 ≡ some stmt)
  unfolding put
  put-IsCache sql stmt c i =
      let e = evict-IsCache (forget sql c) (forget-IsCache sql c i) in
      let new = evict-forgotten sql (forget sql c) (forget-forgets sql c i) in
      (
        push-IsCache sql stmt (evict (forget sql c)) e.0 e.1 new,
        get-push sql stmt (evict (forget sql c)),
      )

  pub get-IsCache : (sql : Bytes) (c : PlanCache S) → IsCache c → IsCache (get sql c).1
  unfolding get member
  get-IsCache sql c i = elim (Option-cases (lookup sql c.entries)) [
    | inl e ↦ rw (get, e) i
    | inr (stmt, e) ↦
        rw (get, e)
          (record {
            positive = i.positive;
            bounded = i.bounded;
            unique = (
              ground (arith, member-set_erase sql sql c.lru_order, (bytes_beq_iff sql sql).1 refl),
              set_erase-IsUnique sql c.lru_order i.unique,
            );
            linked = λ k. ground (
              arith,
              member-set_erase sql k c.lru_order,
              i.linked k,
              e,
              bytes_beq_iff sql k,
              λ (p : sql ≡ k). ap (λ n. lookup n c.entries) p,
            );
          })
  ]
