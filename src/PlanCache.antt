-- ===== src/PlanCache.antt =====
-- `PlanCache` of core/plan_cache.{h,cc}: the parsed statements of the last queries. `S` is the type of a
-- statement. The list holds the queries with the last used one first; an iterator into it is the query,
-- which stands there once.
pub mod Uses
pub mod Bounds
use custom_sql_database.Prelude.{
  ℕ, zero, suc, ◌≤◌, ◌<◌, ◌≡◌, refl, sym, ap, ◌∙◌, Bool, true, false, not, ◌&&◌, ◌||◌, Option, none,
  some, List, [], ◌∷◌, arith, Bytes, bytes_eq, bytes_beq, bytes_beq_iff, ◌==◌, leb, length,
  if◌then◌else◌, lookup, erase, insert, member, set_erase, lookup-erase, lookup-insert,
  member-set_erase, Bool-cases, Option-cases, inl, inr,
}

pub record PlanCache (S : Type 0) : Type 0 where
  pub capacity : ℕ
  pub lru_order : List Bytes
  pub entries : List (Bytes × S)

abbrev pub new_cache : {S : Type 0} → ℕ → PlanCache S
new_cache capacity = record {
  capacity = (if capacity == 0 then 1 else capacity);
  lru_order = [];
  entries = [];
}

-- lru_order_.back(); a read of an empty list is `none`.
unfoldable pub back : List Bytes → Option Bytes
back [] = none
back (x ∷ []) = some x
back (x ∷ y ∷ xs) = back (y ∷ xs)

unfoldable pub pop_back : List Bytes → List Bytes
pop_back [] = []
pop_back (x ∷ []) = []
pop_back (x ∷ y ∷ xs) = x ∷ pop_back (y ∷ xs)

module _ {S : Type 0} where
  -- The entry, and the state behind the call.
  unfoldable pub get : Bytes → PlanCache S → Option S × PlanCache S
  unfolding lookup set_erase
  get sql c = elim (lookup sql c.entries) [
    | none ↦ (none, c)
    | some stmt ↦ (
      some stmt,
      record {
        capacity = c.capacity;
        lru_order = sql ∷ set_erase sql c.lru_order;
        entries = c.entries;
      },
    )
  ]

  -- An entry of the query is removed.
  unfoldable pub forget : Bytes → PlanCache S → PlanCache S
  unfolding lookup set_erase erase
  forget sql c = elim (lookup sql c.entries) [
    | none ↦ c
    | some stmt ↦ record {
      capacity = c.capacity;
      lru_order = set_erase sql c.lru_order;
      entries = erase sql c.entries;
    }
  ]

  -- A full cache loses the query that was used longest ago.
  unfoldable pub evict : PlanCache S → PlanCache S
  unfolding back pop_back erase
  evict c =
      if leb c.capacity (length c.entries)
      then elim (back c.lru_order) [
        | none ↦ c
        | some old ↦ record {
          capacity = c.capacity;
          lru_order = pop_back c.lru_order;
          entries = erase old c.entries;
        }
      ]
      else c

  unfoldable pub push : Bytes → S → PlanCache S → PlanCache S
  unfolding insert
  push sql stmt c = record {
    capacity = c.capacity;
    lru_order = sql ∷ c.lru_order;
    entries = insert sql stmt c.entries;
  }

  unfoldable pub put : Bytes → S → PlanCache S → PlanCache S
  unfolding forget evict push
  put sql stmt c = push sql stmt (evict (forget sql c))

  abbrev pub clear : PlanCache S → PlanCache S
  clear c = record { capacity = c.capacity; lru_order = []; entries = [] }
