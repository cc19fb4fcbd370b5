-- ===== src/Txn/Delete.antt =====
-- `delete_row_versioned` of core/table.cc: a deletion stamps the version with the id of its
-- transaction. The rows of a table are the list that its row directory gives.
use custom_sql_database.Prelude.{
  ℕ, zero, suc, ◌≡◌, ◌≢◌, ◌<◌, refl, false, Option, none, some, List, [], ◌∷◌, arith, leb, length,
  get_elem?, if◌then◌else◌,
}
use custom_sql_database.Errors.{Result, ok, throw, out_of_range}
use custom_sql_database.Row.{Row}
use custom_sql_database.Txn.Manager.{
  TransactionManager, TransactionSnapshot, is_committed, is_visible,
}
use custom_sql_database.Txn.Freeze.{visible_values}

-- The row at the index gets the deleter `xid`.
unfoldable pub stamp : ℕ → ℕ → List Row → List Row
stamp index xid [] = []
stamp zero xid (row ∷ rows) = record row { xmax = xid } ∷ rows
stamp (suc index) xid (row ∷ rows) = row ∷ stamp index xid rows

unfoldable pub delete_row_versioned : ℕ → ℕ → List Row → Result (List Row)
unfolding stamp
delete_row_versioned index xid rows =
    if leb (length rows) index then throw out_of_range else ok (stamp index xid rows)

get_elem?-lt :
    (rows : List Row) (index : ℕ) (row : Row)
    → get_elem? rows index ≡ some row
    → index < length rows
get_elem?-lt [] index row h = absurd (ground (arith, h))
get_elem?-lt (r ∷ rows) zero row h = omega arith
get_elem?-lt (r ∷ rows) (suc index) row h = omega (arith, get_elem?-lt rows index row h)

stamped-visible :
    (m : TransactionManager) (xid reader : ℕ) (s : Option TransactionSnapshot) (row : Row)
    → row.xmax ≡ 0
    → is_committed m xid ≡ false
    → reader ≢ xid
    → is_visible m row.xmin xid reader s ≡ is_visible m row.xmin row.xmax reader s
unfolding is_visible is_committed
stamped-visible m xid reader none row live running other = ground (arith, live, running, other)
stamped-visible m xid reader (some s) row live running other = ground (arith, live, running, other)

stamp-visible_values :
    (m : TransactionManager) (xid reader : ℕ) (s : Option TransactionSnapshot) (rows : List Row)
    (index : ℕ) (row : Row)
    → get_elem? rows index ≡ some row
    → row.xmax ≡ 0
    → is_committed m xid ≡ false
    → reader ≢ xid
    → visible_values m reader s (stamp index xid rows) ≡ visible_values m reader s rows
unfolding stamp visible_values
stamp-visible_values m xid reader s [] index row at live running other = refl
stamp-visible_values m xid reader s (r ∷ rows) zero row at live running other =
    let live' : r.xmax ≡ 0 = ground (arith, at, live) in
    rw (stamped-visible m xid reader s r live' running other) refl
stamp-visible_values m xid reader s (r ∷ rows) (suc index) row at live running other =
    rw (stamp-visible_values m xid reader s rows index row at live running other) refl

-- The rows but the one at the index.
abbrev pub without_at : ℕ → List Row → List Row
without_at index [] = []
without_at zero (row ∷ rows) = rows
without_at (suc index) (row ∷ rows) = row ∷ without_at index rows

own-stamped :
    (m : TransactionManager) (xmin xid : ℕ) (s : Option TransactionSnapshot)
    → is_committed m xid ≡ false
    → is_visible m xmin xid xid s ≡ false
unfolding is_visible is_committed
own-stamped m xmin xid none running = ground (arith, running)
own-stamped m xmin xid (some t) running = ground (arith, running)

stamp-without_at :
    (m : TransactionManager) (xid : ℕ) (s : Option TransactionSnapshot) (rows : List Row)
    (index : ℕ)
    → is_committed m xid ≡ false
    → visible_values m xid s (stamp index xid rows) ≡ visible_values m xid s (without_at index rows)
unfolding stamp visible_values
stamp-without_at m xid s [] index running = refl
stamp-without_at m xid s (r ∷ rows) zero running = rw (own-stamped m r.xmin xid s running) refl
stamp-without_at m xid s (r ∷ rows) (suc index) running =
    rw (stamp-without_at m xid s rows index running) refl

-- Deleting a live version by a transaction that has not committed succeeds and changes no values
-- that any other reader sees, by any snapshot or by none, while the deleter itself sees what the
-- rows without that version show it.
pub delete_row_versioned-hides :
    (m : TransactionManager) (xid reader : ℕ) (s : Option TransactionSnapshot) (rows : List Row)
    (index : ℕ) (row : Row)
    → get_elem? rows index ≡ some row
    → row.xmax ≡ 0
    → is_committed m xid ≡ false
    → reader ≢ xid
    → (rows' : List Row) × (delete_row_versioned index xid rows ≡ ok rows')
      × (visible_values m reader s rows' ≡ visible_values m reader s rows)
      × (visible_values m xid s rows' ≡ visible_values m xid s (without_at index rows))
unfolding delete_row_versioned
delete_row_versioned-hides m xid reader s rows index row at live running other =
    let inside : leb (length rows) index ≡ false = ground (arith, get_elem?-lt rows index row at) in
    (
      stamp index xid rows,
      rw inside refl,
      stamp-visible_values m xid reader s rows index row at live running other,
      stamp-without_at m xid s rows index running,
    )
