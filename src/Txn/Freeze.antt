-- ===== src/Txn/Freeze.antt =====
-- Freezing committed versions: `canFreezeCommitted` of core/transaction_manager.cc, and
-- `freeze_committed_versions` and `get_visible_rows` of core/table.cc. The rows of a table are the
-- list that its row directory gives.
use custom_sql_database.Prelude.{
  ℕ, ◌≡◌, ◌≢◌, ◌⊎◌, refl, Bool, true, false, ◌||◌, Option, none, some, List, [], ◌∷◌, arith, ◌==◌,
  nat_eq, lookup, if◌then◌else◌, All,
}
use custom_sql_database.Types.Value.{Value}
use custom_sql_database.Row.{Row}
use custom_sql_database.Txn.Manager.{
  TransactionManager, TransactionSnapshot, unseen, none_unseen, can_freeze_committed, is_committed,
  is_visible,
}

-- `get_visible_rows`, with the values of each row.
unfoldable pub visible_values :
    TransactionManager → ℕ → Option TransactionSnapshot → List Row → List (List Value)
visible_values m reader snapshot [] = []
visible_values m reader snapshot (row ∷ rows) =
    let rest = visible_values m reader snapshot rows in
    if is_visible m row.xmin row.xmax reader snapshot then row.values ∷ rest else rest

-- One round of the loop: the row that is kept, and whether it changed.
freeze_row : ℕ → Row → Option Row × Bool
freeze_row xid row =
    if row.xmax == xid
    then (none, true)
    else if row.xmin == xid
    then (some (record row { xmin = 0 }), true)
    else (some row, false)

abbrev pub keep {ℓ} : {A : Type ℓ} → Option A → List A → List A
keep none rows = rows
keep (some row) rows = row ∷ rows

freeze_rows : ℕ → List Row → List Row × Bool
unfolding freeze_row
freeze_rows xid [] = ([], false)
freeze_rows xid (row ∷ rows) =
    let (kept, changed) = freeze_rows xid rows in
    let (row', now) = freeze_row xid row in (keep row' kept, now || changed)

-- The rows that stay; the heap is rewritten only if some row changed.
unfoldable pub freeze_committed_versions : ℕ → List Row → List Row
unfolding freeze_rows
freeze_committed_versions xid rows =
    if xid == 0
    then rows
    else let (kept, changed) = freeze_rows xid rows in if changed then kept else rows

freeze_rows_unchanged :
    (xid : ℕ) (rows : List Row) → (freeze_rows xid rows).1 ≡ false → (freeze_rows xid rows).0 ≡ rows
unfolding freeze_rows
freeze_rows_unchanged xid [] h = refl
freeze_rows_unchanged xid (row ∷ rows) h = ground (arith, freeze_rows_unchanged xid rows)

-- A version that the reader created was deleted by nobody else.
abbrev pub Own : ℕ → Row → Type 0
Own reader row = row.xmin ≡ reader → (row.xmax ≡ 0) ⊎ (row.xmax ≡ reader)

-- The reader sees `xid` as committed.
abbrev pub Settled : TransactionManager → ℕ → Option TransactionSnapshot → Type 0
Settled m xid none = is_committed m xid ≡ true
Settled m xid (some s) = (is_committed m xid ≡ true) × (unseen xid s ≡ false)

freeze_row_dropped :
    (m : TransactionManager) (xid reader : ℕ) (snapshot : Option TransactionSnapshot) (row : Row)
    → Settled m xid snapshot
    → xid ≢ 0
    → reader ≢ xid
    → Own reader row
    → row.xmax ≡ xid
    → is_visible m row.xmin row.xmax reader snapshot ≡ false
unfolding is_visible
freeze_row_dropped m xid reader none row s z r o e = ground arith
freeze_row_dropped m xid reader (some t) row s z r o e = ground arith

freeze_row_created :
    (m : TransactionManager) (xid xmax reader : ℕ) (snapshot : Option TransactionSnapshot)
    → Settled m xid snapshot
    → xid ≢ 0
    → reader ≢ xid
    → is_visible m xid xmax reader snapshot ≡ is_visible m 0 xmax reader snapshot
unfolding is_visible
freeze_row_created m xid xmax reader none s z r = ground arith
freeze_row_created m xid xmax reader (some t) s z r = ground arith

freeze_rows_visible :
    (m : TransactionManager) (xid reader : ℕ) (snapshot : Option TransactionSnapshot)
    (rows : List Row)
    → Settled m xid snapshot
    → xid ≢ 0
    → reader ≢ xid
    → All (Own reader) rows
    → visible_values m reader snapshot (freeze_rows xid rows).0
      ≡ visible_values m reader snapshot rows
unfolding visible_values freeze_rows
freeze_rows_visible m xid reader snapshot [] s z r o = refl
freeze_rows_visible m xid reader snapshot (row ∷ rows) s z r o = ground (
  arith,
  freeze_row_dropped m xid reader snapshot row s z r o.0,
  freeze_row_created m xid row.xmax reader snapshot s z r,
  freeze_rows_visible m xid reader snapshot rows s z r o.1,
)

none_unseen-lookup :
    (xid owner : ℕ) (snaps : List (ℕ × TransactionSnapshot)) (s : TransactionSnapshot)
    → none_unseen xid snaps ≡ true
    → lookup owner snaps ≡ some s
    → unseen xid s ≡ false
unfolding none_unseen lookup
none_unseen-lookup xid owner [] s h l = ground arith
none_unseen-lookup xid owner ((o, t) ∷ snaps) s h l =
    ground (arith, none_unseen-lookup xid owner snaps s)

-- Freezing a committed transaction that `canFreezeCommitted` lets through changes no values that
-- a registered snapshot shows to any other transaction; a reader's own versions are deleted by
-- nobody else.
pub freeze_keeps_snapshots :
    (m : TransactionManager) (xid reader owner : ℕ) (s : TransactionSnapshot) (rows : List Row)
    → is_committed m xid ≡ true
    → can_freeze_committed m xid ≡ true
    → lookup owner m.active_snapshots ≡ some s
    → reader ≢ xid
    → All (Own reader) rows
    → visible_values m reader (some s) (freeze_committed_versions xid rows)
      ≡ visible_values m reader (some s) rows
unfolding can_freeze_committed freeze_committed_versions
freeze_keeps_snapshots m xid reader owner s rows c f l r o = ground (
  arith,
  freeze_rows_unchanged xid rows,
  none_unseen-lookup xid owner m.active_snapshots s,
  λ (z : xid ≢ 0) (u : unseen xid s ≡ false).
      freeze_rows_visible m xid reader (some s) rows (c, u) z r o,
)
