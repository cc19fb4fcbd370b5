-- ===== src/Txn/Visibility.antt =====
-- `isVisible` of core/transaction_manager.cc against the rule of snapshot isolation.
use custom_sql_database.Prelude.{
  ℕ, ◌≡◌, ◌⊎◌, Bool, not, ◌&&◌, ◌||◌, Option, none, some, arith, ◌==◌,
}
use custom_sql_database.Txn.Manager.{
  TransactionManager, TransactionSnapshot, unseen, is_committed, is_visible,
}

-- The effects of `xid` are part of what `reader` sees: it is the loader or the reader itself, or it
-- committed and the snapshot (if there is one) was taken after that.
abbrev pub sees : TransactionManager → ℕ → Option TransactionSnapshot → ℕ → Bool
sees m reader none xid = xid == 0 || xid == reader || is_committed m xid
sees m reader (some s) xid = xid == 0 || xid == reader || not (unseen xid s) && is_committed m xid

-- `isVisible` is the rule of snapshot isolation: a version is visible exactly when its creation
-- is seen by the reader (loaded, own, or committed and not hidden by the snapshot) and its
-- deletion, if any, is not; a version that the reader created was deleted by nobody else.
pub is_visible-sees :
    (m : TransactionManager) (xmin xmax reader : ℕ) (snapshot : Option TransactionSnapshot)
    → (xmin ≡ reader → (xmax ≡ 0) ⊎ (xmax ≡ reader))
    → is_visible m xmin xmax reader snapshot
      ≡ (sees m reader snapshot xmin && (xmax == 0 || not (sees m reader snapshot xmax)))
unfolding is_visible
is_visible-sees m xmin xmax reader none own = ground arith
is_visible-sees m xmin xmax reader (some s) own = ground arith
