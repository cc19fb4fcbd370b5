-- ===== src/BTree/Prefix.antt =====
-- `BTreeIndex::find_prefix` of core/btree_index.cc on a well-formed index.
use custom_sql_database.Prelude.{
  ◌≡◌, refl, ap, ◌∙◌, true, false, ◌&&◌, none, some, List, [], ◌∷◌, ◌++◌, arith, if◌then◌else◌,
}
use custom_sql_database.Types.Value.{DataType, Value}
use custom_sql_database.Types.Compare.{Floats, value_less}
use custom_sql_database.Types.Order.{OfType, value_less_trans, value_trichotomy_of, value_eq_iff_of}
use custom_sql_database.IndexKey.{IndexKey, key_less, key_eq, starts_with}
use custom_sql_database.BTree.Entries.{Entries}
use custom_sql_database.BTree.Layout.{flatten}
use custom_sql_database.BTree.Scan.{IsMonotone, taken, scan-taken}
use custom_sql_database.BTree.Index.{Root, is_skipped, is_exceeded, visit_prefix, find_prefix}
use custom_sql_database.BTree.Keys.{HasShape, key-IsOrder}
use custom_sql_database.BTree.Refine.{contents, IsIndex}
use custom_sql_database.BTree.Lookup.{rows_where, visit-taken, stopped_beyond, taken_passes}

-- The components of a prefix are of the types of the first columns.
abbrev pub HasPrefixShape : List DataType → IndexKey → Type 0
HasPrefixShape ts [] = Unit
HasPrefixShape [] (v ∷ vs) = ⊥
HasPrefixShape (t ∷ ts) (v ∷ vs) = OfType t v × HasPrefixShape ts vs

module _ (fl : Floats) where
  -- A key above one that exceeds the prefix exceeds it.
  is_exceeded_above :
      (ts : List DataType) (prefix a b : IndexKey)
      → HasPrefixShape ts prefix
      → HasShape ts a
      → HasShape ts b
      → is_exceeded fl prefix a ≡ true
      → key_less fl a b ≡ true
      → is_exceeded fl prefix b ≡ true
  unfolding is_exceeded key_less
  is_exceeded_above ts [] a b hp ha hb h l = absurd (ground (arith, h))
  is_exceeded_above (t ∷ ts) (p ∷ prefix) (x ∷ a) (y ∷ b) hp ha hb h l = ground (
    arith,
    is_exceeded_above ts prefix a b hp.1 ha.1 hb.1,
    h,
    l,
    value_trichotomy_of fl t p x hp.0 ha.0,
    value_trichotomy_of fl t x y ha.0 hb.0,
    value_trichotomy_of fl t p y hp.0 hb.0,
    value_eq_iff_of fl t p x hp.0 ha.0,
    value_eq_iff_of fl t x y ha.0 hb.0,
    value_less_trans fl t p x y hp.0 ha.0 hb.0,
    λ (e : p ≡ x). ap (λ v. value_less fl v y) e,
    λ (e : x ≡ y). ap (λ v. value_less fl p v) e,
    λ (e : x ≡ y). ap (λ v. value_less fl v p) e,
  )
  is_exceeded_above _ _ _ _ hp ha hb h l = ground arith

  exceeded-starts_with :
      (ts : List DataType) (prefix b : IndexKey)
      → HasPrefixShape ts prefix
      → HasShape ts b
      → is_exceeded fl prefix b ≡ true
      → starts_with fl b prefix ≡ false
  unfolding is_exceeded starts_with
  exceeded-starts_with ts [] b hp hb h = absurd (ground (arith, h))
  exceeded-starts_with (t ∷ ts) (p ∷ prefix) (y ∷ b) hp hb h =
      ground (
        arith,
        exceeded-starts_with ts prefix b hp.1 hb.1,
        h,
        value_trichotomy_of fl t y p hb.0 hp.0,
      )
  exceeded-starts_with _ _ _ hp hb h = ground arith

module _ (fl : Floats) (t : DataType) (ts : List DataType) where
  visit_prefix-IsMonotone :
      (prefix : IndexKey)
      → HasPrefixShape (t ∷ ts) prefix
      → IsMonotone (HasShape (t ∷ ts)) (key_less fl) (key_eq fl) (visit_prefix fl prefix)
  unfolding visit_prefix
  visit_prefix-IsMonotone prefix hp = record {
    stopped = λ a b pa pb l stop take'.
        let beyond = stopped_beyond _ (key_less fl prefix a && is_exceeded fl prefix a) stop in
        let above = is_exceeded_above fl (t ∷ ts) prefix a b hp pa pb (ground (arith, beyond)) l in
        absurd (
          ground
            (arith, exceeded-starts_with fl (t ∷ ts) prefix b hp pb above, taken_passes _ _ take'));
  }

  taken-visit_prefix :
      (prefix : IndexKey) (entries : Entries IndexKey)
      → taken (visit_prefix fl prefix) entries
        ≡ rows_where (λ key. starts_with fl key prefix) entries
  unfolding taken visit_prefix rows_where
  taken-visit_prefix prefix [] = refl
  taken-visit_prefix prefix ((key, rows) ∷ entries) =
      visit-taken (starts_with fl key prefix) (key_less fl prefix key && is_exceeded fl prefix key)
        rows _
      ∙ ap (λ r. if starts_with fl key prefix then rows ++ r else r)
          (taken-visit_prefix prefix entries)

  -- A prefix scan of a well-formed index gives the rows of exactly the keys that begin with the prefix, in
  -- the order of the keys; the prefix is not empty, and its components are of the types of the columns.
  pub find_prefix-rows_where :
      (v : Value) (prefix : IndexKey) (root : Root)
      → HasPrefixShape (t ∷ ts) (v ∷ prefix)
      → is_skipped (v ∷ prefix) ≡ false
      → IsIndex fl (t ∷ ts) root
      → find_prefix fl (v ∷ prefix) root
        ≡ rows_where (λ key. starts_with fl key (v ∷ prefix)) (contents root)
  unfolding find_prefix rows_where
  find_prefix-rows_where v prefix none hp hn i = refl
  find_prefix-rows_where v prefix (some n) hp hn i = rw hn (
      scan-taken (key-IsOrder fl (t ∷ ts)) (visit_prefix-IsMonotone (v ∷ prefix) hp) i.0.0 n i.0.1
        i.1
      ∙ taken-visit_prefix (v ∷ prefix) (flatten n))
